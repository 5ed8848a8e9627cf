-- ===== src/Work/System.antt =====
-- include/experimental/bits/system_executor.h: the threads of `__system_executor_impl`, from its
-- constructor to its destructor, on a platform other than MSVC.
use executors.Base.{ℕ, ◌≡◌, refl, [], ◌∷◌, ◌++◌, map, arith}
use executors.Work.Pool.{
  work_started, work_finished, stops, starts, joins, Pool, spawn, count, is_started, is_finished,
  is_start, is_join, count-append, count-starts, count-joins, count-none,
}

-- The constructor, with `n` threads.
unfoldable pub construct : ℕ → Pool
unfolding spawn
construct n = record { threads = spawn 0 n; calls = work_started ∷ map starts (spawn 0 n) }

-- The destructor, before the services are shut down.
unfoldable pub destroy : Pool → Pool
destroy p = record { threads = []; calls = p.calls ++ work_finished ∷ stops ∷ map joins p.threads }

-- After the destructor, each thread that was started was joined as often as it was started, and the work
-- was finished once, as it was started once.
pub destroy-construct :
    (n t : ℕ)
    → let calls = (destroy (construct n)).calls in
      (count (is_join t) calls ≡ count (is_start t) calls)
      × (count is_finished calls ≡ 1)
      × (count is_started calls ≡ 1)
unfolding construct destroy
destroy-construct n t =
    let ts = spawn 0 n in
    let before = work_started ∷ map starts ts in
    let more = work_finished ∷ stops ∷ map joins ts in
    (
      omega (
        arith,
        count-append (is_join t) before more,
        count-append (is_start t) before more,
        count-starts t ts,
        count-joins t ts,
        count-none (is_join t) starts ts (λ u. refl),
        count-none (is_start t) joins ts (λ u. refl),
      ),
      omega (
        arith,
        count-append is_finished before more,
        count-none is_finished starts ts (λ u. refl),
        count-none is_finished joins ts (λ u. refl),
      ),
      omega (
        arith,
        count-append is_started before more,
        count-none is_started starts ts (λ u. refl),
        count-none is_started joins ts (λ u. refl),
      ),
    )
