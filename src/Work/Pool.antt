-- ===== src/Work/Pool.antt =====
-- include/experimental/bits/thread_pool.h: the threads of a `thread_pool`, and the calls on its scheduler.
-- A call on a thread starts or joins it; the scheduler of the pool is that of scheduler.h
-- (Scheduler.antt).
use executors.Base.{
  ℕ, zero, suc, ◌+◌, ◌≡◌, refl, ap, List, [], ◌∷◌, ◌++◌, ◌==◌, if◌then◌else◌, arith, subst, map,
}

-- A call on the scheduler, or on a thread.
pub data Call : Type 0 where
  work_started : Call
  work_finished : Call
  stops : Call
  starts : ℕ → Call
  joins : ℕ → Call

-- The threads of `_M_threads`, and the calls so far.
pub record Pool : Type 0 where
  pub threads : List ℕ
  pub calls : List Call

-- The loop of the constructor: `n` threads that call `_Run`, numbered from `first`.
unfoldable pub spawn : ℕ → ℕ → List ℕ
spawn first zero = []
spawn first (suc n) = first ∷ spawn (suc first) n

-- `thread_pool(size_t)`
unfoldable pub construct : ℕ → Pool
unfolding spawn
construct n =
    if n == 0
    then record { threads = []; calls = [] }
    else record { threads = spawn 0 n; calls = work_started ∷ map starts (spawn 0 n) }

unfoldable pub stop : Pool → Pool
stop p = record p { calls = p.calls ++ stops ∷ [] }

abbrev join_threads : List ℕ → Pool → Pool
join_threads [] p = p
join_threads (t ∷ ts) p = record {
  threads = [];
  calls = p.calls ++ work_finished ∷ map joins (t ∷ ts);
}

unfoldable pub join : Pool → Pool
join p = join_threads p.threads p

-- The destructor
unfoldable pub destroy : Pool → Pool
unfolding stop join
destroy p = join (stop p)

pub data Op : Type 0 where
  stop_op : Op
  join_op : Op

-- The calls of `stop` and `join` on a pool, in order.
unfoldable pub run : List Op → Pool → Pool
unfolding stop join
run [] p = p
run (stop_op ∷ ops) p = run ops (stop p)
run (join_op ∷ ops) p = run ops (join p)

-- How often a call was made.
abbrev pub is_started : Call → ℕ
is_started work_started = 1
is_started c = 0

abbrev pub is_finished : Call → ℕ
is_finished work_finished = 1
is_finished c = 0

abbrev pub is_start : ℕ → Call → ℕ
is_start t (starts u) = if t == u then 1 else 0
is_start t c = 0

abbrev pub is_join : ℕ → Call → ℕ
is_join t (joins u) = if t == u then 1 else 0
is_join t c = 0

abbrev pub count : (Call → ℕ) → List Call → ℕ
count f [] = 0
count f (c ∷ cs) = f c + count f cs

abbrev pub among : ℕ → List ℕ → ℕ
among t [] = 0
among t (u ∷ us) = (if t == u then 1 else 0) + among t us

abbrev any_left : List ℕ → ℕ
any_left [] = 0
any_left (t ∷ ts) = 1

-- Each thread that was started was joined, or is still there; the pool has finished its work when no
-- thread is left.
record IsTracked (p : Pool) : Type 0 where
  thread : (t : ℕ) → count (is_start t) p.calls ≡ count (is_join t) p.calls + among t p.threads
  work : count is_started p.calls ≡ count is_finished p.calls + any_left p.threads

pub count-append : (f : Call → ℕ) (cs ds : List Call) → count f (cs ++ ds) ≡ count f cs + count f ds
count-append f [] ds = omega arith
count-append f (c ∷ cs) ds = omega (arith, count-append f cs ds)

pub count-starts : (t : ℕ) (ts : List ℕ) → count (is_start t) (map starts ts) ≡ among t ts
count-starts t [] = refl
count-starts t (u ∷ us) = omega (arith, count-starts t us)

pub count-joins : (t : ℕ) (ts : List ℕ) → count (is_join t) (map joins ts) ≡ among t ts
count-joins t [] = refl
count-joins t (u ∷ us) = omega (arith, count-joins t us)

-- The other calls on threads.
pub count-none :
    (f : Call → ℕ) (g : ℕ → Call) (ts : List ℕ) → ((t : ℕ) → f (g t) ≡ 0) → count f (map g ts) ≡ 0
count-none f g [] h = refl
count-none f g (t ∷ ts) h = omega (arith, h t, count-none f g ts h)

left : (n : ℕ) → any_left (spawn 0 (suc n)) ≡ 1
unfolding spawn
left n = refl

construct-IsTracked : (n : ℕ) → IsTracked (construct n)
unfolding construct
construct-IsTracked zero = record { thread = λ t. refl; work = refl }
construct-IsTracked (suc n) = subst IsTracked (ground arith) started
  where
    first : List ℕ
    first = spawn 0 (suc n)

    started : IsTracked (record { threads = first; calls = work_started ∷ map starts first })
    started = record {
      thread =
          λ t. omega (arith, count-starts t first, count-none (is_join t) starts first (λ u. refl));
      work = omega (
        arith,
        left n,
        count-none is_started starts first (λ u. refl),
        count-none is_finished starts first (λ u. refl),
      );
    }

stop-IsTracked : (p : Pool) → IsTracked p → IsTracked (stop p)
unfolding stop
stop-IsTracked p h = record {
  thread = λ t. omega (
    arith,
    h.thread t,
    count-append (is_start t) p.calls (stops ∷ []),
    count-append (is_join t) p.calls (stops ∷ []),
  );
  work = omega (
    arith,
    h.work,
    count-append is_started p.calls (stops ∷ []),
    count-append is_finished p.calls (stops ∷ []),
  );
}

join_threads-IsTracked :
    (ts : List ℕ) (p : Pool) → p.threads ≡ ts → IsTracked p → IsTracked (join_threads ts p)
join_threads-IsTracked [] p e h = h
join_threads-IsTracked (t ∷ ts) p e h =
    let more = work_finished ∷ map joins (t ∷ ts) in
    record {
      thread = λ u. omega (
        arith,
        h.thread u,
        ap (among u) e,
        count-append (is_start u) p.calls more,
        count-append (is_join u) p.calls more,
        count-joins u (t ∷ ts),
        count-none (is_start u) joins (t ∷ ts) (λ v. refl),
      );
      work = omega (
        arith,
        h.work,
        ap any_left e,
        count-append is_started p.calls more,
        count-append is_finished p.calls more,
        count-none is_started joins (t ∷ ts) (λ v. refl),
        count-none is_finished joins (t ∷ ts) (λ v. refl),
      );
    }

join-IsTracked : (p : Pool) → IsTracked p → IsTracked (join p)
unfolding join
join-IsTracked p h = join_threads-IsTracked p.threads p refl h

run-IsTracked : (ops : List Op) (p : Pool) → IsTracked p → IsTracked (run ops p)
unfolding run
run-IsTracked [] p h = h
run-IsTracked (stop_op ∷ ops) p h = run-IsTracked ops (stop p) (stop-IsTracked p h)
run-IsTracked (join_op ∷ ops) p h = run-IsTracked ops (join p) (join-IsTracked p h)

join-threads : (p : Pool) → (join p).threads ≡ []
unfolding join
join-threads p = go p.threads refl
  where
    go : (ts : List ℕ) → p.threads ≡ ts → (join_threads ts p).threads ≡ []
    go [] e = e
    go (t ∷ ts) e = refl

-- Whatever calls of `stop` and `join` come before the destructor of a pool of `n` threads, there is no
-- thread left after it, each thread that was started was joined as often as it was started, and the pool
-- finished its work as often as it started it.
pub destroy_lem :
    (n t : ℕ) (ops : List Op)
    → let p = destroy (run ops (construct n)) in
      (p.threads ≡ [])
      × (count (is_join t) p.calls ≡ count (is_start t) p.calls)
      × (count is_finished p.calls ≡ count is_started p.calls)
unfolding destroy
destroy_lem n t ops =
    let p = run ops (construct n) in
    let h =
      join-IsTracked (stop p)
        (stop-IsTracked p (run-IsTracked ops (construct n) (construct-IsTracked n))) in
    let e = join-threads (stop p) in
    (e, omega (arith, h.thread t, ap (among t) e), omega (arith, h.work, ap any_left e))
