-- ===== src/Examples/Joins.antt =====
-- Threads of a pool, and the group 0.
use executors.Base.{ℕ, ◌≡◌, refl, arith, true}
use executors.ForkJoin.{
  Pool, Reach, here, next, begins, waits, posts_to, posts, takes, completes, start, push,
  do_work_started, do_work_finished, notify_all,
}
use executors.ForkJoin.Stacks.{any_wants, IsAlert}
use executors.ForkJoin.Wakeup.{Reach-IsWatched}
use executors.ForkJoin.Counts.{queued, runs}
use executors.ForkJoin.Groups.{Reach-IsJoined}

record Scene : Type 0 where
  pool : Pool
  reached : Reach 3 1 2 pool

-- The threads 0 and 1 wait, and a function comes, of which 0 is told.
abbrev told : Scene
unfolding start push do_work_started
told = record {
  pool = _;
  reached =
      next
        (next
          (next
            (next (next here (begins 0 (omega arith) refl)) (waits 0 (omega arith) refl refl refl))
            (begins 1 (omega arith) refl))
          (waits 1 (omega arith) refl refl refl))
        (posts_to 2 0 0 (omega arith) (omega arith) tt (omega arith) refl);
}

Reach-IsWatched_example :
    (any_wants told.pool (told.pool.threads 1) ≡ true)
    × ((j : ℕ) × IsAlert told.pool (told.pool.threads j))
unfolding start push do_work_started
Reach-IsWatched_example = Reach-IsWatched 3 1 2 1 told.pool told.reached refl refl

-- The thread 0 executes a function of the group.
abbrev done : Scene
unfolding start push do_work_started do_work_finished notify_all
done = record {
  pool = _;
  reached =
      next
        (next
          (next (next here (begins 0 (omega arith) refl))
            (posts 1 0 (omega arith) (omega arith) tt (λ j. ground arith)))
          (takes 0 0 (omega arith) refl refl refl))
        (completes 0 0 (omega arith) refl);
}

Reach-IsJoined_example :
    (queued 0 done.pool.queue ≡ 0) × (runs 0 (done.pool.threads 0) ≡ 0) × (done.pool.external 0 ≡ 0)
unfolding start push do_work_started do_work_finished notify_all
Reach-IsJoined_example = Reach-IsJoined 3 1 2 0 0 done.pool done.reached refl (omega arith)
