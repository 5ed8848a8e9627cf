-- ===== src/Examples/Schedulers.antt =====
-- A scheduler for one thread, which runs one operation to its end.
use executors.Base.{refl, arith, true, false, ◌==◌}
use executors.Base.Int.{◌+ℤ◌, neg_ℤ}
use executors.Scheduler.{fresh, new_context, work_started, post_begin, push, take, commit}
use executors.Scheduler.Threads.{
  post_outside, pushes, enters, takes, completes, commits, System, by, Reach, here, next,
}
use executors.Scheduler.Safety.{IsDone, IsAtRest, zero-IsAtRest, stop_decision}
use executors.Scheduler.Stranded.{Stranded, post-Stranded}

record Scene : Type 0 where
  system : System
  reached : Reach 1 true false system

-- The handler has returned, and its context is to be added to the count.
abbrev returned : Scene
unfolding fresh new_context work_started post_begin push take ◌+ℤ◌
returned = record {
  system = _;
  reached =
      next
        (next
          (next (next (next here (by 0 (omega arith) (post_outside 5))) (by 0 (omega arith) pushes))
            (by 0 (omega arith) enters))
          (by 0 (omega arith) (takes refl)))
        (by 0 (omega arith) (completes true));
}

abbrev counted : Scene
unfolding fresh new_context work_started post_begin push take commit ◌+ℤ◌ neg_ℤ
counted = record { system = _; reached = next returned.reached (by 0 (omega arith) commits) }

zero-IsAtRest_example : IsAtRest (counted.system.pc 0)
unfolding fresh new_context work_started post_begin push take commit ◌+ℤ◌ neg_ℤ
zero-IsAtRest_example = zero-IsAtRest counted.system counted.reached refl 0 (omega arith)

stop_decision_example : IsDone 1 counted.system
unfolding fresh new_context work_started post_begin push take commit ◌+ℤ◌ neg_ℤ
stop_decision_example =
    stop_decision returned.system counted.system 0 returned.reached (by 0 (omega arith) commits)
      refl refl

post-Stranded_example : Stranded (0 == 1) 5 6 7
post-Stranded_example = post-Stranded 0 5 6 7 (omega arith)
