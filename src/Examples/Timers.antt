-- ===== src/Examples/Timers.antt =====
-- A timer queue in which timer 1 expires at 5 and timer 2 at 9; timer 3 has no entry.
use executors.Timer.{time_min, safe_subtract}
use executors.Timer.Subtract.{clamped, safe_subtract_lem}
use executors.Base.Int.{pos, ◌+ℤ◌, neg_ℤ}
use executors.Reactor.{Reactor, starting, new_reactor, add_timer_queue, round, next_op, minute}
use executors.Reactor.Queues.{insert, get_ready, least_duration}
use executors.Reactor.Thread.{Reach, here, next, begins, adds}
use executors.Reactor.Wakeup.{IsHeard, IsUnheard, Reach-IsHeard, stop-IsUnheard}
use executors.TimerQueue.Links.{IsReset, remove_timer-IsRemoved}
use executors.Base.{some, ℕ, zero, suc, ◌≡◌, refl, [], ◌∷◌, false, arith, Ensures}
use executors.TimerQueue.{WaitOp, TimerData, Entry, TimerQueue, no_index, remove_timer}
use executors.TimerQueue.Calls.{get_ready_timers}
use executors.TimerQueue.Heap.{IsOrdered, IsIndexed}
use executors.TimerQueue.Removal.{Removed, IsScheduled}
use executors.TimerQueue.Expiry.{Expired, get_ready_timers_lem}
use executors.TimerQueue.Active.{IsActiveList}

abbrev op : ℕ → WaitOp
op handler = record { handler = handler; is_canceled = false }

abbrev stored : ℕ → TimerData
stored (suc zero) = record { ops = op 11 ∷ op 12 ∷ []; heap_index = 0; next = 0; prev = 2 }
stored (suc (suc zero)) = record { ops = op 21 ∷ []; heap_index = 1; next = 1; prev = 0 }
stored _ = record { ops = []; heap_index = no_index; next = 0; prev = 0 }

abbrev entries : ℕ → Entry
entries zero = record { expiry = 5; timer = 1 }
entries _ = record { expiry = 9; timer = 2 }

abbrev two : TimerQueue
two = record { timers = 2; size = 2; heap = entries; data_of = stored }

two-IsOrdered : IsOrdered two
two-IsOrdered zero a b = absurd (omega arith)
two-IsOrdered (suc zero) a b = omega arith
two-IsOrdered (suc (suc i)) a b = absurd (omega arith)

two-IsIndexed : IsIndexed two
two-IsIndexed zero a = refl
two-IsIndexed (suc zero) a = refl
two-IsIndexed (suc (suc i)) a = absurd (omega arith)

last-IsScheduled : IsScheduled 2 two
last-IsScheduled = record { inside = omega arith; mine = refl }

get_ready_timers_lem_example : Ensures (Expired 7 two) (get_ready_timers 3 7 two)
get_ready_timers_lem_example =
    get_ready_timers_lem 3 7 two (omega arith) two-IsOrdered two-IsIndexed

-- Timer 2 comes before timer 1.
two-IsActiveList : IsActiveList (2 ∷ 1 ∷ []) two
two-IsActiveList = record {
  linked = (refl, ground arith, refl, (refl, ground arith, refl, refl));
  distinct = ((ground arith, tt), (tt, tt));
}

remove_timer-IsRemoved_example :
    Ensures (λ r. Removed 2 two r × (IsActiveList (1 ∷ []) r × IsReset 2 r)) (remove_timer 2 two)
remove_timer-IsRemoved_example =
    remove_timer-IsRemoved 2 [] (1 ∷ []) two two-IsOrdered two-IsIndexed last-IsScheduled
      two-IsActiveList

-- 5 ticks after the epoch, and the first time point of all.
safe_subtract_lem_example :
    safe_subtract (pos 5) time_min ≡ some (clamped (pos 5 +ℤ neg_ℤ time_min))
safe_subtract_lem_example = safe_subtract_lem (pos 5) time_min refl refl

abbrev reactor : Reactor
reactor = record {
  stopped = false;
  queues = 8 ∷ [];
  queue_at = λ q. two;
  ops = [];
  thread = starting;
}

-- A queue whose one timer is due, and the reactor that completes its operation.
abbrev due : TimerQueue
due = record {
  timers = 1;
  size = 1;
  heap = λ i. record { expiry = 5; timer = 1 };
  data_of = λ t. record { ops = op 11 ∷ []; heap_index = 0; next = 0; prev = 0 };
}

record Scene : Type 0 where
  state : Reactor
  reached : Reach (λ q t. pos t) state

abbrev idle : Scene
unfolding new_reactor round get_ready next_op least_duration
idle = record { state = _; reached = next (here (λ q. due)) (begins (λ q. 3) (λ q. 7) refl refl) }

Reach-IsHeard_example : IsHeard idle.state.thread idle.state.ops
Reach-IsHeard_example = Reach-IsHeard idle.state idle.reached

abbrev busy : Scene
unfolding new_reactor add_timer_queue insert round get_ready next_op
busy = record {
  state = _;
  reached = next (next (here (λ q. due)) (adds 8)) (begins (λ q. 3) (λ q. 7) refl refl);
}

stop-IsUnheard_example :
    IsUnheard
      (λ q t. pos t)
      (least_duration (λ q t. pos t) busy.state.queue_at minute busy.state.queues)
unfolding busy
stop-IsUnheard_example = stop-IsUnheard busy.state (op 11) busy.reached refl refl
