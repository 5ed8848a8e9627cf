-- ===== src/Reactor/Thread.antt =====
-- The thread of a reactor and the calls of others, interleaved: a step is one section under the mutex.
-- A wait may end at any moment, by its time or for no reason.
use executors.Base.{ℕ, ◌<◌, ◌≡◌, ◌^◌, some, Bool, length}
use executors.Base.Int.{ℤ}
use executors.TimerQueue.{WaitOp, TimerQueue}
use executors.Reactor.{
  starting, completing, waiting, Reactor, new_reactor, stop, add_timer_queue, remove_timer_queue,
  move_in, enqueue_in, cancel_in, next_op, round,
}

pub data Step (to_duration : ℕ → ℕ → ℤ) (r : Reactor) : Reactor → Type 0 where
  -- The thread begins, or goes on after a wait.
  begins :
      (fuel now : ℕ → ℕ) {s : Reactor}
      → r.thread ≡ starting
      → round fuel now to_duration r ≡ some s
      → Step to_duration r s
  wakes :
      (fuel now : ℕ → ℕ) {s : Reactor} {d : ℤ} {told : Bool}
      → r.thread ≡ waiting d told
      → round fuel now to_duration r ≡ some s
      → Step to_duration r s
  completes : {op : WaitOp} → r.thread ≡ completing op → Step to_duration r (next_op to_duration r)
  stops : Step to_duration r (stop r)
  adds : (q : ℕ) → Step to_duration r (add_timer_queue q r)
  removes : (q : ℕ) → Step to_duration r (remove_timer_queue q r)
  moves :
      (q target source : ℕ) {s : Reactor}
      → move_in q target source r ≡ some s
      → Step to_duration r s
  enqueues :
      (max_time q expiry timer : ℕ) (op : WaitOp) {s : Reactor}
      → enqueue_in max_time q expiry timer op r ≡ some s
      → Step to_duration r s
  -- A timer has fewer operations than there are addresses.
  cancels :
      (q timer max_num : ℕ) {s : Reactor}
      → length ((r.queue_at q).data_of timer).ops < 2 ^ 64
      → cancel_in q timer max_num r ≡ some s
      → Step to_duration r s

-- What can become of a new reactor.
pub data Reach (to_duration : ℕ → ℕ → ℤ) : Reactor → Type 0 where
  here : (queue_at : ℕ → TimerQueue) → Reach to_duration (new_reactor queue_at)
  next : {r s : Reactor} → Reach to_duration r → Step to_duration r s → Reach to_duration s
