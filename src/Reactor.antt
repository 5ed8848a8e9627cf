-- ===== src/Reactor.antt =====
-- include/experimental/bits/reactor.h: the thread that waits for the timers of a context. The calls
-- run under the mutex; the thread gives it up while it completes an operation, and while it waits.
pub mod Queues
pub mod Thread
pub mod Wakeup
pub mod Sleep
use executors.Base.{
  ℕ, zero, suc, ◌*◌, ◌^◌, Option, none, some, List, [], ◌∷◌, ◌++◌, Bool, true, false, if◌then◌else◌,
  update, ◌>>=◌,
}
use executors.Base.Int.{ℤ, pos}
use executors.TimerQueue.{WaitOp, TimerQueue, no_index}
use executors.TimerQueue.Calls.{enqueue_timer, cancel_timer, move_timer}
use executors.Reactor.Queues.{insert, erase, get_ready, get_all, least_duration}

-- Where the thread stands: before its lock, in `_Complete` of an operation, in the wait with its time
-- and whether it has been notified since, or at its end.
pub data Pc : Type 0 where
  starting : Pc
  completing : WaitOp → Pc
  waiting : ℤ → Bool → Pc
  finished : Pc

pub record Reactor : Type 0 where
  pub stopped : Bool
  pub queues : List ℕ
  pub queue_at : ℕ → TimerQueue
  pub ops : List WaitOp
  pub thread : Pc

unfoldable pub new_reactor : (ℕ → TimerQueue) → Reactor
new_reactor queue_at = record {
  stopped = false;
  queues = [];
  queue_at = queue_at;
  ops = [];
  thread = starting;
}

-- `notify_one`: who does not wait is not told.
abbrev pub notified : Pc → Pc
notified (waiting d told) = waiting d true
notified p = p

abbrev pub notify_if : Bool → Reactor → Reactor
notify_if told r = if told then record r { thread = notified r.thread } else r

-- The first part of the destructor, before the thread is joined.
unfoldable pub stop : Reactor → Reactor
stop r = record r { stopped = true; thread = notified r.thread }

-- `shutdown_service`: the operations that it destroys, with those of the timers first.
unfoldable pub shutdown_service : (ℕ → ℕ) → Reactor → Option (Reactor × List WaitOp)
unfolding get_all
shutdown_service fuel r = elim (get_all fuel r.queue_at r.queues) [
  | none ↦ none
  | some (queue_at, ops) ↦ some (record r { queue_at = queue_at; ops = [] }, ops ++ r.ops)
]

unfoldable pub add_timer_queue : ℕ → Reactor → Reactor
unfolding insert
add_timer_queue q r = record r { queues = insert q r.queues }

unfoldable pub remove_timer_queue : ℕ → Reactor → Reactor
unfolding erase
remove_timer_queue q r = record r { queues = erase q r.queues }

abbrev pub with_queue : ℕ → TimerQueue → Reactor → Reactor
with_queue q t r = record r { queue_at = update r.queue_at q t }

unfoldable pub move_in : ℕ → ℕ → ℕ → Reactor → Option Reactor
unfolding move_timer
move_in q target source r = elim (move_timer target source (r.queue_at q)) [
  | none ↦ none
  | some t ↦ some (with_queue q t r)
]

-- `_Enqueue_timer`
unfoldable pub enqueue_in : ℕ → ℕ → ℕ → ℕ → WaitOp → Reactor → Option Reactor
unfolding enqueue_timer
enqueue_in max_time q expiry timer op r =
    elim (enqueue_timer max_time expiry timer op (r.queue_at q)) [
      | none ↦ none
      | some (t, first) ↦ some (notify_if first (with_queue q t r))
    ]

-- `_Cancel_timer`: the operations go to those that are ready.
unfoldable pub cancel_in : ℕ → ℕ → ℕ → Reactor → Option Reactor
unfolding cancel_timer
cancel_in q timer max_num r = elim (cancel_timer timer max_num (r.queue_at q)) [
  | none ↦ none
  | some (t, ops, any) ↦ some (notify_if any (record (with_queue q t r) { ops = r.ops ++ ops }))
]

-- A minute, in nanoseconds.
abbrev pub minute : ℤ
minute = pos (60 * 10 ^ 9)

-- The head of the inner loop of `_Run`, with the lock: on to the next operation, or to the wait.
unfoldable pub next_op : (ℕ → ℕ → ℤ) → Reactor → Reactor
unfolding least_duration
next_op to_duration r = elim r.ops [
  | [] ↦ record r { thread = waiting (least_duration to_duration r.queue_at minute r.queues) false }
  | op ∷ ops ↦ record r { ops = ops; thread = completing op }
]

-- The head of the outer loop, with the lock.
unfoldable pub round : (ℕ → ℕ) → (ℕ → ℕ) → (ℕ → ℕ → ℤ) → Reactor → Option Reactor
unfolding get_ready next_op
round fuel now to_duration r =
    if r.stopped
    then some (record r { thread = finished })
    else elim (get_ready fuel now r.queue_at r.queues) [
      | none ↦ none
      | some (queue_at, ops) ↦
          some (next_op to_duration (record r { queue_at = queue_at; ops = r.ops ++ ops }))
    ]
