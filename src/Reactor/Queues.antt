-- ===== src/Reactor/Queues.antt =====
-- timer_queue.h: `__timer_queue_set`, the timer queues of a reactor. The list from `_M_first` on is a
-- list of addresses, and `queue_at` gives the queue at an address. Every queue has its own clock and traits.
use executors.Base.{
  ℕ, Option, none, some, List, [], ◌∷◌, ◌++◌, Bool, true, ◌&&◌, ◌==◌, if◌then◌else◌, update,
}
use executors.Base.Int.{ℤ}
use executors.TimerQueue.{WaitOp, TimerQueue}
use executors.TimerQueue.Calls.{is_empty, wait_duration, get_ready_timers, get_all_timers}

-- `_Insert`
unfoldable pub insert : ℕ → List ℕ → List ℕ
insert q qs = q ∷ qs

-- `_Erase`
unfoldable pub erase : ℕ → List ℕ → List ℕ
erase q [] = []
erase q (p ∷ qs) = let rest = erase q qs in if p == q then qs else p ∷ rest

-- `_All_empty`
unfoldable pub all_empty : (ℕ → TimerQueue) → List ℕ → Bool
unfolding is_empty
all_empty queue_at [] = true
all_empty queue_at (q ∷ qs) = is_empty (queue_at q) && all_empty queue_at qs

-- `_Wait_duration`; `to_duration` is that of the traits of each queue.
unfoldable pub least_duration : (ℕ → ℕ → ℤ) → (ℕ → TimerQueue) → ℤ → List ℕ → ℤ
unfolding wait_duration
least_duration to_duration queue_at d [] = d
least_duration to_duration queue_at d (q ∷ qs) =
    least_duration to_duration queue_at (wait_duration (to_duration q) d (queue_at q)) qs

-- `_Get_ready_timers`; `now` is what the clock of each queue says, and `fuel` that of each loop.
unfoldable pub get_ready :
    (ℕ → ℕ) → (ℕ → ℕ) → (ℕ → TimerQueue) → List ℕ → Option ((ℕ → TimerQueue) × List WaitOp)
unfolding get_ready_timers
get_ready fuel now queue_at [] = some (queue_at, [])
get_ready fuel now queue_at (q ∷ qs) = elim (get_ready_timers (fuel q) (now q) (queue_at q)) [
  | none ↦ none
  | some (r, ops) ↦ elim (get_ready fuel now (update queue_at q r) qs) [
    | none ↦ none
    | some (rest, more) ↦ some (rest, ops ++ more)
  ]
]

-- `_Get_all_timers`
unfoldable pub get_all :
    (ℕ → ℕ) → (ℕ → TimerQueue) → List ℕ → Option ((ℕ → TimerQueue) × List WaitOp)
unfolding get_all_timers
get_all fuel queue_at [] = some (queue_at, [])
get_all fuel queue_at (q ∷ qs) = elim (get_all_timers (fuel q) (queue_at q)) [
  | none ↦ none
  | some (r, ops) ↦ elim (get_all fuel (update queue_at q r) qs) [
    | none ↦ none
    | some (rest, more) ↦ some (rest, ops ++ more)
  ]
]
