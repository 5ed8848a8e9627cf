-- ===== src/TimerQueue.antt =====
-- include/experimental/bits/timer_queue.h: the heap of `__timer_queue` with the index that each timer
-- keeps of its place in it. A timer is its address, and 0 is the null pointer; the data of all timers
-- are one store. A time point is a number of ticks since the first one. A vector is its size and its
-- elements by index. A loop takes fuel, and `none` is a loop that ran out of it.
pub mod Calls
pub mod Heap
pub mod Sift
pub mod Removal
pub mod Expiry
pub mod Wait
pub mod Enqueue
pub mod Moves
pub mod Cancel
pub mod Active
pub mod Unlink
pub mod Links
use executors.Base.{
  ℕ, zero, suc, ◌+◌, ◌-◌, ◌*◌, ◌/◌, ◌^◌, Option, none, some, List, [], ◌==◌, Bool, true, false,
  ◌&&◌, ◌||◌, not, ltb, if◌then◌else◌, update,
}

-- A waiting operation, and whether its error code is `operation_canceled`.
pub record WaitOp : Type 0 where
  pub handler : ℕ
  pub is_canceled : Bool

-- `__per_timer_data`; its queue of operations is a list (OpQueue/Refine.antt).
pub record TimerData : Type 0 where
  pub ops : List WaitOp
  pub heap_index : ℕ
  pub next : ℕ
  pub prev : ℕ

-- `~size_t(0)`
abbrev pub no_index : ℕ
no_index = 2 ^ 64 - 1

unfoldable pub new_timer : TimerData
new_timer = record { ops = []; heap_index = no_index; next = 0; prev = 0 }

-- `__heap_entry`
pub record Entry : Type 0 where
  pub expiry : ℕ
  pub timer : ℕ

pub record TimerQueue : Type 0 where
  pub timers : ℕ
  pub size : ℕ
  pub heap : ℕ → Entry
  pub data_of : ℕ → TimerData

abbrev pub parent : ℕ → ℕ
parent index = (index - 1) / 2

abbrev pub set_index : ℕ → ℕ → (ℕ → TimerData) → ℕ → TimerData
set_index timer index data_of = update data_of timer (record (data_of timer) { heap_index = index })

abbrev pub exchanged : ℕ → ℕ → (ℕ → Entry) → ℕ → Entry
exchanged index1 index2 heap = update (update heap index1 (heap index2)) index2 (heap index1)

unfoldable pub swap_heap : ℕ → ℕ → TimerQueue → TimerQueue
swap_heap index1 index2 q =
    let heap = exchanged index1 index2 q.heap in
    record q {
      heap = heap;
      data_of =
          set_index (heap index2).timer index2 (set_index (heap index1).timer index1 q.data_of);
    }

-- The condition of the loop of `_Up_heap`.
abbrev pub rises : ℕ → TimerQueue → Bool
rises index q = ltb 0 index && ltb (q.heap index).expiry (q.heap (parent index)).expiry

unfoldable pub up_heap : ℕ → ℕ → TimerQueue → Option TimerQueue
unfolding swap_heap
up_heap zero index q = none
up_heap (suc fuel) index q = elim (rises index q) [
  | true ↦ up_heap fuel (parent index) (swap_heap index (parent index) q)
  | false ↦ some q
]

abbrev pub child : ℕ → ℕ
child index = index * 2 + 1

abbrev pub min_child : ℕ → TimerQueue → ℕ
min_child index q =
    let c = child index in
    if (c + 1 == q.size) || ltb (q.heap c).expiry (q.heap (c + 1)).expiry then c else c + 1

-- Whether the loop of `_Down_heap` goes on, past its `break`.
abbrev pub sinks : ℕ → TimerQueue → Bool
sinks index q =
    ltb (child index) q.size && not (ltb (q.heap index).expiry (q.heap (min_child index q)).expiry)

unfoldable pub down_heap : ℕ → ℕ → TimerQueue → Option TimerQueue
unfolding swap_heap
down_heap zero index q = none
down_heap (suc fuel) index q = elim (sinks index q) [
  | true ↦ down_heap fuel (min_child index q) (swap_heap index (min_child index q) q)
  | false ↦ some q
]

-- `pop_back`
abbrev pub pop_back : TimerQueue → TimerQueue
pop_back q = record q { size = q.size - 1 }

-- Where an entry of another timer has taken the place `index`.
abbrev pub sift : ℕ → TimerQueue → Option TimerQueue
sift index q = elim (rises index q) [
  | true ↦ up_heap (suc index) index q
  | false ↦ down_heap (suc q.size) index q
]

-- The first half of `_Remove_timer`.
unfoldable pub remove_entry : ℕ → TimerQueue → Option TimerQueue
unfolding swap_heap up_heap down_heap
remove_entry timer q =
    let index = (q.data_of timer).heap_index in
    elim (ltb index q.size) [
      | true ↦ elim (index == q.size - 1) [
        | true ↦ some (pop_back q)
        | false ↦ sift index (pop_back (swap_heap index (q.size - 1) q))
      ]
      | false ↦ some q
    ]

-- A pointer's target changes a field, if the pointer is not null.
abbrev pub set_next : ℕ → ℕ → (ℕ → TimerData) → ℕ → TimerData
set_next timer next data_of =
    if timer == 0 then data_of else update data_of timer (record (data_of timer) { next = next })

abbrev pub set_prev : ℕ → ℕ → (ℕ → TimerData) → ℕ → TimerData
set_prev timer prev data_of =
    if timer == 0 then data_of else update data_of timer (record (data_of timer) { prev = prev })

-- The second half of `_Remove_timer`: the list of active timers.
unfoldable pub unlink : ℕ → TimerQueue → TimerQueue
unlink timer q =
    let d = q.data_of timer in
    let before = set_next d.prev d.next q.data_of in
    let after = set_prev (before timer).next (before timer).prev before in
    record q {
      timers = if q.timers == timer then d.next else q.timers;
      data_of = update after timer (record (after timer) { next = 0; prev = 0 });
    }

unfoldable pub remove_timer : ℕ → TimerQueue → Option TimerQueue
unfolding remove_entry unlink
remove_timer timer q = elim (remove_entry timer q) [ none ↦ none | some r ↦ some (unlink timer r) ]
