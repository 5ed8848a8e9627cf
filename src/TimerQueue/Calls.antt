-- ===== src/TimerQueue/Calls.antt =====
-- timer_queue.h: the members of `__timer_queue`.
use executors.Base.{
  ℕ, zero, suc, ◌+◌, ◌%◌, ◌^◌, Option, none, some, List, [], ◌∷◌, ◌++◌, Bool, true, false, ◌&&◌,
  ◌||◌, not, ◌==◌, ltb, if◌then◌else◌, is_nil, update,
}
use executors.Base.Int.{ℤ, ltb_ℤ}
use executors.TimerQueue.{
  WaitOp, TimerData, no_index, TimerQueue, set_index, up_heap, remove_timer, set_next, set_prev,
}

unfoldable pub empty_queue : (ℕ → TimerData) → TimerQueue
empty_queue data_of = record {
  timers = 0;
  size = 0;
  heap = λ i. record { expiry = 0; timer = 0 };
  data_of = data_of;
}

-- Whether the timer is in the list of active timers.
abbrev pub is_active : ℕ → TimerQueue → Bool
is_active timer q = not ((q.data_of timer).prev == 0) || (timer == q.timers)

-- `_Empty`
unfoldable pub is_empty : TimerQueue → Bool
is_empty q = q.timers == 0

-- A new entry in the heap, for a timer that can expire; `max_time` is the last time point.
unfoldable pub add_entry : ℕ → ℕ → ℕ → TimerQueue → Option TimerQueue
unfolding up_heap
add_entry max_time t timer q =
    if t == max_time
    then some (record q { data_of = set_index timer no_index q.data_of })
    else up_heap (suc q.size) q.size (record q {
      size = q.size + 1;
      heap = update q.heap q.size (record { expiry = t; timer = timer });
      data_of = set_index timer q.size q.data_of;
    })

-- A timer becomes the first in the list of active timers.
unfoldable pub link : ℕ → TimerQueue → TimerQueue
link timer q =
    let d = q.data_of timer in
    let placed = update q.data_of timer (record d { next = q.timers; prev = 0 }) in
    record q { timers = timer; data_of = set_prev q.timers timer placed }

-- The end of `_Enqueue_timer`: the queue, and whether the operation is the first to expire.
abbrev pub add_op : WaitOp → ℕ → TimerQueue → TimerQueue × Bool
add_op op timer q =
    let d = q.data_of timer in
    (
      record q { data_of = update q.data_of timer (record d { ops = d.ops ++ op ∷ [] }) },
      (d.heap_index == 0) && is_nil d.ops,
    )

-- `_Enqueue_timer`
unfoldable pub enqueue_timer : ℕ → ℕ → ℕ → WaitOp → TimerQueue → Option (TimerQueue × Bool)
unfolding add_entry link
enqueue_timer max_time t timer op q = elim (is_active timer q) [
  | true ↦ some (add_op op timer q)
  | false ↦ elim (add_entry max_time t timer q) [
    | none ↦ none
    | some r ↦ some (add_op op timer (link timer r))
  ]
]

-- `_Wait_duration`; `to_duration` is that of the timer traits.
unfoldable pub wait_duration : (ℕ → ℤ) → ℤ → TimerQueue → ℤ
wait_duration to_duration max_duration q =
    let d = to_duration (q.heap 0).expiry in
    if q.size == 0 then max_duration else if ltb_ℤ d max_duration then d else max_duration

-- `_Push` of all operations of a timer to `ops`.
abbrev pub drain : ℕ → TimerQueue → TimerQueue
drain timer q = record q {
  data_of = update q.data_of timer (record (q.data_of timer) { ops = [] });
}

-- The condition of the loop of `_Get_ready_timers`.
abbrev pub is_due : ℕ → TimerQueue → Bool
is_due now q = not (q.size == 0) && not (ltb now (q.heap 0).expiry)

-- `_Get_ready_timers`: what it appends to `ops`.
unfoldable pub get_ready_timers : ℕ → ℕ → TimerQueue → Option (TimerQueue × List WaitOp)
unfolding remove_timer
get_ready_timers zero now q = none
get_ready_timers (suc fuel) now q = elim (is_due now q) [
  | false ↦ some (q, [])
  | true ↦
      let timer = (q.heap 0).timer in
      elim (remove_timer timer (drain timer q)) [
        | none ↦ none
        | some r ↦ elim (get_ready_timers fuel now r) [
          | none ↦ none
          | some (s, ops) ↦ some (s, (q.data_of timer).ops ++ ops)
        ]
      ]
]

-- `_Get_all_timers`: what it appends to `ops`.
unfoldable pub get_all_timers : ℕ → TimerQueue → Option (TimerQueue × List WaitOp)
get_all_timers zero q = none
get_all_timers (suc fuel) q = elim (q.timers == 0) [
  | true ↦ some (record q { size = 0 }, [])
  | false ↦
      let timer = q.timers in
      let d = q.data_of timer in
      let cleared = update q.data_of timer (record d { ops = []; next = 0; prev = 0 }) in
      elim (get_all_timers fuel (record q { timers = d.next; data_of = cleared })) [
        | none ↦ none
        | some (s, ops) ↦ some (s, d.ops ++ ops)
      ]
]

-- The loop of `_Cancel_timer`: the operations taken, those left, and the count, a `size_t`.
unfoldable pub cancel_ops : ℕ → ℕ → List WaitOp → List WaitOp × List WaitOp × ℕ
cancel_ops num max_num [] = ([], [], num)
cancel_ops num max_num (op ∷ ops) =
    let rest = cancel_ops ((num + 1) % 2 ^ 64) max_num ops in
    if num == max_num
    then ([], op ∷ ops, num)
    else (record op { is_canceled = true } ∷ rest.0, rest.1, rest.2)

-- `_Cancel_timer`: the queue, what it appends to `ops`, and the result.
unfoldable pub cancel_timer : ℕ → ℕ → TimerQueue → Option (TimerQueue × List WaitOp × Bool)
unfolding remove_timer cancel_ops
cancel_timer timer max_num q = elim (is_active timer q) [
  | false ↦ some (q, [], false)
  | true ↦
      let d = q.data_of timer in
      let (taken, left, num) = cancel_ops 0 max_num d.ops in
      let r = record q { data_of = update q.data_of timer (record d { ops = left }) } in
      elim (is_nil left) [
        | false ↦ some (r, taken, not (num == 0))
        | true ↦ elim (remove_timer timer r) [
          | none ↦ none
          | some s ↦ some (s, taken, not (num == 0))
        ]
      ]
]

-- The entry of a moved timer; `none` is an index beyond the end of the vector.
abbrev pub move_entry : ℕ → ℕ → TimerQueue → Option TimerQueue
move_entry index target q =
    if index == no_index
    then some q
    else if ltb index q.size
    then some (record q { heap = update q.heap index (record (q.heap index) { timer = target }) })
    else none

abbrev pub move_links : ℕ → ℕ → TimerQueue → TimerQueue
move_links target source q =
    let prev = (q.data_of source).prev in
    let a = update q.data_of target (record (q.data_of target) { prev = prev }) in
    let b = set_next prev target a in
    let next = (b source).next in
    let c = update b target (record (b target) { next = next }) in
    record q {
      timers = if q.timers == source then target else q.timers;
      data_of = set_prev next target c;
    }

-- `_Move_timer`
unfoldable pub move_timer : ℕ → ℕ → TimerQueue → Option TimerQueue
move_timer target source q =
    let t = q.data_of target in
    let s = q.data_of source in
    let moved =
      update
        (update q.data_of target (record t { ops = t.ops ++ s.ops; heap_index = s.heap_index }))
        source (record s { ops = []; heap_index = no_index }) in
    elim (move_entry s.heap_index target (record q { data_of = moved })) [
      | none ↦ none
      | some r ↦ some (move_links target source r)
    ]
