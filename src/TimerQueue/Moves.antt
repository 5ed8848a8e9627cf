-- ===== src/TimerQueue/Moves.antt =====
-- `_Move_timer`: of a timer that waits, and of one that has expired.
use executors.Base.{
  ℕ, ◌-◌, ◌≤◌, ◌≡◌, refl, ◌≢◌, none, some, [], ◌++◌, arith, ap, sym, ◌∙◌, subst, Ensures, update,
}
use executors.TimerQueue.{TimerQueue, no_index, remove_entry, unlink, remove_timer}
use executors.TimerQueue.Calls.{move_links, move_timer}
use executors.TimerQueue.Heap.{expiry_at, IsOrdered, IsIndexed}
use executors.TimerQueue.Removal.{IsScheduled}
use executors.TimerQueue.Enqueue.{IsAbsent}

abbrev index_of : ℕ → TimerQueue → ℕ
index_of timer q = (q.data_of timer).heap_index

-- What a move leaves of the heap and of the operations.
pub record Moved (target source : ℕ) (q r : TimerQueue) : Type 0 where
  pub ordered : IsOrdered r
  pub indexed : IsIndexed r
  pub same_size : r.size ≡ q.size
  pub same_expiry : (i : ℕ) → expiry_at r i ≡ expiry_at q i
  pub replaced : (r.heap (index_of source q)).timer ≡ target
  pub others : (i : ℕ) → i ≢ index_of source q → r.heap i ≡ q.heap i
  pub moved_ops : (r.data_of target).ops ≡ (q.data_of target).ops ++ (q.data_of source).ops
  pub no_ops : (r.data_of source).ops ≡ []

-- The queue before the links of the list are moved.
abbrev with_entry : ℕ → ℕ → TimerQueue → TimerQueue
with_entry target source q =
    let t = q.data_of target in
    let s = q.data_of source in
    record q {
      heap = update q.heap s.heap_index (record (q.heap s.heap_index) { timer = target });
      data_of =
          update
            (update q.data_of target (record t { ops = t.ops ++ s.ops; heap_index = s.heap_index }))
            source (record s { ops = []; heap_index = no_index });
    }

index-move_links :
    (target source : ℕ) (q : TimerQueue) (t : ℕ)
    → index_of t (move_links target source q) ≡ index_of t q
index-move_links target source q t = ground arith

ops-move_links :
    (target source : ℕ) (q : TimerQueue) (t : ℕ)
    → ((move_links target source q).data_of t).ops ≡ (q.data_of t).ops
ops-move_links target source q t = ground arith

-- `_Move_timer` of a timer with an entry, to a timer with none: the entry becomes that of the target,
-- no other entry changes, and the operations go to the target.
pub move_timer_lem :
    (target source : ℕ) (q : TimerQueue)
    → q.size ≤ no_index
    → IsOrdered q
    → IsIndexed q
    → IsScheduled source q
    → IsAbsent target q
    → target ≢ source
    → Ensures (Moved target source q) (move_timer target source q)
unfolding move_timer
move_timer_lem target source q small o x s absent d =
    let r = with_entry target source q in
    let e : move_timer target source q ≡ some (move_links target source r) =
      ground (arith, s.inside) in
    subst (Ensures (Moved target source q)) (sym e) (record {
      ordered = λ i a b. ground (arith, o i a b);
      indexed = λ i a.
          index-move_links target source r (r.heap i).timer
          ∙ ground (arith, x i a, absent i a, s.inside, s.mine, ap (λ j. (q.heap j).timer));
      same_size = refl;
      same_expiry = λ i. ground arith;
      replaced = ground arith;
      others = λ i a. ground arith;
      moved_ops = ops-move_links target source r target ∙ ground arith;
      no_ops = ops-move_links target source r source ∙ ground arith;
    })

-- `_Remove_timer` of the last entry leaves the timer's index as it was, and `_Move_timer` of that timer
-- then writes past the end of the vector.
pub move_timer-remove_timer_fault :
    (target timer : ℕ) (q : TimerQueue)
    → q.size ≤ no_index
    → IsScheduled timer q
    → (q.data_of timer).heap_index ≡ q.size - 1
    → target ≢ timer
    → Ensures (λ r. move_timer target timer r ≡ none) (remove_timer timer q)
unfolding remove_timer remove_entry unlink move_timer
move_timer-remove_timer_fault target timer q small s last d = ground (arith, s.inside)
