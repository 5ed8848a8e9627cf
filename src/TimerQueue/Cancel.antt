-- ===== src/TimerQueue/Cancel.antt =====
-- `_Cancel_timer`.
use executors.Base.{
  ℕ, ◌+◌, ◌%◌, ◌^◌, ◌≤◌, ◌<◌, ◌≡◌, refl, ◌≢◌, Option, none, some, List, [], ◌∷◌, ◌++◌, Bool, true,
  false, not, ◌==◌, arith, ap, sym, ◌∙◌, subst, Ensures, ◌⊎◌, Bool-cases, inl, inr, is_nil, update,
  All, length,
}
use executors.TimerQueue.{WaitOp, Entry, TimerQueue, remove_timer}
use executors.TimerQueue.Calls.{is_active, cancel_ops, cancel_timer}
use executors.TimerQueue.Heap.{IsOrdered, IsIndexed, Contains, SameHeap, SameHeap-IsIndexed}
use executors.TimerQueue.Removal.{Removed, IsScheduled, remove_timer_lem}

abbrev pub handlers : List WaitOp → List ℕ
handlers [] = []
handlers (op ∷ ops) = op.handler ∷ handlers ops

abbrev pub IsCanceled : WaitOp → Type 0
IsCanceled op = op.is_canceled ≡ true

-- What the loop takes of the operations, from a count `num` on.
pub record Taken (num max_num : ℕ) (ops : List WaitOp) (r : List WaitOp × List WaitOp × ℕ)
    : Type 0 where
  pub in_order : handlers r.0 ++ handlers r.1 ≡ handlers ops
  pub told : All IsCanceled r.0
  pub count : r.2 ≡ num + length r.0
  pub bounded : num ≤ max_num → r.2 ≤ max_num
  pub exhausted : (is_nil r.1 ≡ true) ⊎ (r.2 ≡ max_num)

pub cancel_ops-Taken :
    (num max_num : ℕ) (ops : List WaitOp)
    → num + length ops < 2 ^ 64
    → Taken num max_num ops (cancel_ops num max_num ops)
unfolding cancel_ops
cancel_ops-Taken num max_num [] small = record {
  in_order = refl;
  told = tt;
  count = omega arith;
  bounded = λ h. h;
  exhausted = inl refl;
}
cancel_ops-Taken num max_num (op ∷ ops) small =
    go (Bool-cases (num == max_num)) (cancel_ops-Taken (num + 1) max_num ops (omega arith))
  where
    next : (num + 1) % 2 ^ 64 ≡ num + 1
    next = omega arith

    go :
        ((num == max_num) ≡ true) ⊎ ((num == max_num) ≡ false)
        → Taken (num + 1) max_num ops (cancel_ops (num + 1) max_num ops)
        → Taken num max_num (op ∷ ops) (cancel_ops num max_num (op ∷ ops))
    go (inl full) h = rw full (record {
      in_order = refl;
      told = tt;
      count = omega arith;
      bounded = λ h. h;
      exhausted = inr (ground arith);
    })
    go (inr more) h =
        rw (more, next)
          (record {
            in_order = ap (λ hs. op.handler ∷ hs) h.in_order;
            told = (refl, h.told);
            count = omega (arith, h.count);
            bounded = λ le. h.bounded (ground arith);
            exhausted = h.exhausted;
          })

-- What `_Cancel_timer` of a timer that waits leaves and gives.
pub record Canceled (timer max_num : ℕ) (q : TimerQueue) (r : TimerQueue × List WaitOp × Bool)
    : Type 0 where
  pub ordered : IsOrdered r.0
  pub indexed : IsIndexed r.0
  pub in_order : handlers r.1 ++ handlers (r.0.data_of timer).ops ≡ handlers (q.data_of timer).ops
  pub told : All IsCanceled r.1
  pub at_most : length r.1 ≤ max_num
  pub result : r.2 ≡ not (is_nil r.1)
  pub all_or_max : (is_nil (r.0.data_of timer).ops ≡ true) ⊎ (length r.1 ≡ max_num)
  pub gone : is_nil (r.0.data_of timer).ops ≡ true → (e : Entry) → Contains r.0 e → e.timer ≢ timer

module _ (timer max_num : ℕ) (q : TimerQueue) (o : IsOrdered q) (x : IsIndexed q)
    (s : IsScheduled timer q) (small : length (q.data_of timer).ops < 2 ^ 64) where
  abbrev taken : List WaitOp × List WaitOp × ℕ
  taken = cancel_ops 0 max_num (q.data_of timer).ops

  abbrev left_with : TimerQueue
  left_with = record q {
    data_of = update q.data_of timer (record (q.data_of timer) { ops = taken.1 });
  }

  facts : Taken 0 max_num (q.data_of timer).ops taken
  facts = cancel_ops-Taken 0 max_num (q.data_of timer).ops (omega (arith, small))

  same : SameHeap q left_with
  same = record { same_size = refl; same_heap = λ i. refl; same_index = λ t. ground arith }

  nonzero : not (taken.2 == 0) ≡ not (is_nil taken.0)
  nonzero = go taken.0 facts.count
    where
      go : (ops : List WaitOp) → taken.2 ≡ 0 + length ops → not (taken.2 == 0) ≡ not (is_nil ops)
      go [] h = ground arith
      go (op ∷ ops) h = ground arith

  ops_left : ((left_with).data_of timer).ops ≡ taken.1
  ops_left = ground arith

  some_left :
      is_nil taken.1 ≡ false → Canceled timer max_num q (left_with, taken.0, not (taken.2 == 0))
  some_left more = record {
    ordered = o;
    indexed = SameHeap-IsIndexed q left_with same x;
    in_order = ap (λ ops. handlers taken.0 ++ handlers ops) ops_left ∙ facts.in_order;
    told = facts.told;
    at_most = omega (arith, facts.count, facts.bounded (omega arith));
    result = nonzero;
    all_or_max = elim facts.exhausted [
      | inl h ↦ absurd (ground (arith, h))
      | inr h ↦ inr (omega (arith, h, facts.count))
    ];
    gone = λ h. absurd (ground (arith, ap is_nil ops_left));
  }

  none_left :
      (r : TimerQueue)
      → is_nil taken.1 ≡ true
      → Removed timer left_with r
      → Canceled timer max_num q (r, taken.0, not (taken.2 == 0))
  none_left r all m = record {
    ordered = m.ordered;
    indexed = m.indexed;
    in_order =
        ap (λ ops. handlers taken.0 ++ handlers ops) (m.same_ops timer ∙ ops_left) ∙ facts.in_order;
    told = facts.told;
    at_most = omega (arith, facts.count, facts.bounded (omega arith));
    result = nonzero;
    all_or_max = inl (ap is_nil (m.same_ops timer ∙ ops_left) ∙ all);
    gone = λ h e c. (m.none_new e c).1;
  }

  left-IsScheduled : IsScheduled timer left_with
  left-IsScheduled = record {
    inside = ground (arith, s.inside);
    mine = ap (λ i. (q.heap i).timer) (same.same_index timer) ∙ s.mine;
  }

-- `_Cancel_timer` of an active timer with an entry, with fewer than 2 ^ 64 operations: it takes the
-- first of the timer's operations, in order, at most the given number and all if that allows it, tells
-- them that they were cancelled, and gives whether there were any. The heap stays in order, and the
-- timer's entry is gone if no operation is left.
pub cancel_timer_lem :
    (timer max_num : ℕ) (q : TimerQueue)
    → IsOrdered q
    → IsIndexed q
    → IsScheduled timer q
    → length (q.data_of timer).ops < 2 ^ 64
    → is_active timer q ≡ true
    → Ensures (Canceled timer max_num q) (cancel_timer timer max_num q)
unfolding cancel_timer
cancel_timer_lem timer max_num q o x s small act = elim (Bool-cases (is_nil taken_ops.1)) [
  | inl all ↦
      let e : cancel_timer timer max_num q ≡ rest (remove_timer timer left) = ground arith in
      subst (Ensures (Canceled timer max_num q)) (sym e) (
        go (remove_timer timer left) all (
          remove_timer_lem timer left o
            (SameHeap-IsIndexed q left (same timer max_num q o x s small) x)
            (left-IsScheduled timer max_num q o x s small)))
  | inr more ↦
      let e : cancel_timer timer max_num q ≡ some (left, taken_ops.0, not (taken_ops.2 == 0)) =
        ground arith in
      subst (Ensures (Canceled timer max_num q)) (sym e)
        (some_left timer max_num q o x s small more)
]
  where
    taken_ops : List WaitOp × List WaitOp × ℕ
    taken_ops = cancel_ops 0 max_num (q.data_of timer).ops

    left : TimerQueue
    left = record q {
      data_of = update q.data_of timer (record (q.data_of timer) { ops = taken_ops.1 });
    }

    rest : Option TimerQueue → Option (TimerQueue × List WaitOp × Bool)
    rest r = elim r [ none ↦ none | some a ↦ some (a, taken_ops.0, not (taken_ops.2 == 0)) ]

    go :
        (r : Option TimerQueue)
        → is_nil taken_ops.1 ≡ true
        → Ensures (Removed timer left) r
        → Ensures (Canceled timer max_num q) (rest r)
    go none all h = h
    go (some r) all h = none_left timer max_num q o x s small r all h
