-- ===== src/TimerQueue/Removal.antt =====
-- `_Remove_timer`: the entry of the timer in the heap.
use executors.Base.{
  ℕ, ◌+◌, ◌-◌, ◌<◌, ◌≡◌, refl, ◌≢◌, Option, none, some, ◌==◌, arith, ap, sym, ◌∙◌, subst, Ensures,
  Ensures-map, Bool-cases, if◌then◌else◌, inl, inr,
}
use executors.TimerQueue.{
  Entry, TimerQueue, swap_heap, pop_back, sift, remove_entry, unlink, remove_timer,
}
use executors.TimerQueue.Heap.{
  expiry_at, IsOrdered, IsIndexed, HasHole, swap-IsIndexed, Contains, Sifted, ops-swap_heap,
  SameHeap, SameHeap-IsOrdered, SameHeap-IsIndexed, SameHeap-Contains, Contains-SameHeap, SameList,
  SameList-swap,
}
use executors.TimerQueue.Sift.{sift_lem}

-- What is left of a heap once the entry of a timer is gone.
pub record Removed (timer : ℕ) (q r : TimerQueue) : Type 0 where
  pub one_less : r.size + 1 ≡ q.size
  pub ordered : IsOrdered r
  pub indexed : IsIndexed r
  pub kept : (e : Entry) → Contains q e → e.timer ≢ timer → Contains r e
  pub none_new : (e : Entry) → Contains r e → Contains q e × (e.timer ≢ timer)
  pub same_ops : (t : ℕ) → (r.data_of t).ops ≡ (q.data_of t).ops

-- The timer has an entry, where it says.
pub record IsScheduled (timer : ℕ) (q : TimerQueue) : Type 0 where
  pub inside : (q.data_of timer).heap_index < q.size
  pub mine : (q.heap (q.data_of timer).heap_index).timer ≡ timer

module _ (timer : ℕ) (q : TimerQueue) (o : IsOrdered q) (x : IsIndexed q)
    (s : IsScheduled timer q) where
  index : ℕ
  index = (q.data_of timer).heap_index

  pop_last : index ≡ q.size - 1 → Removed timer q (pop_back q)
  unfolding index
  pop_last last = record {
    one_less = omega (arith, s.inside);
    ordered = λ i a b. o i a (omega arith);
    indexed = λ i a. x i (omega arith);
    kept = λ e (k, lt, h) d. (k, ground (arith, s.mine, ap (λ j. (q.heap j).timer)), h);
    none_new = λ e (k, lt, h). ((k, omega arith, h), ground (arith, x k));
    same_ops = λ t. refl;
  }

  swapped : TimerQueue
  swapped = pop_back (swap_heap index (q.size - 1) q)

  swapped-HasHole : index < q.size - 1 → HasHole index swapped
  unfolding index swapped swap_heap
  swapped-HasHole lt = record {
    others = λ i a b c d. ground (arith, o i a);
    over = λ i a b c d. ground (arith, o i a, o index d, ap (expiry_at q) c);
  }

  swapped-IsIndexed : IsIndexed swapped
  unfolding index swapped swap_heap
  swapped-IsIndexed k lt =
      swap-IsIndexed index (q.size - 1) q s.inside (omega (arith, s.inside)) x k (omega arith)

  swapped-kept : (e : Entry) → Contains q e → e.timer ≢ timer → Contains swapped e
  unfolding index swapped swap_heap
  swapped-kept e (k, lt, h) d = (
    if k == q.size - 1 then index else k,
    ground (arith, s.mine, s.inside, ap (λ j. (q.heap j).timer)),
    ground (arith, s.mine, ap (λ j. (q.heap j).timer)),
  )

  swapped-none_new : (e : Entry) → Contains swapped e → Contains q e × (e.timer ≢ timer)
  unfolding index swapped swap_heap
  swapped-none_new e (k, lt, h) = (
    (if k == index then q.size - 1 else k, ground (arith, s.inside), ground arith),
    ground (arith, x k, x (q.size - 1), s.inside),
  )

  Removed-sift : (r : TimerQueue) → Sifted swapped r → Removed timer q r
  unfolding swapped swap_heap
  Removed-sift r f = record {
    one_less = omega (arith, f.same_size, s.inside);
    ordered = f.ordered;
    indexed = f.indexed;
    kept = λ e c d. f.kept e (swapped-kept e c d);
    none_new = λ e c. swapped-none_new e (f.none_new e c);
    same_ops = λ t. f.same_ops t ∙ ops-swap_heap index (q.size - 1) q t;
  }

  swapped-SameList : (r : TimerQueue) → SameList swapped r → SameList q r
  unfolding swapped
  swapped-SameList r l =
      SameList-swap index (q.size - 1) q r
        (record { same_first = l.same_first; same_links = l.same_links })

  -- The entry is gone, and the list of active timers is as it was.
  pub remove_entry_lem : Ensures (λ r. Removed timer q r × SameList q r) (remove_entry timer q)
  unfolding remove_entry index swapped
  remove_entry_lem = elim (Bool-cases (index == q.size - 1)) [
    | inl last ↦
        let e : remove_entry timer q ≡ some (pop_back q) = ground (arith, s.inside) in
        subst (Ensures (λ r. Removed timer q r × SameList q r)) (sym e)
          (pop_last (ground arith), record { same_first = refl; same_links = λ t. (refl, refl) })
    | inr other ↦
        let lt : index < q.size - 1 = ground (arith, s.inside) in
        let e : remove_entry timer q ≡ sift index swapped = ground (arith, s.inside) in
        subst (Ensures (λ r. Removed timer q r × SameList q r)) (sym e) (
          Ensures-map _ _ (sift index swapped)
            (λ r f. (Removed-sift r f, swapped-SameList r f.same_list))
            (sift_lem index swapped lt (swapped-HasHole lt) swapped-IsIndexed))
  ]

unlink-SameHeap : (timer : ℕ) (q : TimerQueue) → SameHeap q (unlink timer q)
unfolding unlink
unlink-SameHeap timer q = record {
  same_size = refl;
  same_heap = λ i. refl;
  same_index = λ t. ground arith;
}

ops-unlink :
    (timer : ℕ) (q : TimerQueue) (t : ℕ) → ((unlink timer q).data_of t).ops ≡ (q.data_of t).ops
unfolding unlink
ops-unlink timer q t = ground arith

Removed-unlink :
    (timer : ℕ) (q r : TimerQueue) → Removed timer q r → Removed timer q (unlink timer r)
Removed-unlink timer q r f =
    let h = unlink-SameHeap timer r in
    record {
      one_less = omega (arith, f.one_less, h.same_size);
      ordered = SameHeap-IsOrdered r (unlink timer r) h f.ordered;
      indexed = SameHeap-IsIndexed r (unlink timer r) h f.indexed;
      kept = λ e c d. SameHeap-Contains r (unlink timer r) h e (f.kept e c d);
      none_new = λ e c. f.none_new e (Contains-SameHeap r (unlink timer r) h e c);
      same_ops = λ t. ops-unlink timer r t ∙ f.same_ops t;
    }

-- `_Remove_timer` of a timer with an entry takes that entry out of the heap and no other, and leaves a
-- heap in which every timer knows its index.
pub remove_timer_lem :
    (timer : ℕ) (q : TimerQueue)
    → IsOrdered q
    → IsIndexed q
    → IsScheduled timer q
    → Ensures (Removed timer q) (remove_timer timer q)
unfolding remove_timer
remove_timer_lem timer q o x s = go (remove_entry timer q) (remove_entry_lem timer q o x s)
  where
    go :
        (r : Option TimerQueue)
        → Ensures (λ a. Removed timer q a × SameList q a) r
        → Ensures (Removed timer q) (elim r [ none ↦ none | some a ↦ some (unlink timer a) ])
    go none h = h
    go (some a) h = Removed-unlink timer q a h.0
