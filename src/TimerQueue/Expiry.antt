-- ===== src/TimerQueue/Expiry.antt =====
-- `_Get_ready_timers`: the timers that are due.
use executors.Base.{
  ℕ, zero, suc, ◌≤◌, ◌<◌, ◌≡◌, refl, ◌≢◌, Option, none, some, List, [], ◌++◌, true, false, ◌==◌,
  arith, ap, sym, ◌∙◌, subst, Ensures, Bool-cases, inl, inr, All, if◌then◌else◌, ◌∷◌, Bool, ◌||◌,
}
use executors.TimerQueue.{WaitOp, Entry, TimerData, TimerQueue, parent, remove_timer}
use executors.TimerQueue.Calls.{drain, is_due, get_ready_timers}
use executors.TimerQueue.Heap.{
  expiry_at, IsOrdered, IsIndexed, Contains, SameHeap, SameHeap-IsOrdered, SameHeap-IsIndexed,
  SameHeap-Contains, Contains-SameHeap,
}
use executors.TimerQueue.Removal.{Removed, IsScheduled, remove_timer_lem}

root_least_below :
    (n i : ℕ) (q : TimerQueue) → IsOrdered q → i ≤ n → i < q.size → expiry_at q 0 ≤ expiry_at q i
root_least_below n zero q o le lt = omega arith
root_least_below zero (suc i) q o le lt = absurd (omega arith)
root_least_below (suc n) (suc i) q o le lt = omega (
  arith,
  o (suc i) (omega arith) lt,
  root_least_below n (parent (suc i)) q o (omega arith) (omega arith),
)

-- The first entry of a heap is the first to expire.
pub root_least : (i : ℕ) (q : TimerQueue) → IsOrdered q → i < q.size → expiry_at q 0 ≤ expiry_at q i
root_least i q o lt = root_least_below i i q o (omega arith) lt

-- The operations of the timers of some entries, in their order.
unfoldable pub ops_of : (ℕ → TimerData) → List Entry → List WaitOp
ops_of data_of [] = []
ops_of data_of (e ∷ es) = (data_of e.timer).ops ++ ops_of data_of es

-- Whether a timer has one of the entries.
unfoldable pub fires : ℕ → List Entry → Bool
fires timer [] = false
fires timer (e ∷ es) = (e.timer == timer) || fires timer es

-- In the order of their expiry, and no timer twice.
abbrev pub IsInOrder : List Entry → Type 0
IsInOrder [] = Unit
IsInOrder (e ∷ es) = All (λ f. (e.timer ≢ f.timer) × (e.expiry ≤ f.expiry)) es × IsInOrder es

-- From a queue to what is left of it and the operations given out: `fired` are the entries that are due, and
-- what is given out are the operations of their timers, which have none then.
pub record Expired (now : ℕ) (q : TimerQueue) (r : TimerQueue × List WaitOp) : Type 0 where
  pub ordered : IsOrdered r.0
  pub indexed : IsIndexed r.0
  pub kept : (e : Entry) → Contains q e → now < e.expiry → Contains r.0 e
  pub later : (e : Entry) → Contains r.0 e → Contains q e × (now < e.expiry)
  pub fired : List Entry
  pub are_due : All (λ e. Contains q e × (e.expiry ≤ now)) fired
  pub all_due : (e : Entry) → Contains q e → e.expiry ≤ now → fires e.timer fired ≡ true
  pub in_order : IsInOrder fired
  pub given : r.1 ≡ ops_of q.data_of fired
  pub emptied : (t : ℕ) → (r.0.data_of t).ops ≡ (if fires t fired then [] else (q.data_of t).ops)

none_due :
    (now : ℕ) (q : TimerQueue)
    → is_due now q ≡ false
    → IsOrdered q
    → IsIndexed q
    → Expired now q (q, [])
unfolding ops_of fires
none_due now q h o x = record {
  ordered = o;
  indexed = x;
  kept = λ e c l. c;
  later = λ e (k, lt, c). ((k, lt, c), ground (arith, root_least k q o lt));
  fired = [];
  are_due = tt;
  all_due = λ e (k, lt, c) l. absurd (ground (arith, root_least k q o lt));
  in_order = tt;
  given = refl;
  emptied = λ t. refl;
}

drain-SameHeap : (timer : ℕ) (q : TimerQueue) → SameHeap q (drain timer q)
drain-SameHeap timer q = record {
  same_size = refl;
  same_heap = λ i. refl;
  same_index = λ t. ground arith;
}

root-IsScheduled : (q : TimerQueue) → IsIndexed q → 0 < q.size → IsScheduled (q.heap 0).timer q
root-IsScheduled q x lt = record {
  inside = ground (arith, x 0 lt);
  mine = ap (λ i. (q.heap i).timer) (x 0 lt);
}

-- One round of the loop.
module _ (now : ℕ) (q r : TimerQueue) (o : IsOrdered q) (x : IsIndexed q)
    (due : is_due now q ≡ true) where
  abbrev first : ℕ
  first = (q.heap 0).timer

  not_first : (e : Entry) → Contains q e → now < e.expiry → e.timer ≢ first
  not_first e (k, lt, c) late same =
      let k0 : k ≡ 0 = ground (arith, x k lt, x 0) in
      ground (arith, ap (expiry_at q) k0, ap (λ a. a.expiry) c)

  drained : (e : Entry) → Contains q e → Contains (drain first q) e
  drained e c = SameHeap-Contains q (drain first q) (drain-SameHeap first q) e c

  back : (e : Entry) → Contains (drain first q) e → Contains q e
  back e c = Contains-SameHeap q (drain first q) (drain-SameHeap first q) e c

  -- What is in the heap after the round was there before, and is of another timer, which expires no sooner.
  after_first :
      (e : Entry)
      → Removed first (drain first q) r
      → Contains r e
      → Contains q e × (first ≢ e.timer) × ((q.heap 0).expiry ≤ e.expiry)
  after_first e m c =
      let (d, apart) = m.none_new e c in
      let (k, lt, h) = back e d in
      ((k, lt, h), ground (arith, apart), ground (arith, root_least k q o lt, ap (λ a. a.expiry) h))

  afters :
      (es : List Entry)
      → Removed first (drain first q) r
      → All (λ e. Contains r e × (e.expiry ≤ now)) es
      → All (λ e. Contains q e × (e.expiry ≤ now)) es
        × All (λ e. (first ≢ e.timer) × ((q.heap 0).expiry ≤ e.expiry)) es
        × (ops_of r.data_of es ≡ ops_of q.data_of es)
  unfolding ops_of
  afters [] m a = (tt, tt, refl)
  afters (e ∷ es) m ((c, l), a) =
      let (there, apart, least) = after_first e m c in
      let (theres, aparts, same) = afters es m a in
      (
        ((there, l), theres),
        ((apart, least), aparts),
        ground (arith, same, apart, m.same_ops e.timer),
      )

  Expired-round :
      (s : TimerQueue × List WaitOp)
      → Removed first (drain first q) r
      → Expired now r s
      → Expired now q (s.0, (q.data_of first).ops ++ s.1)
  unfolding ops_of fires
  Expired-round s m f =
      let (theres, aparts, same) = afters f.fired m f.are_due in
      record {
        ordered = f.ordered;
        indexed = f.indexed;
        kept = λ e c late. f.kept e (m.kept e (drained e c) (not_first e c late)) late;
        later = λ e c. let (d, late) = f.later e c in (back e (m.none_new e d).0, late);
        fired = q.heap 0 ∷ f.fired;
        are_due = (((0, ground arith, refl), ground arith), theres);
        all_due = λ e c l. elim (Bool-cases (first == e.timer)) [
          | inl t ↦ ground arith
          | inr other ↦
              ground (arith, f.all_due e (m.kept e (drained e c) (ground (arith, other))) l)
        ];
        in_order = (aparts, f.in_order);
        given = ap (λ ops. (q.data_of first).ops ++ ops) (f.given ∙ same);
        emptied = λ t. ground (arith, f.emptied t, m.same_ops t);
      }

  -- The rest of the loop, after `_Remove_timer`.
  Expired-rest :
      (fuel : ℕ)
      → Removed first (drain first q) r
      → Ensures (Expired now r) (get_ready_timers fuel now r)
      → Ensures (Expired now q) (elim (get_ready_timers fuel now r) [
        | none ↦ none
        | some (s, ops) ↦ some (s, (q.data_of first).ops ++ ops)
      ])
  Expired-rest fuel m = go (get_ready_timers fuel now r)
    where
      go :
          (o : Option (TimerQueue × List WaitOp))
          → Ensures (Expired now r) o
          → Ensures
              (Expired now q)
              (elim o [ none ↦ none | some (s, ops) ↦ some (s, (q.data_of first).ops ++ ops) ])
      go none h = h
      go (some s) h = Expired-round s m h

-- `_Get_ready_timers` terminates, with more fuel than there are entries; exactly the
-- timers that are due have left the heap, in the order of their expiry and none twice; what is given out are
-- their operations, in that order, and no others, and each is gone from the timer that it waited for.
pub get_ready_timers_lem :
    (fuel now : ℕ) (q : TimerQueue)
    → q.size < fuel
    → IsOrdered q
    → IsIndexed q
    → Ensures (Expired now q) (get_ready_timers fuel now q)
unfolding get_ready_timers
get_ready_timers_lem zero now q f o x = absurd (omega arith)
get_ready_timers_lem (suc fuel) now q f o x = elim (Bool-cases (is_due now q)) [
  | inl due ↦
      let first = (q.heap 0).timer in
      let e : get_ready_timers (suc fuel) now q ≡ rest (remove_timer first (drain first q)) =
        ground arith in
      let h = drain-SameHeap first q in
      subst (Ensures (Expired now q)) (sym e) (
        all (λ r. get_ready_timers_lem fuel now r) (remove_timer first (drain first q)) due
          (remove_timer_lem first (drain first q) (SameHeap-IsOrdered q (drain first q) h o)
            (SameHeap-IsIndexed q (drain first q) h x)
            (root-IsScheduled (drain first q) (SameHeap-IsIndexed q (drain first q) h x)
              (ground arith))))
  | inr late ↦
      let e : get_ready_timers (suc fuel) now q ≡ some (q, []) = ground arith in
      subst (Ensures (Expired now q)) (sym e) (none_due now q late o x)
]
  where
    rest : Option TimerQueue → Option (TimerQueue × List WaitOp)
    rest o = elim o [
      | none ↦ none
      | some r ↦ elim (get_ready_timers fuel now r) [
        | none ↦ none
        | some (s, ops) ↦ some (s, (q.data_of (q.heap 0).timer).ops ++ ops)
      ]
    ]

    all :
        ((r : TimerQueue)
          → r.size < fuel
          → IsOrdered r
          → IsIndexed r
          → Ensures (Expired now r) (get_ready_timers fuel now r))
        → (o : Option TimerQueue) → is_due now q ≡ true
        → Ensures (Removed (q.heap 0).timer (drain (q.heap 0).timer q)) o
        → Ensures (Expired now q) (rest o)
    all ih none due m = m
    all ih (some r) due m =
        Expired-rest now q r o x due fuel m (ih r (omega (arith, m.one_less)) m.ordered m.indexed)
