-- ===== src/TimerQueue/Links.antt =====
-- The list of active timers when a timer comes to wait, and when it is removed.
use executors.Base.{
  Option, none, some, false, Ensures, Ensures-both, ℕ, ◌≡◌, refl, ◌≢◌, sym, subst, List, [], ◌∷◌,
  ◌++◌, arith, NotIn,
}
use executors.TimerQueue.{TimerData, TimerQueue, unlink, remove_entry, remove_timer}
use executors.TimerQueue.Calls.{is_active, link}
use executors.TimerQueue.Heap.{IsOrdered, IsIndexed, SameList}
use executors.TimerQueue.Removal.{Removed, IsScheduled, remove_entry_lem, remove_timer_lem}
use executors.TimerQueue.Active.{nodes, Chain, IsActiveList}
use executors.Base.Chain.{others-Linked, same-Linked, Distinct, NotIn-nil}
use executors.TimerQueue.Unlink.{unlink-IsActiveList}

-- `_Enqueue_timer` puts a timer that is not null and not in the list of active timers in front of it,
-- and the others stay, in order.
pub link-IsActiveList :
    (t : ℕ) (ts : List ℕ) (q : TimerQueue)
    → t ≢ 0
    → NotIn t ts
    → IsActiveList ts q
    → IsActiveList (t ∷ ts) (link t q)
unfolding link
link-IsActiveList t [] q nonzero n a = record {
  linked = ground (arith, a.linked);
  distinct = (tt, tt);
}
link-IsActiveList t (s ∷ ts) q nonzero n a = record {
  linked = (
    refl,
    nonzero,
    ground (arith, n.0, a.linked.0),
    (
      ground (arith, a.linked.0, n.0),
      a.linked.1,
      ground (arith, a.linked.0, a.linked.1),
      subst (λ f. Chain (link t q).data_of s f ts) (sym next_same)
          (others-Linked (nodes q.data_of) (nodes (link t q).data_of) t s s s (q.data_of s).next ts
            (λ x d e f. ground (arith, a.linked.0)) n.1 a.distinct.0 a.distinct.0 a.linked.3),
    ),
  );
  distinct = (n, a.distinct);
}
  where
    next_same : ((link t q).data_of s).next ≡ (q.data_of s).next
    next_same = ground (arith, n.0, a.linked.0)

SameList-IsActiveList :
    (ts : List ℕ) (q r : TimerQueue) → SameList q r → IsActiveList ts q → IsActiveList ts r
SameList-IsActiveList ts q r l a = record {
  linked =
      subst (λ f. Chain r.data_of 0 f ts) (sym l.same_first)
        (same-Linked (nodes q.data_of) (nodes r.data_of) 0 q.timers ts l.same_links a.linked);
  distinct = a.distinct;
}

-- The timer is in no list, by its own pointers and by `timers_`.
pub record IsReset (timer : ℕ) (q : TimerQueue) : Type 0 where
  pub no_next : (q.data_of timer).next ≡ 0
  pub no_prev : (q.data_of timer).prev ≡ 0
  pub inactive : is_active timer q ≡ false

NotIn-middle : (a : ℕ) (xs : List ℕ) (t : ℕ) (ys : List ℕ) → NotIn a (xs ++ t ∷ ys) → a ≢ t
NotIn-middle a [] t ys n = n.0
NotIn-middle a (x ∷ xs) t ys n = NotIn-middle a xs t ys n.1

not_first :
    (xs : List ℕ) (t first : ℕ) (ys : List ℕ)
    → Distinct (xs ++ t ∷ ys)
    → t ≢ 0
    → (d : ℕ → TimerData) → Chain d 0 first (xs ++ ys)
    → t ≢ first
not_first [] t first [] d nonzero e c = ground (arith, c)
not_first [] t first (y ∷ ys) d nonzero e c = ground (arith, c.0, d.0.0)
not_first (x ∷ xs) t first ys d nonzero e c = ground (arith, c.0, NotIn-middle x xs t ys d.0)

-- `_M_next` and `_M_prev` are cleared at the end.
cleared :
    (timer : ℕ) (q : TimerQueue)
    → (((unlink timer q).data_of timer).next ≡ 0) × (((unlink timer q).data_of timer).prev ≡ 0)
unfolding unlink
cleared timer q = (ground arith, ground arith)

unlink-IsReset :
    (timer : ℕ) (xs ys : List ℕ) (q : TimerQueue)
    → IsActiveList (xs ++ timer ∷ ys) q
    → IsActiveList (xs ++ ys) (unlink timer q)
    → IsReset timer (unlink timer q)
unlink-IsReset timer xs ys q a b =
    let r = unlink timer q in
    let (next, prev) = cleared timer q in
    let nonzero =
      NotIn-middle 0 xs timer ys
        (NotIn-nil (nodes q.data_of) 0 q.timers (xs ++ timer ∷ ys) a.linked) in
    let apart : timer ≢ r.timers =
      not_first xs timer r.timers ys a.distinct (ground (arith, nonzero)) r.data_of b.linked in
    record { no_next = next; no_prev = prev; inactive = ground (arith, prev, apart) }

-- `_Remove_timer` of an active timer with an entry takes it out of the doubly linked list of active
-- timers, in which the others stay, in order.
pub remove_timer-IsActiveList :
    (timer : ℕ) (xs ys : List ℕ) (q : TimerQueue)
    → IsOrdered q
    → IsIndexed q
    → IsScheduled timer q
    → IsActiveList (xs ++ timer ∷ ys) q
    → Ensures (λ r. IsActiveList (xs ++ ys) r × IsReset timer r) (remove_timer timer q)
unfolding remove_timer
remove_timer-IsActiveList timer xs ys q o x s a =
    go (remove_entry timer q) (remove_entry_lem timer q o x s)
  where
    go :
        (r : Option TimerQueue)
        → Ensures (λ b. Removed timer q b × SameList q b) r
        → Ensures
            (λ b. IsActiveList (xs ++ ys) b × IsReset timer b)
            (elim r [ none ↦ none | some b ↦ some (unlink timer b) ])
    go none h = h
    go (some b) h =
        let before = SameList-IsActiveList (xs ++ timer ∷ ys) q b h.1 a in
        let after = unlink-IsActiveList timer xs ys b before in
        (after, unlink-IsReset timer xs ys b before after)

-- `_Remove_timer` of an active timer with an entry takes that entry out of the heap and no other, leaves a
-- heap in which every timer knows its index, and takes the timer out of the doubly linked list of active
-- timers, in which the others stay, in order; its own pointers are null then, and it counts as inactive.
pub remove_timer-IsRemoved :
    (timer : ℕ) (xs ys : List ℕ) (q : TimerQueue)
    → IsOrdered q
    → IsIndexed q
    → IsScheduled timer q
    → IsActiveList (xs ++ timer ∷ ys) q
    → Ensures
        (λ r. Removed timer q r × (IsActiveList (xs ++ ys) r × IsReset timer r))
        (remove_timer timer q)
remove_timer-IsRemoved timer xs ys q o x s a =
    Ensures-both (Removed timer q) (λ r. IsActiveList (xs ++ ys) r × IsReset timer r)
      (remove_timer timer q) (remove_timer_lem timer q o x s)
      (remove_timer-IsActiveList timer xs ys q o x s a)
