-- ===== src/TimerQueue/Enqueue.antt =====
-- `_Enqueue_timer` of a timer that does not wait, and its result.
use executors.Base.{
  ℕ, suc, ◌+◌, ◌≤◌, ◌<◌, ◌≡◌, ◌≢◌, [], ◌∷◌, ◌++◌, Bool, true, false, ◌==◌, arith, sym, ◌∙◌, subst,
  Ensures, Ensures-map, ◌⊎◌, Bool-cases, inl, inr, is_nil, update,
}
use executors.TimerQueue.{WaitOp, Entry, TimerQueue, set_index, up_heap}
use executors.TimerQueue.Calls.{add_entry, link, add_op}
use executors.TimerQueue.Heap.{IsOrdered, IsIndexed, RisesAt, Contains, Sifted}
use executors.TimerQueue.Sift.{up_heap_lem}

abbrev entry_of : ℕ → ℕ → Entry
entry_of t timer = record { expiry = t; timer = timer }

-- No entry is of the timer.
abbrev pub IsAbsent : ℕ → TimerQueue → Type 0
IsAbsent timer q = (i : ℕ) → i < q.size → (q.heap i).timer ≢ timer

-- What is in a heap with one entry more.
pub record Added (a : Entry) (q r : TimerQueue) : Type 0 where
  pub one_more : r.size ≡ q.size + 1
  pub ordered : IsOrdered r
  pub indexed : IsIndexed r
  pub kept : (e : Entry) → Contains q e → Contains r e
  pub has : Contains r a
  pub none_new : (e : Entry) → Contains r e → Contains q e ⊎ (e ≡ a)
  pub same_ops : (t : ℕ) → (r.data_of t).ops ≡ (q.data_of t).ops

module _ (t timer : ℕ) (q : TimerQueue) (o : IsOrdered q) (x : IsIndexed q)
    (absent : IsAbsent timer q) where
  -- The vector after `push_back`.
  pushed : TimerQueue
  pushed = record q {
    size = q.size + 1;
    heap = update q.heap q.size (entry_of t timer);
    data_of = set_index timer q.size q.data_of;
  }

  pushed-RisesAt : RisesAt q.size pushed
  unfolding pushed
  pushed-RisesAt = record {
    others = λ i a b c. ground (arith, o i a);
    over = λ i a b c d. absurd (omega arith);
  }

  pushed-IsIndexed : IsIndexed pushed
  unfolding pushed
  pushed-IsIndexed i lt = ground (arith, x i, absent i)

  Added-sift : (r : TimerQueue) → Sifted pushed r → Added (entry_of t timer) q r
  unfolding pushed
  Added-sift r f = record {
    one_more = f.same_size;
    ordered = f.ordered;
    indexed = f.indexed;
    kept = λ e (k, lt, h). f.kept e (k, omega arith, ground arith);
    has = f.kept (entry_of t timer) (q.size, omega arith, ground arith);
    none_new = λ e c. old e (f.none_new e c);
    same_ops = λ s. f.same_ops s ∙ ground arith;
  }
    where
      old : (e : Entry) → Contains pushed e → Contains q e ⊎ (e ≡ entry_of t timer)
      old e (k, lt, h) = elim (Bool-cases (k == q.size)) [
        | inl new ↦ inr (ground arith)
        | inr other ↦ inl (k, ground arith, ground arith)
      ]

  pub add_entry_lem :
      (max_time : ℕ)
      → t ≢ max_time
      → Ensures (Added (entry_of t timer) q) (add_entry max_time t timer q)
  unfolding add_entry pushed
  add_entry_lem max_time d =
      let e : add_entry max_time t timer q ≡ up_heap (suc q.size) q.size pushed = ground arith in
      subst (Ensures (Added (entry_of t timer) q)) (sym e) (
        Ensures-map _ _ (up_heap (suc q.size) q.size pushed) Added-sift (
          up_heap_lem (suc q.size) q.size pushed (omega arith) (omega arith) pushed-RisesAt
            pushed-IsIndexed))

-- What `_Enqueue_timer` leaves and gives.
pub record Enqueued (t timer : ℕ) (op : WaitOp) (q : TimerQueue) (r : TimerQueue × Bool)
    : Type 0 where
  pub ordered : IsOrdered r.0
  pub indexed : IsIndexed r.0
  pub kept : (e : Entry) → Contains q e → Contains r.0 e
  pub has : Contains r.0 (entry_of t timer)
  pub none_new : (e : Entry) → Contains r.0 e → Contains q e ⊎ (e ≡ entry_of t timer)
  pub appended : (r.0.data_of timer).ops ≡ (q.data_of timer).ops ++ op ∷ []
  pub others : (s : ℕ) → s ≢ timer → (r.0.data_of s).ops ≡ (q.data_of s).ops
  pub first : r.1 ≡ true → (e : Entry) → Contains r.0 e → t ≤ e.expiry
  pub not_first :
      r.1 ≡ false
      → is_nil (q.data_of timer).ops ≡ true
      → (e : Entry) × Contains q e × (e.expiry ≤ t)

abbrev finished : WaitOp → ℕ → TimerQueue → TimerQueue × Bool
finished op timer r = add_op op timer (link timer r)

module _ (t timer : ℕ) (op : WaitOp) (q r : TimerQueue) (a : Added (entry_of t timer) q r) where
  abbrev all_done : TimerQueue × Bool
  all_done = finished op timer r
