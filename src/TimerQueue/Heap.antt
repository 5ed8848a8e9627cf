-- ===== src/TimerQueue/Heap.antt =====
-- The order of the heap of a timer queue, and the index that every timer keeps.
use executors.Base.{ℕ, ◌≤◌, ◌<◌, ◌≡◌, ◌≢◌, ◌==◌, arith, ◌∙◌, sym, if◌then◌else◌}
use executors.TimerQueue.{Entry, TimerQueue, parent, swap_heap}

abbrev pub expiry_at : TimerQueue → ℕ → ℕ
expiry_at q i = (q.heap i).expiry

abbrev pub IsOrdered : TimerQueue → Type 0
IsOrdered q = (i : ℕ) → 0 < i → i < q.size → expiry_at q (parent i) ≤ expiry_at q i

abbrev pub IsIndexed : TimerQueue → Type 0
IsIndexed q = (i : ℕ) → i < q.size → (q.data_of (q.heap i).timer).heap_index ≡ i

-- A heap but for the entry at `k`, which may be too small.
pub record RisesAt (k : ℕ) (q : TimerQueue) : Type 0 where
  pub others : (i : ℕ) → 0 < i → i < q.size → i ≢ k → expiry_at q (parent i) ≤ expiry_at q i
  pub over :
      (i : ℕ) → 0 < i → i < q.size → parent i ≡ k → 0 < k → expiry_at q (parent k) ≤ expiry_at q i

-- A heap but for the entry at `k`, which may be too large.
pub record SinksAt (k : ℕ) (q : TimerQueue) : Type 0 where
  pub others : (i : ℕ) → 0 < i → i < q.size → parent i ≢ k → expiry_at q (parent i) ≤ expiry_at q i
  pub over :
      (i : ℕ) → 0 < i → i < q.size → parent i ≡ k → 0 < k → expiry_at q (parent k) ≤ expiry_at q i

-- A heap but for the entry at `k`.
pub record HasHole (k : ℕ) (q : TimerQueue) : Type 0 where
  pub others :
      (i : ℕ) → 0 < i → i < q.size → i ≢ k → parent i ≢ k → expiry_at q (parent i) ≤ expiry_at q i
  pub over :
      (i : ℕ) → 0 < i → i < q.size → parent i ≡ k → 0 < k → expiry_at q (parent k) ≤ expiry_at q i

pub parent-< : (k : ℕ) → 0 < k → parent k < k
parent-< k h = omega arith

pub swap_rises :
    (k : ℕ) (q : TimerQueue)
    → 0 < k
    → k < q.size
    → expiry_at q k < expiry_at q (parent k)
    → RisesAt k q
    → RisesAt (parent k) (swap_heap k (parent k) q)
unfolding swap_heap
swap_rises k q pos_k lt less r = record {
  others = λ i a b c.
      ground
        (arith, r.others i a b, r.over i a b, r.others (parent k), parent-< k pos_k, parent-< i a);
  over = λ i a b e g.
      ground
        (arith, r.others i a b, r.others (parent k), r.over i a b, parent-< k pos_k, parent-< i a);
}

pub swap_sinks :
    (k c : ℕ) (q : TimerQueue)
    → 0 < c
    → c < q.size
    → parent c ≡ k
    → ((i : ℕ) → 0 < i → i < q.size → parent i ≡ k → expiry_at q c ≤ expiry_at q i)
    → expiry_at q c ≤ expiry_at q k
    → SinksAt k q
    → SinksAt c (swap_heap k c q)
unfolding swap_heap
swap_sinks k c q pos_c lt e least less r = record {
  others = λ i a b d. ground (
    arith,
    r.others i a b,
    r.over i a b,
    least i a b,
    r.over c pos_c lt,
    r.others k,
    parent-< c pos_c,
    parent-< i a,
  );
  over = λ i a b d g.
      ground (arith, r.others i a b, r.over c pos_c lt, parent-< c pos_c, parent-< i a);
}

pub swap-IsIndexed :
    (i j : ℕ) (q : TimerQueue) → i < q.size → j < q.size → IsIndexed q → IsIndexed (swap_heap i j q)
unfolding swap_heap
swap-IsIndexed i j q a b x k lt = ground (arith, x i a, x j b, x k lt)

-- The entry is in the heap.
abbrev pub Contains : TimerQueue → Entry → Type 0
Contains q e = (i : ℕ) × (i < q.size) × (q.heap i ≡ e)

pub swap-Contains :
    (i j : ℕ) (q : TimerQueue) (e : Entry)
    → i < q.size
    → j < q.size
    → Contains q e
    → Contains (swap_heap i j q) e
unfolding swap_heap
swap-Contains i j q e a b (k, lt, h) =
    (if k == i then j else if k == j then i else k, ground arith, ground arith)

pub Contains-swap :
    (i j : ℕ) (q : TimerQueue) (e : Entry)
    → i < q.size
    → j < q.size
    → Contains (swap_heap i j q) e
    → Contains q e
unfolding swap_heap
Contains-swap i j q e a b (k, lt, h) =
    (if k == j then i else if k == i then j else k, ground arith, ground arith)

-- The list of active timers is the same, whatever else differs.
pub record SameList (q r : TimerQueue) : Type 0 where
  pub same_first : r.timers ≡ q.timers
  pub same_links :
      (t : ℕ)
      → ((r.data_of t).prev ≡ (q.data_of t).prev) × ((r.data_of t).next ≡ (q.data_of t).next)

pub SameList-swap : (i j : ℕ) (q r : TimerQueue) → SameList (swap_heap i j q) r → SameList q r
unfolding swap_heap
SameList-swap i j q r s = record {
  same_first = s.same_first;
  same_links = λ t. let l = s.same_links t in (l.0 ∙ ground arith, l.1 ∙ ground arith);
}

-- What a sift makes of a heap: the same entries, in order, and known to their timers.
pub record Sifted (q r : TimerQueue) : Type 0 where
  pub same_size : r.size ≡ q.size
  pub ordered : IsOrdered r
  pub indexed : IsIndexed r
  pub kept : (e : Entry) → Contains q e → Contains r e
  pub none_new : (e : Entry) → Contains r e → Contains q e
  pub same_ops : (t : ℕ) → (r.data_of t).ops ≡ (q.data_of t).ops
  pub same_list : SameList q r

pub ops-swap_heap :
    (i j : ℕ) (q : TimerQueue) (t : ℕ) → ((swap_heap i j q).data_of t).ops ≡ (q.data_of t).ops
unfolding swap_heap
ops-swap_heap i j q t = ground arith

pub Sifted-swap :
    (i j : ℕ) (q r : TimerQueue) → i < q.size → j < q.size → Sifted (swap_heap i j q) r → Sifted q r
unfolding swap_heap
Sifted-swap i j q r a b s = record {
  same_size = s.same_size;
  ordered = s.ordered;
  indexed = s.indexed;
  kept = λ e h. s.kept e (swap-Contains i j q e a b h);
  none_new = λ e h. Contains-swap i j q e a b (s.none_new e h);
  same_ops = λ t. s.same_ops t ∙ ops-swap_heap i j q t;
  same_list = SameList-swap i j q r s.same_list;
}

-- The heaps are the same, whatever else differs.
pub record SameHeap (q r : TimerQueue) : Type 0 where
  pub same_size : r.size ≡ q.size
  pub same_heap : (i : ℕ) → r.heap i ≡ q.heap i
  pub same_index : (t : ℕ) → (r.data_of t).heap_index ≡ (q.data_of t).heap_index

module _ (q r : TimerQueue) (h : SameHeap q r) where
  pub SameHeap-IsOrdered : IsOrdered q → IsOrdered r
  SameHeap-IsOrdered o i a b =
      ground (arith, o i a, h.same_size, h.same_heap i, h.same_heap (parent i))

  pub SameHeap-IsIndexed : IsIndexed q → IsIndexed r
  SameHeap-IsIndexed x i a =
      ground (arith, x i, h.same_size, h.same_heap i, h.same_index (q.heap i).timer)

  pub SameHeap-Contains : (e : Entry) → Contains q e → Contains r e
  SameHeap-Contains e (k, lt, c) = (k, omega (arith, h.same_size), h.same_heap k ∙ c)

  pub Contains-SameHeap : (e : Entry) → Contains r e → Contains q e
  Contains-SameHeap e (k, lt, c) = (k, omega (arith, h.same_size), sym (h.same_heap k) ∙ c)
