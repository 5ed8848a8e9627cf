-- ===== src/TimerQueue/Sift.antt =====
-- `_Up_heap` and `_Down_heap`, from a heap with one entry out of order.
use executors.Base.{
  ℕ, zero, suc, ◌+◌, ◌≤◌, ◌<◌, ◌≡◌, refl, some, true, false, ◌==◌, arith, ap, sym, subst,
  Ensures-map, ◌⊎◌, Bool-cases, inl, inr, Ensures,
}
use executors.TimerQueue.{
  TimerQueue, parent, child, min_child, swap_heap, rises, up_heap, sinks, down_heap, sift,
}
use executors.TimerQueue.Heap.{
  expiry_at, IsIndexed, RisesAt, SinksAt, HasHole, parent-<, swap_rises, swap_sinks, swap-IsIndexed,
  Sifted, Sifted-swap,
}

done_rising :
    (k : ℕ) (q : TimerQueue)
    → k < q.size
    → rises k q ≡ false
    → RisesAt k q
    → IsIndexed q
    → Sifted q q
done_rising k q lt e r x = record {
  same_size = refl;
  ordered = λ i a b. ground (arith, r.others i a b);
  indexed = x;
  kept = λ e h. h;
  none_new = λ e h. h;
  same_ops = λ t. refl;
  same_list = record { same_first = refl; same_links = λ t. (refl, refl) };
}

up_heap_of_more :
    (fuel k : ℕ) (q : TimerQueue)
    → rises k q ≡ true
    → up_heap (suc fuel) k q ≡ up_heap fuel (parent k) (swap_heap k (parent k) q)
unfolding up_heap
up_heap_of_more fuel k q up = ground arith

up_heap_of_stop :
    (fuel k : ℕ) (q : TimerQueue) → rises k q ≡ false → up_heap (suc fuel) k q ≡ some q
unfolding up_heap
up_heap_of_stop fuel k q stay = ground arith

size-swap_heap : (i j : ℕ) (q : TimerQueue) → (swap_heap i j q).size ≡ q.size
unfolding swap_heap
size-swap_heap i j q = refl

pub up_heap_lem :
    (fuel k : ℕ) (q : TimerQueue)
    → k < fuel
    → k < q.size
    → RisesAt k q
    → IsIndexed q
    → Ensures (Sifted q) (up_heap fuel k q)
up_heap_lem zero k q f lt r x = absurd (omega arith)
up_heap_lem (suc fuel) k q f lt r x = elim (Bool-cases (rises k q)) [
  | inl up ↦
      let pos_k : 0 < k = ground arith in
      let p_lt : parent k < q.size = omega (arith, parent-< k pos_k) in
      subst (Ensures (Sifted q)) (sym (up_heap_of_more fuel k q up)) (
        Ensures-map _ _ (up_heap fuel (parent k) (swap_heap k (parent k) q))
          (λ s h. Sifted-swap k (parent k) q s lt p_lt h)
          (up_heap_lem fuel (parent k) (swap_heap k (parent k) q) (omega (arith, parent-< k pos_k))
            (omega (arith, size-swap_heap k (parent k) q))
            (swap_rises k q pos_k lt (ground arith) r) (swap-IsIndexed k (parent k) q lt p_lt x)))
  | inr stay ↦
      subst (Ensures (Sifted q)) (sym (up_heap_of_stop fuel k q stay)) (done_rising k q lt stay r x)
]

down_heap_of_more :
    (fuel k : ℕ) (q : TimerQueue)
    → sinks k q ≡ true
    → down_heap (suc fuel) k q ≡ down_heap fuel (min_child k q) (swap_heap k (min_child k q) q)
unfolding down_heap
down_heap_of_more fuel k q down = ground arith

down_heap_of_stop :
    (fuel k : ℕ) (q : TimerQueue) → sinks k q ≡ false → down_heap (suc fuel) k q ≡ some q
unfolding down_heap
down_heap_of_stop fuel k q stay = ground arith

-- The smaller child, where there is one.
record IsMinChild (k : ℕ) (q : TimerQueue) (c : ℕ) : Type 0 where
  below : k < c
  inside : c < q.size
  of_parent : parent c ≡ k
  least : (i : ℕ) → 0 < i → i < q.size → parent i ≡ k → expiry_at q c ≤ expiry_at q i

min_child-IsMinChild : (k : ℕ) (q : TimerQueue) → child k < q.size → IsMinChild k q (min_child k q)
min_child-IsMinChild k q lt = record {
  below = ground arith;
  inside = ground arith;
  of_parent = ground arith;
  least = λ i a b e.
      let which : (i ≡ child k) ⊎ (i ≡ child k + 1) = ground arith in
      ground (arith, ap (expiry_at q));
}

done_sinking :
    (k : ℕ) (q : TimerQueue)
    → k < q.size
    → sinks k q ≡ false
    → SinksAt k q
    → IsIndexed q
    → Sifted q q
done_sinking k q lt e r x = record {
  same_size = refl;
  ordered = λ i a b. elim (Bool-cases (parent i == k)) [
    | inl here ↦
        let up : parent i ≡ k = ground arith in
        let c = min_child-IsMinChild k q (omega arith) in
        let bound : expiry_at q k ≤ expiry_at q (min_child k q) = ground (arith, c.inside) in
        omega (arith, ap (expiry_at q) up, c.least i a b up)
    | inr other ↦ r.others i a b (ground arith)
  ];
  indexed = x;
  kept = λ e h. h;
  none_new = λ e h. h;
  same_ops = λ t. refl;
  same_list = record { same_first = refl; same_links = λ t. (refl, refl) };
}

pub down_heap_lem :
    (fuel k : ℕ) (q : TimerQueue)
    → q.size < fuel + k
    → k < q.size
    → SinksAt k q
    → IsIndexed q
    → Ensures (Sifted q) (down_heap fuel k q)
down_heap_lem zero k q f lt r x = absurd (omega arith)
down_heap_lem (suc fuel) k q f lt r x = elim (Bool-cases (sinks k q)) [
  | inl down ↦
      let c = min_child-IsMinChild k q (ground arith) in
      subst (Ensures (Sifted q)) (sym (down_heap_of_more fuel k q down)) (
        Ensures-map _ _ (down_heap fuel (min_child k q) (swap_heap k (min_child k q) q))
          (λ s h. Sifted-swap k (min_child k q) q s lt c.inside h)
          (down_heap_lem fuel (min_child k q) (swap_heap k (min_child k q) q)
            (omega (arith, c.below, size-swap_heap k (min_child k q) q))
            (omega (arith, c.inside, size-swap_heap k (min_child k q) q))
            (swap_sinks k (min_child k q) q (omega (arith, c.below)) c.inside c.of_parent c.least
              (ground arith) r)
            (swap-IsIndexed k (min_child k q) q lt c.inside x)))
  | inr stay ↦
      subst (Ensures (Sifted q)) (sym (down_heap_of_stop fuel k q stay))
        (done_sinking k q lt stay r x)
]

pub sift_lem :
    (k : ℕ) (q : TimerQueue)
    → k < q.size
    → HasHole k q
    → IsIndexed q
    → Ensures (Sifted q) (sift k q)
sift_lem k q lt h x = elim (Bool-cases (rises k q)) [
  | inl up ↦
      let up_sift : sift k q ≡ up_heap (suc k) k q = ground arith in
      subst (Ensures (Sifted q)) (sym up_sift) (
        up_heap_lem (suc k) k q (omega arith) lt
          (record {
            others = λ i a b c. ground (arith, h.others i a b c, h.over i a b, ap (expiry_at q));
            over = h.over;
          })
          x)
  | inr stay ↦
      let down_sift : sift k q ≡ down_heap (suc q.size) k q = ground arith in
      subst (Ensures (Sifted q)) (sym down_sift) (
        down_heap_lem (suc q.size) k q (omega arith) lt
          (record {
            others = λ i a b d. elim (Bool-cases (i == k)) [
              | inl here ↦
                  let at : i ≡ k = ground arith in
                  ground (arith, ap (expiry_at q) at, ap (λ j. expiry_at q (parent j)) at)
              | inr other ↦ h.others i a b (ground arith) d
            ];
            over = h.over;
          })
          x)
]
