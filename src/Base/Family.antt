-- ===== src/Base/Family.antt =====
-- Families indexed by threads: a weight summed over the first `n` of them.
use Prim.Native.Nat.{ℕ, zero, suc, ◌+◌, ◌≤◌, ◌<◌}
use mathlib.Core.Path.{◌≡◌, refl}
use mathlib.Core.Logic.{◌≢◌}
use native.Mathlib.Decide.{dec_lt}
use native.Mathlib.Omega.{arith}
use executors.Base.Tests.{update}

module _ {ℓ} {A : Type ℓ} where
  pub sum_of : (A → ℕ) → ℕ → (ℕ → A) → ℕ
  sum_of weight zero f = 0
  sum_of weight (suc n) f = weight (f n) + sum_of weight n f

  pub untouched :
      (weight : A → ℕ) (n : ℕ) (f : ℕ → A) (i : ℕ) (a : A)
      → n ≤ i
      → sum_of weight n (update f i a) ≡ sum_of weight n f
  unfolding sum_of
  untouched weight zero f i a h = refl
  untouched weight (suc n) f i a h = ground (arith, untouched weight n f i a)

  -- A change at `i` changes the sum by the difference of the weights.
  pub sum_of-update :
      (weight : A → ℕ) (n : ℕ) (f : ℕ → A) (i : ℕ) (a : A)
      → i < n
      → sum_of weight n (update f i a) + weight (f i) ≡ sum_of weight n f + weight a
  unfolding sum_of
  sum_of-update weight zero f i a h = absurd (omega arith)
  sum_of-update weight (suc n) f i a h = elim (dec_lt i n) [
    | yes lt ↦ ground (arith, sum_of-update weight n f i a lt)
    | no ge ↦ ground (arith, untouched weight n f i a)
  ]

  pub sum_of_mono :
      (v w : A → ℕ) (n : ℕ) (f : ℕ → A)
      → ((i : ℕ) → i < n → v (f i) ≤ w (f i))
      → sum_of v n f ≤ sum_of w n f
  unfolding sum_of
  sum_of_mono v w zero f h = omega arith
  sum_of_mono v w (suc n) f h =
      omega (arith, h n (omega arith), sum_of_mono v w n f (λ i lt. h i (omega arith)))

  -- One thread's share of the difference.
  pub sum_of-gap :
      (v w : A → ℕ) (n : ℕ) (f : ℕ → A) (i : ℕ)
      → i < n
      → ((j : ℕ) → v (f j) ≤ w (f j))
      → sum_of v n f + w (f i) ≤ sum_of w n f + v (f i)
  unfolding sum_of
  sum_of-gap v w zero f i h below = absurd (omega arith)
  sum_of-gap v w (suc n) f i h below = elim (dec_lt i n) [
    | yes lt ↦ omega (arith, below n, sum_of-gap v w n f i lt below)
    | no ge ↦
        let e : i ≡ n = omega arith in rw e (omega (arith, sum_of_mono v w n f (λ j lt. below j)))
  ]

  pub sum_of-le :
      (weight : A → ℕ) (n : ℕ) (f : ℕ → A) (i : ℕ) → i < n → weight (f i) ≤ sum_of weight n f
  unfolding sum_of
  sum_of-le weight zero f i h = absurd (omega arith)
  sum_of-le weight (suc n) f i h = elim (dec_lt i n) [
    | yes lt ↦ omega (arith, sum_of-le weight n f i lt)
    | no ge ↦ let e : i ≡ n = omega arith in rw e (omega arith)
  ]

  pub sum_of-two :
      (weight : A → ℕ) (n : ℕ) (f : ℕ → A) (i j : ℕ)
      → i < n
      → j < n
      → i ≢ j
      → weight (f i) + weight (f j) ≤ sum_of weight n f
  unfolding sum_of
  sum_of-two weight zero f i j h k d = absurd (omega arith)
  sum_of-two weight (suc n) f i j h k d = elim (dec_lt i n) [
    | yes lt ↦ elim (dec_lt j n) [
      | yes lt' ↦ omega (arith, sum_of-two weight n f i j lt lt' d)
      | no ge' ↦ let e : j ≡ n = omega arith in rw e (omega (arith, sum_of-le weight n f i lt))
    ]
    | no ge ↦
        let e : i ≡ n = omega arith in rw e (omega (arith, sum_of-le weight n f j (omega arith)))
  ]

  -- A sum above 0 has a part above 0.
  pub sum_of-find :
      (weight : A → ℕ) (n : ℕ) (f : ℕ → A)
      → 0 < sum_of weight n f
      → (i : ℕ) × (i < n) × (0 < weight (f i))
  unfolding sum_of
  sum_of-find weight zero f h = absurd (omega arith)
  sum_of-find weight (suc n) f h = elim (dec_lt 0 (weight (f n))) [
    | yes p ↦ (n, omega arith, p)
    | no q ↦ let (i, lt, p) = sum_of-find weight n f (omega arith) in (i, omega arith, p)
  ]

  pub sum_of-zero :
      (weight : A → ℕ) (n : ℕ) (f : ℕ → A) → ((i : ℕ) → weight (f i) ≡ 0) → sum_of weight n f ≡ 0
  unfolding sum_of
  sum_of-zero weight zero f h = refl
  sum_of-zero weight (suc n) f h = omega (arith, h n, sum_of-zero weight n f h)

  -- Weights of at most 1 add up to at most the number of threads.
  pub sum_of-bound :
      (weight : A → ℕ) (n : ℕ) (f : ℕ → A) → ((a : A) → weight a ≤ 1) → sum_of weight n f ≤ n
  unfolding sum_of
  sum_of-bound weight zero f h = omega arith
  sum_of-bound weight (suc n) f h = omega (arith, h (f n), sum_of-bound weight n f h)

  pub sum_of-same :
      (weight : A → ℕ) (n : ℕ) (f g : ℕ → A)
      → ((i : ℕ) → weight (f i) ≡ weight (g i))
      → sum_of weight n f ≡ sum_of weight n g
  unfolding sum_of
  sum_of-same weight zero f g h = refl
  sum_of-same weight (suc n) f g h = omega (arith, h n, sum_of-same weight n f g h)

  -- Weights of 1 add up to the number of threads.
  pub sum_of-one :
      (weight : A → ℕ) (n : ℕ) (f : ℕ → A) → ((i : ℕ) → weight (f i) ≡ 1) → sum_of weight n f ≡ n
  unfolding sum_of
  sum_of-one weight zero f h = refl
  sum_of-one weight (suc n) f h = omega (arith, h n, sum_of-one weight n f h)

  pub sum_of-empty :
      (weight : A → ℕ) (n : ℕ) (f : ℕ → A)
      → ((i : ℕ) → i < n → weight (f i) ≡ 0)
      → sum_of weight n f ≡ 0
  unfolding sum_of
  sum_of-empty weight zero f h = refl
  sum_of-empty weight (suc n) f h =
      omega (arith, h n (omega arith), sum_of-empty weight n f (λ i lt. h i (omega arith)))
