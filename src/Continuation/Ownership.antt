-- ===== src/Continuation/Ownership.antt =====
-- Who owns the implementations of continuations.
use executors.Base.{
  ℕ, ◌+◌, ◌<◌, ◌≤◌, ◌≡◌, refl, ap, Bool-cases, Option, none, some, inl, inr, arith, ◌⊎◌, update,
  ◌==◌, if◌then◌else◌,
}
use executors.Base.Family.{sum_of, sum_of-update, sum_of-zero}
use native.Mathlib.Decide.{dec_lt}
use executors.Continuation.{
  count_one, Impl, World, delete_impl, reset, release, construct, move_construct, move_assign,
  assign_null, assign, destroy, static_cast, dynamic_cast, has_signature, Step, constructs,
  move_constructs, move_assigns, assigns_null, assigns, destroys, casts, Reach, here, next,
}

-- Whether an object holds the implementation `k`.
abbrev pub owns : ℕ → Option Impl → ℕ
owns k none = 0
owns k (some p) = if p.id == k then 1 else 0

abbrev pub owners : ℕ → ℕ → World → ℕ
owners n k w = sum_of (owns k) n w.holds

pub record IsOwned (n : ℕ) (w : World) : Type 0 where
  pub owned : (k : ℕ) → owners n k w + w.deleted k ≡ w.created k
  pub single : (k : ℕ) → w.created k ≤ 1

deleted-delete :
    (o : Option Impl) (k : ℕ) (w : World) → (delete_impl o w).deleted k ≡ w.deleted k + owns k o
deleted-delete none k w = omega arith
deleted-delete (some p) k w = ground arith

-- What a pointer gives up is deleted.
reset-owners :
    (n i k : ℕ) (o : Option Impl) (w : World)
    → i < n
    → owners n k (reset i o w) + (reset i o w).deleted k ≡ owners n k w + w.deleted k + owns k o
unfolding reset
reset-owners n i k o w lt =
    let u = sum_of-update (owns k) n w.holds i o lt in
    let d : (delete_impl (w.holds i) w).deleted k ≡ w.deleted k + owns k (w.holds i) =
      deleted-delete (w.holds i) k w in
    omega (arith, u, d)

release-owners :
    (n j k : ℕ) (w : World) → j < n → owners n k (release j w) + owns k (w.holds j) ≡ owners n k w
unfolding release
release-owners n j k w lt = omega (arith, sum_of-update (owns k) n w.holds j none lt)

fill-owners :
    (n i k : ℕ) (o : Option Impl) (w : World)
    → i < n
    → w.holds i ≡ none
    → sum_of (owns k) n (update w.holds i o) ≡ owners n k w + owns k o
fill-owners n i k o w lt e = omega (arith, sum_of-update (owns k) n w.holds i o lt, ap (owns k) e)

released-none : (i j : ℕ) (w : World) → w.holds i ≡ none → (release j w).holds i ≡ none
unfolding release
released-none i j w e = ground (arith, e)

move-owners :
    (n i j k : ℕ) (w : World)
    → i < n
    → j < n
    → w.holds i ≡ none
    → owners n k (move_construct i j w) ≡ owners n k w
unfolding move_construct
move-owners n i j k w lt lt' e = omega (
  arith,
  fill-owners n i k (w.holds j) (release j w) lt (released-none i j w e),
  release-owners n j k w lt',
)

created-delete : (o : Option Impl) (k : ℕ) (w : World) → (delete_impl o w).created k ≡ w.created k
created-delete none k w = refl
created-delete (some p) k w = refl

-- A pointer that is reset to what nobody owns.
reset-IsOwned :
    (n i : ℕ) (o : Option Impl) (w : World)
    → i < n
    → ((k : ℕ) → owners n k w + w.deleted k + owns k o ≡ w.created k)
    → ((k : ℕ) → w.created k ≤ 1)
    → IsOwned n (reset i o w)
unfolding reset
reset-IsOwned n i o w lt owned single = record {
  owned = λ k. omega (arith, owned k, reset-owners n i k o w lt, created-delete (w.holds i) k w);
  single = λ k. omega (arith, single k, created-delete (w.holds i) k w);
}

move-IsOwned :
    (n i j : ℕ) (w : World)
    → i < n
    → j < n
    → w.holds i ≡ none
    → IsOwned n w
    → IsOwned n (move_construct i j w)
unfolding move_construct release
move-IsOwned n i j w lt lt' e o = record {
  owned = λ k. omega (arith, o.owned k, move-owners n i j k w lt lt' e);
  single = o.single;
}

Step-IsOwned : {n : ℕ} (w v : World) → Step n w v → IsOwned n w → IsOwned n v
unfolding construct move_construct move_assign assign_null assign destroy static_cast dynamic_cast
    release
Step-IsOwned {n} w v (constructs i p lt e fresh) o = record {
  owned = λ k. ground (arith, o.owned k, fill-owners n i k (some p) w lt e, fresh);
  single = λ k. ground (arith, o.single k, fresh);
}
Step-IsOwned {n} w v (move_constructs i j lt lt' e) o = move-IsOwned n i j w lt lt' e o
Step-IsOwned {n} w v (move_assigns i j lt lt') o =
    reset-IsOwned n i (w.holds j) (release j w) lt
      (λ k. omega (arith, o.owned k, release-owners n j k w lt')) o.single
Step-IsOwned {n} w v (assigns_null i lt) o =
    reset-IsOwned n i none w lt (λ k. omega (arith, o.owned k)) o.single
Step-IsOwned {n} w v (assigns i p lt fresh) o =
    reset-IsOwned n i (some p) (record w { created = count_one p.id w.created }) lt
      (λ k. ground (arith, o.owned k)) (λ k. ground (arith, o.single k, fresh))
Step-IsOwned {n} w v (destroys i lt) o =
    reset-IsOwned n i none w lt (λ k. omega (arith, o.owned k)) o.single
Step-IsOwned {n} w v (casts s i j lt lt' e) o = elim (Bool-cases (has_signature s (w.holds j))) [
  | inl same ↦ rw same (move-IsOwned n i j w lt lt' e o)
  | inr other ↦ rw other (record {
    owned = λ k. omega (arith, o.owned k, fill-owners n i k none w lt e);
    single = o.single;
  })
]

Reach-IsKept : {n : ℕ} (w : World) → Reach n w → IsOwned n w
Reach-IsKept {n} w here = record {
  owned = λ k. omega (arith, sum_of-zero (owns k) n (λ i. none) (λ i. refl));
  single = λ k. omega arith;
}
Reach-IsKept v (next {w} r s) = Step-IsOwned w v s (Reach-IsKept w r)

one_of : (a b : ℕ) → a + b ≡ 1 → ((a ≡ 1) × (b ≡ 0)) ⊎ ((a ≡ 0) × (b ≡ 1))
one_of a b s = elim (dec_lt 0 a) [
  | yes p ↦ inl (omega (arith, s, p), omega (arith, s, p))
  | no z ↦ inr (omega (arith, z), omega (arith, s, z))
]

-- Whatever is done with `n` continuations: each implementation that was created is held by exactly one of
-- them and has not been deleted, or it is held by none and has been deleted exactly once.
pub Reach-IsOwned :
    (n k : ℕ) (w : World)
    → Reach n w
    → w.created k ≡ 1
    → ((owners n k w ≡ 1) × (w.deleted k ≡ 0)) ⊎ ((owners n k w ≡ 0) × (w.deleted k ≡ 1))
Reach-IsOwned n k w r e =
    one_of (owners n k w) (w.deleted k) (omega (arith, (Reach-IsKept w r).owned k, e))
