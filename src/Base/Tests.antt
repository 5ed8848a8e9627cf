-- ===== src/Base/Tests.antt =====
-- Boolean tests on the native numbers, the conditional and case splits.
use Prim.Native.Nat.{ℕ, compare, Ordering}
use mathlib.Core.Path.{◌≡◌, refl, sym, subst}
use native.Mathlib.Decide.{ℕ_discrete}
use native.Mathlib.Omega.{arith}
use mathlib.Core.Logic.{◌⊎◌, inl, inr}
use mathlib.Core.Bool.{Bool, true, false}
use mathlib.Core.Option.{Option, none, some}

abbrev pub ltb : ℕ → ℕ → Bool
ltb a b = elim (compare a b) [ Ordering.lt ↦ true | _ ↦ false ]

abbrev pub leb : ℕ → ℕ → Bool
leb a b = elim (compare a b) [ Ordering.gt ↦ false | _ ↦ true ]

infix 50 ◌==◌
abbrev pub ◌==◌ : ℕ → ℕ → Bool
a == b = elim (compare a b) [ Ordering.eq ↦ true | _ ↦ false ]

infix 1 if◌then◌else◌
abbrev pub if◌then◌else◌ {ℓ} : {A : Type ℓ} → Bool → A → A → A
if true then x else y = x
if false then x else y = y

pub Bool-cases : (b : Bool) → (b ≡ true) ⊎ (b ≡ false)
Bool-cases true = inl refl
Bool-cases false = inr refl

pub Option-cases {ℓ} : {A : Type ℓ} (o : Option A) → (o ≡ none) ⊎ ((a : A) × (o ≡ some a))
Option-cases none = inl refl
Option-cases (some a) = inr (a, refl)

-- A map from numbers, changed at one place.
abbrev pub update {ℓ} : {A : Type ℓ} → (ℕ → A) → ℕ → A → ℕ → A
update f i a j = if i == j then a else f j

-- The call is defined, and what it gives has the property.
abbrev pub Ensures {ℓ} : {A : Type ℓ} → (A → Type 0) → Option A → Type 0
Ensures P none = ⊥
Ensures P (some a) = P a

pub Ensures-map {ℓ} :
    {A : Type ℓ} (P Q : A → Type 0) (o : Option A)
    → ((a : A) → P a → Q a)
    → Ensures P o
    → Ensures Q o
Ensures-map P Q none f h = h
Ensures-map P Q (some a) f h = f a h

-- `do` blocks of a computation that may be undefined.
infixl 5 ◌>>=◌
abbrev pub ◌>>=◌ {ℓ κ} : {A : Type ℓ} {B : Type κ} → Option A → (A → Option B) → Option B
none >>= f = none
some a >>= f = f a

pub Ensures-bind {ℓ κ} :
    {A : Type ℓ} {B : Type κ} (P : A → Type 0) (Q : B → Type 0) (o : Option A) (f : A → Option B)
    → Ensures P o
    → ((a : A) → P a → Ensures Q (f a))
    → Ensures Q (o >>= f)
Ensures-bind P Q none f h k = absurd h
Ensures-bind P Q (some a) f h k = k a h

pub Ensures-both {ℓ} :
    {A : Type ℓ} (P Q : A → Type 0) (o : Option A)
    → Ensures P o
    → Ensures Q o
    → Ensures (λ a. P a × Q a) o
Ensures-both P Q none h k = h
Ensures-both P Q (some a) h k = (h, k)

-- What holds of a map that is changed at one place.
pub update-ind {ℓ κ} :
    {A : Type ℓ} (P : ℕ → A → Type κ) (f : ℕ → A) (i : ℕ) (a : A)
    → ((j : ℕ) → ¬ i ≡ j → P j (f j))
    → P i a
    → (j : ℕ) → P j (update f i a j)
update-ind P f i a h p j = elim (ℕ_discrete i j) [
  | yes e ↦
      let same : update f i a j ≡ a = ground arith in
      subst (λ x. P j x) (sym same) (subst (λ k. P k a) e p)
  | no d ↦
      let same : update f i a j ≡ f j = ground (arith, d) in subst (λ x. P j x) (sym same) (h j d)
]
