-- ===== src/Services/Registry.antt =====
-- execution_context.h: what calls that overlap know of the services, and what they give out.
use executors.Base.{
  ℕ, ◌<◌, ◌≡◌, refl, ◌≢◌, sym, ◌∙◌, ap, subst, ◌⊎◌, inl, inr, none, some, List, [], ◌∷◌, ◌++◌, ◌==◌,
  NotIn, update, arith, Bool-cases,
}
use executors.Services.{
  Service, addresses, first_of, find, find_until, adopt, Pc, outside, creating, System, Step, finds,
  creates, finds_late, throws, adopts, Reach, here, next,
}

-- No address occurs twice, and none is null.
abbrev AreApart : List Service → Type 0
AreApart [] = Unit
AreApart (s ∷ ss) = (s.address ≢ 0) × NotIn s.address (addresses ss) × AreApart ss

-- What a call knows while it creates a service: its first look saw the end of the list, from `first`
-- on, and no service with its key there.
record HasSeen (key first : ℕ) (ss : List Service) : Type 0 where
  added : List Service
  seen : List Service
  split : ss ≡ added ++ seen
  starts : first_of seen ≡ first
  absent : find key seen ≡ none

abbrev Knows : Pc → List Service → Type 0
Knows outside ss = Unit
Knows (creating key first) ss = HasSeen key first ss

-- All that was given out is still there under its key.
abbrev AllStand : List (ℕ × ℕ) → List Service → Type 0
AllStand [] ss = Unit
AllStand ((key, address) ∷ given) ss = (find key ss ≡ some address) × AllStand given ss

record Inv (n : ℕ) (y : System) : Type 0 where
  apart : AreApart y.services
  stand : AllStand y.given y.services
  knows : (i : ℕ) → i < n → Knows (y.pc i) y.services

NotIn-append :
    (a : ℕ) (xs : List Service) (s : Service) (ys : List Service)
    → NotIn a (addresses (xs ++ s ∷ ys))
    → a ≢ s.address
NotIn-append a [] s ys h = h.0
NotIn-append a (x ∷ xs) s ys h = NotIn-append a xs s ys h.1

-- The second look and the first one make a whole.
find-find_until :
    (key : ℕ) (added seen : List Service)
    → AreApart (added ++ seen)
    → find_until key (first_of seen) (added ++ seen) ≡ some none
    → find key seen ≡ none
    → find key (added ++ seen) ≡ none
unfolding find find_until
find-find_until key [] seen d h f = f
find-find_until key (s ∷ added) [] d h f = ground (arith, find-find_until key added [] d.2)
find-find_until key (s ∷ added) (t ∷ seen) d h f =
    ground
      (arith, find-find_until key added (t ∷ seen) d.2, NotIn-append s.address added t seen d.1)

find_until-find :
    (key address : ℕ) (added seen : List Service)
    → AreApart (added ++ seen)
    → find_until key (first_of seen) (added ++ seen) ≡ some (some address)
    → find key (added ++ seen) ≡ some address
unfolding find find_until
find_until-find key address [] [] d h = ground arith
find_until-find key address [] (t ∷ seen) d h = ground arith
find_until-find key address (s ∷ added) [] d h =
    ground (arith, find_until-find key address added [] d.2)
find_until-find key address (s ∷ added) (t ∷ seen) d h = ground (
  arith,
  find_until-find key address added (t ∷ seen) d.2,
  NotIn-append s.address added t seen d.1,
)

adopt-AllStand :
    (address key : ℕ) (given : List (ℕ × ℕ)) (ss : List Service)
    → find key ss ≡ none
    → AllStand given ss
    → AllStand given (adopt address key ss)
unfolding find
adopt-AllStand address key [] ss f h = tt
adopt-AllStand address key ((k, a) ∷ given) ss f h =
    (ground (arith, h.0, ap (λ j. find j ss)), adopt-AllStand address key given ss f h.1)

adopt-Knows :
    (address key : ℕ) (p : Pc) (ss : List Service) → Knows p ss → Knows p (adopt address key ss)
adopt-Knows address key outside ss h = tt
adopt-Knows address key (creating k first) ss h = record {
  added = adopt address key h.added;
  seen = h.seen;
  split = ap (adopt address key) h.split;
  starts = h.starts;
  absent = h.absent;
}

-- What the second look of a call tells of the whole list.
late-none :
    (key first : ℕ) (ss : List Service)
    → AreApart ss
    → HasSeen key first ss
    → find_until key first ss ≡ some none
    → find key ss ≡ none
late-none key first ss d h f =
    subst (λ l. find key l ≡ none) (sym h.split)
      (find-find_until key h.added h.seen (subst AreApart h.split d)
        (ap (λ a. find_until key a (h.added ++ h.seen)) h.starts
          ∙ ap (find_until key first) (sym h.split)
          ∙ f)
        h.absent)

late-some :
    (key first address : ℕ) (ss : List Service)
    → AreApart ss
    → HasSeen key first ss
    → find_until key first ss ≡ some (some address)
    → find key ss ≡ some address
late-some key first address ss d h f =
    subst (λ l. find key l ≡ some address) (sym h.split)
      (find_until-find key address h.added h.seen (subst AreApart h.split d) (
        ap (λ a. find_until key a (h.added ++ h.seen)) h.starts
        ∙ ap (find_until key first) (sym h.split)
        ∙ f))

-- A step that leaves the services as they are.
same_services :
    {n : ℕ} (y : System) (i : ℕ) (given : List (ℕ × ℕ)) (p : Pc)
    → Inv n y
    → AllStand given y.services
    → Knows p y.services
    → Inv n (record y { given = given; pc = update y.pc i p })
same_services y i given p inv g h = record {
  apart = inv.apart;
  stand = g;
  knows = λ j lt. elim (Bool-cases (i == j)) [
    | inl same ↦ rw same h
    | inr other ↦ rw other (inv.knows j lt)
  ];
}

known :
    {n : ℕ} (y : System) (i : ℕ) {key first : ℕ}
    → Inv n y
    → i < n
    → y.pc i ≡ creating key first
    → HasSeen key first y.services
known y i inv lt e = subst (λ p. Knows p y.services) e (inv.knows i lt)

find-adopt : (a k : ℕ) (ss : List Service) → find k (adopt a k ss) ≡ some a
unfolding find
find-adopt a k ss = ground arith

Step-Inv : {n : ℕ} {y z : System} → Step n y z → Inv n y → Inv n z
Step-Inv {y} (finds i key {address} lt e f) inv = record {
  apart = inv.apart;
  stand = (f, inv.stand);
  knows = inv.knows;
}
Step-Inv {y} (creates i key lt e f) inv =
    same_services y i y.given (creating key (first_of y.services)) inv inv.stand
      (record { added = []; seen = y.services; split = refl; starts = refl; absent = f })
Step-Inv {y} (finds_late i {key} {first} {address} lt e f) inv =
    same_services y i ((key, address) ∷ y.given) outside inv
      (late-some key first address y.services inv.apart (known y i inv lt e) f, inv.stand) tt
Step-Inv {y} (throws i lt e) inv = same_services y i y.given outside inv inv.stand tt
Step-Inv {y} (adopts i address {key} {first} lt e f nonzero new) inv =
    let absent = late-none key first y.services inv.apart (known y i inv lt e) f in
    same_services
      (record y { services = adopt address key y.services; given = (key, address) ∷ y.given }) i
      ((key, address) ∷ y.given) outside
      (record {
        apart = (nonzero, new, inv.apart);
        stand = (
          find-adopt address key y.services,
          adopt-AllStand address key y.given y.services absent inv.stand,
        );
        knows = λ j lt'. adopt-Knows address key (y.pc j) y.services (inv.knows j lt');
      })
      (
        find-adopt address key y.services,
        adopt-AllStand address key y.given y.services absent inv.stand,
      )
      tt

Reach-Inv : {n : ℕ} {y : System} → Reach n y → Inv n y
Reach-Inv here = record { apart = tt; stand = tt; knows = λ i lt. tt }
Reach-Inv (next r st) = Step-Inv st (Reach-Inv r)

-- The service was given out for the key.
abbrev pub WasGiven : ℕ → ℕ → List (ℕ × ℕ) → Type 0
WasGiven key address [] = ⊥
WasGiven key address ((k, a) ∷ given) = ((k ≡ key) × (a ≡ address)) ⊎ WasGiven key address given

stands :
    (key address : ℕ) (given : List (ℕ × ℕ)) (ss : List Service)
    → AllStand given ss
    → WasGiven key address given
    → find key ss ≡ some address
stands key address [] ss h w = absurd w
stands key address ((k, a) ∷ given) ss h (inl e) = ground (arith, h.0, ap (λ j. find j ss) e.0, e.1)
stands key address ((k, a) ∷ given) ss h (inr w) = stands key address given ss h.1 w

-- Whatever calls overlap, a service that was given out is registered from then on: it is the one that
-- `use_service` finds for its key.
pub given_registered :
    {n : ℕ} (y : System) (key address : ℕ)
    → Reach n y
    → WasGiven key address y.given
    → find key y.services ≡ some address
given_registered y key address r w = stands key address y.given y.services (Reach-Inv r).stand w

-- Whatever calls of `use_service` and `make_service` overlap, any two that were answered for the same
-- key were given the same service.
pub one_service :
    {n : ℕ} (y : System) (key a b : ℕ)
    → Reach n y
    → WasGiven key a y.given
    → WasGiven key b y.given
    → a ≡ b
one_service y key a b r v w =
    ground (arith, given_registered y key a r v, given_registered y key b r w)
