-- ===== src/Services.antt =====
-- include/experimental/bits/execution_context.h: the services of an `execution_context`. The list from
-- `_M_first_service` on is a list; a service has its address, where 0 is the null pointer, and a
-- number for its `type_info`. A call of `use_service` or `make_service` lets go of the lock while it
-- creates the service, so that calls interleave; a creation may make calls of its own.
pub mod Registry
pub mod Shutdown
use executors.Base.{
  ℕ, zero, suc, ◌-◌, ◌<◌, ◌≡◌, ◌≢◌, Option, none, some, List, [], ◌∷◌, ◌++◌, Bool, true, false,
  ◌==◌, if◌then◌else◌, length, NotIn, update,
}

-- `execution_context::service`
pub record Service : Type 0 where
  pub address : ℕ
  pub key : ℕ
  pub has_shutdown : Bool

abbrev pub addresses : List Service → List ℕ
addresses [] = []
addresses (s ∷ ss) = s.address ∷ addresses ss

-- `_M_first_service`
abbrev pub first_of : List Service → ℕ
first_of [] = 0
first_of (s ∷ ss) = s.address

-- The first look: all services.
unfoldable pub find : ℕ → List Service → Option ℕ
find key [] = none
find key (s ∷ ss) = let rest = find key ss in if s.key == key then some s.address else rest

-- `has_service`
pub has_service : ℕ → List Service → Bool
unfolding find
has_service key ss = elim (find key ss) [ none ↦ false | some a ↦ true ]

-- The second look: the services before `first`, that is, those that were not there at the first look.
-- The outer `none` is a step beyond the end of the list.
unfoldable pub find_until : ℕ → ℕ → List Service → Option (Option ℕ)
find_until key first [] = if first == 0 then some none else none
find_until key first (s ∷ ss) =
    let rest = find_until key first ss in
    if s.address == first then some none else if s.key == key then some (some s.address) else rest

-- The new service becomes the first.
abbrev pub adopt : ℕ → ℕ → List Service → List Service
adopt address key ss = record { address = address; key = key; has_shutdown = false } ∷ ss

-- Where a call stands: outside, or between its two looks, with its key and the first service it saw.
pub data Pc : Type 0 where
  outside : Pc
  creating : ℕ → ℕ → Pc

-- The services, where each call stands, and the services that calls have given out, by key.
pub record System : Type 0 where
  pub services : List Service
  pub given : List (ℕ × ℕ)
  pub pc : ℕ → Pc

-- A call that throws (`service_already_exists` at the first look of `make_service`) changes nothing.
pub data Step (n : ℕ) (y : System) : System → Type 0 where
  -- `use_service` finds the service.
  finds :
      (i key : ℕ) {address : ℕ}
      → i < n
      → y.pc i ≡ outside
      → find key y.services ≡ some address
      → Step n y (record y { given = (key, address) ∷ y.given })
  -- `use_service` or `make_service` does not, and goes on to create it.
  creates :
      (i key : ℕ)
      → i < n
      → y.pc i ≡ outside
      → find key y.services ≡ none
      → Step n y (record y { pc = update y.pc i (creating key (first_of y.services)) })
  -- `use_service` finds that another call was faster; its own service is deleted.
  finds_late :
      (i : ℕ) {key first address : ℕ}
      → i < n
      → y.pc i ≡ creating key first
      → find_until key first y.services ≡ some (some address)
      → Step n y (record y { given = (key, address) ∷ y.given; pc = update y.pc i outside })
  -- The creation throws, or `make_service` finds that another call was faster.
  throws :
      (i : ℕ) {key first : ℕ}
      → i < n
      → y.pc i ≡ creating key first
      → Step n y (record y { pc = update y.pc i outside })
  -- The service is new, and takes its place. Its memory is not that of another service.
  adopts :
      (i address : ℕ) {key first : ℕ}
      → i < n
      → y.pc i ≡ creating key first
      → find_until key first y.services ≡ some none
      → address ≢ 0
      → NotIn address (addresses y.services)
      → Step n y (record y {
        services = adopt address key y.services;
        given = (key, address) ∷ y.given;
        pc = update y.pc i outside;
      })

abbrev pub start : System
start = record { services = []; given = []; pc = λ i. outside }

-- What `n` calls at a time can bring about of a new context.
pub data Reach (n : ℕ) : System → Type 0 where
  here : Reach n start
  next : {y z : System} → Reach n y → Step n y z → Reach n z
