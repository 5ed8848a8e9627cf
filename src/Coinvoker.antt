-- ===== src/Coinvoker.antt =====
-- coinvoker.h: what `copost`, `codispatch` and `codefer` share between the function objects that they run
-- at the same time (the heads) and the function object that takes their results (the tail). The arguments
-- of a call are a list of numbers. A head runs on any thread; each access of the atomic counter is one
-- step, and so is each store of a result.
pub mod Account
pub mod Delivery
use executors.Base.{
  ℕ, zero, suc, ◌-◌, ◌<◌, ◌≡◌, List, [], ◌∷◌, ◌++◌, Bool, true, false, Option, none, some, ◌==◌,
  if◌then◌else◌, update, ◌>>=◌,
}

-- A `__coinvoker_result`: the value, if it has one. Its assertions are the undefined calls.
abbrev pub set_value : List ℕ → Option (List ℕ) → Option (Option (List ℕ))
set_value args (some old) = none
set_value args none = some (some args)

-- The value is moved from, and `_M_has_value` stays.
abbrev pub get_value : Option (List ℕ) → Option (List ℕ)
get_value r = r

-- `invoked` is the calls of `_M_invoker` with their arguments, the latest first.
pub record Tail : Type 0 where
  pub results : ℕ → Option (List ℕ)
  pub pending : ℕ
  pub invoked : List (List ℕ)
  pub is_deleted : Bool

abbrev pub new_tail : Tail
new_tail = record { results = λ i. none; pending = 0; invoked = []; is_deleted = false }

-- `tuple_cat` of the values of the first `n` results.
unfoldable pub gather : ℕ → (ℕ → Option (List ℕ)) → Option (List ℕ)
gather zero results = some []
gather (suc n) results = do
  before ← gather n results
  args ← get_value (results n)
  some (before ++ args)

-- `_Dispatch`, with the `unique_ptr` that deletes the tail.
unfoldable pub dispatch : ℕ → Tail → Option Tail
unfolding gather
dispatch n t = do
  args ← gather n t.results
  some (record t { invoked = args ∷ t.invoked; is_deleted = true })

unfoldable pub prime : ℕ → Tail → Option Tail
unfolding dispatch
prime n t = if n == 0 then dispatch n t else some (record t { pending = n })

-- A member of a tail that is deleted is not called.
abbrev pub live : Tail → Option Tail
live t = if t.is_deleted then none else some t

unfoldable pub set_result : ℕ → List ℕ → Tail → Option Tail
set_result i args t = do
  u ← live t
  r ← set_value args (u.results i)
  some (record u { results = update u.results i r })

-- The decrement of a `size_t`.
abbrev pub decrement : ℕ → ℕ
decrement zero = 18446744073709551615
decrement (suc n) = n

abbrev pub fewer : Tail → Tail
fewer t = record t { pending = decrement t.pending }

unfoldable pub complete : ℕ → Tail → Option Tail
unfolding dispatch
complete n t = do
  u ← live t
  if decrement u.pending == 0 then dispatch n (fewer u) else some (fewer u)

unfoldable pub release : Tail → Option Tail
release t = do
  u ← live t
  some (if decrement u.pending == 0 then record (fewer u) { is_deleted = true } else fewer u)

-- The `__coinvoker_tail_ptr` of a head: it points to the tail, or its call has stored the result and set
-- it to null, or the call is over, or its destructor has released the tail.
pub data Head : Type 0 where
  holding : Head
  storing : List ℕ → Head
  completed : List ℕ → Head
  released : Head

pub record Machine : Type 0 where
  pub tail : Tail
  pub heads : ℕ → Head

abbrev pub set_head : ℕ → Head → Tail → Machine → Machine
set_head i h t m = record { tail = t; heads = update m.heads i h }

pub data Step (n : ℕ) (m : Machine) : Machine → Type 0 where
  -- The call of the pointer: first `_Set_result`, then `_Complete`.
  stores :
      (i : ℕ) (args : List ℕ) {t : Tail}
      → i < n
      → m.heads i ≡ holding
      → set_result i args m.tail ≡ some t
      → Step n m (set_head i (storing args) t m)
  completes :
      (i : ℕ) {args : List ℕ} {t : Tail}
      → i < n
      → m.heads i ≡ storing args
      → complete n m.tail ≡ some t
      → Step n m (set_head i (completed args) t m)
  -- Its destructor.
  releases :
      (i : ℕ) {t : Tail}
      → i < n
      → m.heads i ≡ holding
      → release m.tail ≡ some t
      → Step n m (set_head i released t m)

-- The runs of `_Go` of a launcher with `n` heads.
pub data Reach (n : ℕ) : Machine → Type 0 where
  here :
      {t : Tail} → prime n new_tail ≡ some t → Reach n (record { tail = t; heads = λ i. holding })
  next : {m k : Machine} → Reach n m → Step n m k → Reach n k
