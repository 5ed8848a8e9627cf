-- ===== src/Continuation.antt =====
-- continuation.h: `continuation<R(Args...)>` and `continuation<>`, each with a `unique_ptr` to an
-- implementation. Objects and implementations have numbers, and so have signatures and the types of targets.
pub mod Ownership
use executors.Base.{
  ℕ, suc, ◌+◌, ◌<◌, ◌≡◌, Bool, true, false, Option, none, some, ◌==◌, if◌then◌else◌, update,
}

-- A `__continuation_impl`.
pub record Impl : Type 0 where
  pub id : ℕ
  pub signature : ℕ
  pub target : ℕ

-- An object that is not alive holds nothing. `created` and `deleted` count implementations.
pub record World : Type 0 where
  pub holds : ℕ → Option Impl
  pub created : ℕ → ℕ
  pub deleted : ℕ → ℕ

abbrev pub start : World
start = record { holds = λ i. none; created = λ k. 0; deleted = λ k. 0 }

abbrev pub count_one : ℕ → (ℕ → ℕ) → ℕ → ℕ
count_one k counts = update counts k (suc (counts k))

abbrev pub delete_impl : Option Impl → World → World
delete_impl none w = w
delete_impl (some p) w = record w { deleted = count_one p.id w.deleted }

-- `reset` of a `unique_ptr`, and `release`.
unfoldable pub reset : ℕ → Option Impl → World → World
reset i o w = record (delete_impl (w.holds i) w) { holds = update w.holds i o }

unfoldable pub release : ℕ → World → World
release j w = record w { holds = update w.holds j none }

-- The constructor from a function object, into an object that is not alive.
unfoldable pub construct : ℕ → Impl → World → World
construct i p w = record w { holds = update w.holds i (some p); created = count_one p.id w.created }

-- The move constructors, also from a continuation with a signature to one without.
unfoldable pub move_construct : ℕ → ℕ → World → World
unfolding release
move_construct i j w = let v = release j w in record v { holds = update v.holds i (w.holds j) }

-- The move assignments: a `unique_ptr` is reset to what it releases from the other.
unfoldable pub move_assign : ℕ → ℕ → World → World
unfolding reset release
move_assign i j w = reset i (w.holds j) (release j w)

unfoldable pub assign_null : ℕ → World → World
unfolding reset
assign_null i w = reset i none w

unfoldable pub assign : ℕ → Impl → World → World
unfolding reset
assign i p w = reset i (some p) (record w { created = count_one p.id w.created })

-- The destructor is that of the `unique_ptr`.
unfoldable pub destroy : ℕ → World → World
unfolding reset
destroy i w = reset i none w

-- `static_continuation_cast` to a new object: the signature is not looked at.
unfoldable pub static_cast : ℕ → ℕ → World → World
unfolding release
static_cast i j w = let v = release j w in record v { holds = update v.holds i (w.holds j) }

abbrev pub has_signature : ℕ → Option Impl → Bool
has_signature s none = false
has_signature s (some p) = p.signature == s

-- `dynamic_continuation_cast`: an object without a function if the signature is another.
unfoldable pub dynamic_cast : ℕ → ℕ → ℕ → World → World
unfolding static_cast
dynamic_cast s i j w =
    if has_signature s (w.holds j)
    then static_cast i j w
    else record w { holds = update w.holds i none }

-- The call: it throws `bad_continuation`, or it calls a target.
pub data CallResult : Type 0 where
  bad_continuation : CallResult
  calls_target : ℕ → CallResult

unfoldable pub call : Option Impl → CallResult
call none = bad_continuation
call (some p) = calls_target p.target

-- The objects are below `n`; a new implementation has a number of its own.
pub data Step (n : ℕ) (w : World) : World → Type 0 where
  constructs :
      (i : ℕ) (p : Impl)
      → i < n
      → w.holds i ≡ none
      → w.created p.id ≡ 0
      → Step n w (construct i p w)
  move_constructs : (i j : ℕ) → i < n → j < n → w.holds i ≡ none → Step n w (move_construct i j w)
  move_assigns : (i j : ℕ) → i < n → j < n → Step n w (move_assign i j w)
  assigns_null : (i : ℕ) → i < n → Step n w (assign_null i w)
  assigns : (i : ℕ) (p : Impl) → i < n → w.created p.id ≡ 0 → Step n w (assign i p w)
  destroys : (i : ℕ) → i < n → Step n w (destroy i w)
  casts : (s i j : ℕ) → i < n → j < n → w.holds i ≡ none → Step n w (dynamic_cast s i j w)

pub data Reach (n : ℕ) : World → Type 0 where
  here : Reach n start
  next : {w v : World} → Reach n w → Step n w v → Reach n v
