-- ===== src/Yield.antt =====
-- yield_context.h: stackful coroutines. A coroutine starts an operation, and `get` of its result suspends it
-- unless the handler of the operation has been called; the handler resumes a coroutine that is suspended.
-- Each access of `_M_ready` and of the lock is one step, and so is a switch of the coroutine, which is that
-- of Boost.Coroutine. Error codes, values and variables are numbers, and 0 is no error.
pub mod Handshake
pub mod Outcomes
use executors.Base.{
  ℕ, zero, suc, ◌≡◌, List, [], ◌∷◌, ◌++◌, Bool, true, false, Option, none, some, ◌==◌,
  if◌then◌else◌, update,
}

pub data Exception : Type 0 where
  system_error : ℕ → Exception
  other : ℕ → Exception

-- The arguments of a handler: of its three kinds.
pub data Completion : Type 0 where
  values : ℕ → Completion
  error_and_values : ℕ → ℕ → Completion
  exception_and_values : Option Exception → ℕ → Completion

pub record Result : Type 0 where
  pub exception : Option Exception
  pub value : ℕ

pub record Context : Type 0 where
  pub error_code : Option ℕ

-- `operator[]`
unfoldable pub with_error_code : ℕ → Context → Context
with_error_code ec c = record c { error_code = some ec }

-- What the call of a handler leaves in the result, and in the error codes.
abbrev pub error_of : Option ℕ → ℕ → Option Exception
error_of (some p) e = none
error_of none e = if e == 0 then none else some (system_error e)

unfoldable pub set_result : Context → Completion → Result
set_result c (values v) = record { exception = none; value = v }
set_result c (error_and_values e v) = record { exception = error_of c.error_code e; value = v }
set_result c (exception_and_values x v) = record { exception = x; value = v }

abbrev pub put_code : Option ℕ → ℕ → (ℕ → ℕ) → ℕ → ℕ
put_code none e codes = codes
put_code (some p) e codes = update codes p e

unfoldable pub write_code : Context → Completion → (ℕ → ℕ) → ℕ → ℕ
write_code c (values v) codes = codes
write_code c (error_and_values e v) codes = put_code c.error_code e codes
write_code c (exception_and_values x v) codes = codes

-- `_Get`
pub data Outcome : Type 0 where
  returned : ℕ → Outcome
  raised : Exception → Outcome

abbrev pub outcome_from : Option Exception → ℕ → Outcome
outcome_from none v = returned v
outcome_from (some x) v = raised x

unfoldable pub get_result : Result → Outcome
get_result r = outcome_from r.exception r.value

-- The coroutine: in its function, before the `test_and_set` of `get`, before the switch, switched, before
-- `_Get`, or at its end.
pub data Coro : Type 0 where
  running : Coro
  testing : Coro
  yielding : Coro
  suspended : Coro
  taking : Coro
  done : Coro

-- The handler of the operation: there is none, or it is to be called, or it has set the result, or it is to
-- take the lock and to resume the coroutine.
pub data Pc : Type 0 where
  idle : Pc
  pending : Pc
  valued : Pc
  locking : Pc

-- `result` and `is_ready` are the result of the operation. `given` and `got` are the results that
-- handlers have set and those that `get` has returned, in order.
pub record Yield : Type 0 where
  pub coro : Coro
  pub handler : Pc
  pub is_locked : Bool
  pub is_ready : Bool
  pub result : Option Result
  pub given : List Result
  pub got : List Result

-- The launcher has taken the lock and entered the coroutine.
abbrev pub launched : Yield
launched = record {
  coro = running;
  handler = idle;
  is_locked = true;
  is_ready = false;
  result = none;
  given = [];
  got = [];
}

-- A new result and its handler.
unfoldable pub start_operation : Yield → Yield
start_operation y = record y { coro = testing; handler = pending; is_ready = false; result = none }

unfoldable pub set_value : Result → Yield → Yield
set_value r y = record y { handler = valued; result = some r; given = y.given ++ r ∷ [] }

-- The `test_and_set` of the handler and of `get`.
unfoldable pub handler_test : Yield → Yield
handler_test y = record y { handler = if y.is_ready then locking else idle; is_ready = true }

unfoldable pub get_test : Yield → Yield
get_test y = record y { coro = if y.is_ready then taking else yielding; is_ready = true }

-- The handler takes the lock and enters the coroutine.
unfoldable pub resume : Yield → Yield
resume y = record y { is_locked = true; handler = idle; coro = taking }

abbrev pub take : Result → Yield → Yield
take r y = record y { coro = running; got = y.got ++ r ∷ [] }

pub data Step (y : Yield) : Yield → Type 0 where
  starts : y.coro ≡ running → Step y (start_operation y)
  sets :
      (c : Context) (a : Completion) → y.handler ≡ pending → Step y (set_value (set_result c a) y)
  handler_tests : y.handler ≡ valued → Step y (handler_test y)
  get_tests : y.coro ≡ testing → Step y (get_test y)
  yields : y.coro ≡ yielding → Step y (record y { coro = suspended })
  -- The thread that entered the coroutine has the control again and clears the lock.
  unlocks : y.coro ≡ suspended → y.is_locked ≡ true → Step y (record y { is_locked = false })
  resumes : y.handler ≡ locking → y.is_locked ≡ false → Step y (resume y)
  takes : {r : Result} → y.coro ≡ taking → y.result ≡ some r → Step y (take r y)
  ends : y.coro ≡ running → Step y (record y { coro = done })

pub data Reach : Yield → Type 0 where
  here : Reach launched
  next : {y z : Yield} → Reach y → Step y z → Reach z
