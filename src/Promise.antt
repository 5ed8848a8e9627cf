-- ===== src/Promise.antt =====
-- include/experimental/bits/promise_handler.h: the handler that an asynchronous operation completes for
-- `use_future`, and the functions that its executor runs. The promise and the future of the standard library
-- share a state, which is set once: to set it again is an error, `promise_already_satisfied`.
pub mod Delivery
use executors.Base.{ℕ, Option, none, some, List, [], ◌∷◌, ◌==◌, if◌then◌else◌}

-- An exception that a function throws or that an `exception_ptr` points to, that of an error code, and that
-- of a promise that has been set before.
pub data Exception : Type 0 where
  user_exception : ℕ → Exception
  system_error : ℕ → Exception
  already_satisfied : Exception

-- The shared state.
pub data Shared : Type 0 where
  pending : Shared
  ready : ℕ → Shared
  failed : Exception → Shared

-- The first argument of the handler: none of the two types that count, an `error_code`, or an
-- `exception_ptr`.
pub data Status : Type 0 where
  plain : Status
  code : ℕ → Status
  pointer : Option ℕ → Status

-- What `operator()` of the three handlers sets.
unfoldable pub result_of : Status → ℕ → Shared
result_of plain v = ready v
result_of (code e) v = if e == 0 then ready v else failed (system_error e)
result_of (pointer none) v = ready v
result_of (pointer (some x)) v = failed (user_exception x)

-- The set of a state: the new one, and what is thrown.
abbrev pub set_state : Shared → Shared → Shared × Option Exception
set_state new pending = (new, none)
set_state new (ready v) = (ready v, some already_satisfied)
set_state new (failed x) = (failed x, some already_satisfied)

-- `operator()` of the handlers
unfoldable pub complete : Status → ℕ → Shared → Shared × Option Exception
unfolding result_of
complete status v s = set_state (result_of status v) s

-- What the function of an invoker does with the handler: it completes it, or throws.
pub data Action : Type 0 where
  completes : Status → ℕ → Action
  throws : ℕ → Action

-- The function, until it ends or something is thrown.
unfoldable pub run : List Action → Shared → Shared × Option Exception
unfolding complete
run [] s = (s, none)
run (throws x ∷ actions) s = (s, some (user_exception x))
run (completes status v ∷ actions) s =
    let (t, thrown) = complete status v s in
    elim thrown [ none ↦ run actions t | some x ↦ (t, some x) ]

-- `__promise_invoker::operator()`: the state, and what gets out of it.
abbrev pub catch_all : Shared × Option Exception → Shared × Option Exception
catch_all (s, none) = (s, none)
catch_all (s, some x) = set_state (failed x) s

unfoldable pub invoke : List Action → Shared → Shared × Option Exception
unfolding run
invoke actions s = catch_all (run actions s)

-- `get` of the future: the value or the exception, once there is one.
unfoldable pub get : Shared → Option Shared
get pending = none
get (ready v) = some (ready v)
get (failed x) = some (failed x)
