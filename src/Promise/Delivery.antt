-- ===== src/Promise/Delivery.antt =====
-- What the future gets of a function that an invoker runs.
use executors.Base.{arith, zero, suc, ◌≡◌, refl, Option, none, some, List, [], ◌∷◌}
use executors.Promise.{
  Exception, user_exception, already_satisfied, Shared, pending, failed, system_error, ready, plain,
  code, pointer, result_of, complete, Action, completes, throws, run, invoke, get,
}

-- What the future is to get of the first thing that the function does: the value, unless it comes with an
-- error code other than 0 or with an exception, or with what is thrown.
abbrev pub delivered : List Action → Shared
delivered [] = pending
delivered (throws x ∷ actions) = failed (user_exception x)
delivered (completes plain v ∷ actions) = ready v
delivered (completes (code zero) v ∷ actions) = ready v
delivered (completes (code (suc e)) v ∷ actions) = failed (system_error (suc e))
delivered (completes (pointer none) v ∷ actions) = ready v
delivered (completes (pointer (some x)) v ∷ actions) = failed (user_exception x)

-- What is thrown by anything after a completion.
abbrev pub escaped : List Action → Option Exception
escaped (completes status v ∷ b ∷ actions) = some already_satisfied
escaped actions = none

-- The future of a new promise gets what the function does first: the value that it completes the handler with,
-- or the error if it completes it with one, or the exception that it throws; but what it does after it has completed the handler, a throw
-- or another completion, gets out of the invoker as `promise_already_satisfied`.
pub get-invoke :
    (actions : List Action)
    → (get (invoke actions pending).0 ≡ get (delivered actions))
      × ((invoke actions pending).1 ≡ escaped actions)
unfolding invoke run complete result_of get
get-invoke [] = (refl, refl)
get-invoke (throws x ∷ actions) = (refl, refl)
get-invoke (completes plain v ∷ []) = (refl, refl)
get-invoke (completes plain v ∷ throws x ∷ actions) = (refl, refl)
get-invoke (completes plain v ∷ completes status w ∷ actions) = (refl, refl)
get-invoke (completes (code zero) v ∷ []) = (refl, refl)
get-invoke (completes (code zero) v ∷ throws x ∷ actions) = (refl, refl)
get-invoke (completes (code zero) v ∷ completes status w ∷ actions) = (refl, refl)
get-invoke (completes (code (suc e)) v ∷ []) = (ground arith, ground arith)
get-invoke (completes (code (suc e)) v ∷ throws x ∷ actions) = (ground arith, ground arith)
get-invoke (completes (code (suc e)) v ∷ completes status w ∷ actions) =
    (ground arith, ground arith)
get-invoke (completes (pointer none) v ∷ []) = (refl, refl)
get-invoke (completes (pointer none) v ∷ throws x ∷ actions) = (refl, refl)
get-invoke (completes (pointer none) v ∷ completes status w ∷ actions) = (refl, refl)
get-invoke (completes (pointer (some y)) v ∷ []) = (refl, refl)
get-invoke (completes (pointer (some y)) v ∷ throws x ∷ actions) = (refl, refl)
get-invoke (completes (pointer (some y)) v ∷ completes status w ∷ actions) = (refl, refl)
