-- ===== src/Examples/Promises.antt =====
-- A function that completes its handler with 7, and then throws.
use executors.Base.{◌≡◌, [], ◌∷◌}
use executors.Promise.{pending, plain, completes, throws, invoke, get}
use executors.Promise.Delivery.{delivered, escaped, get-invoke}

get-invoke_example :
    (get (invoke (completes plain 7 ∷ throws 3 ∷ []) pending).0
      ≡ get (delivered (completes plain 7 ∷ throws 3 ∷ [])))
    × ((invoke (completes plain 7 ∷ throws 3 ∷ []) pending).1
        ≡ escaped (completes plain 7 ∷ throws 3 ∷ []))
get-invoke_example = get-invoke (completes plain 7 ∷ throws 3 ∷ [])
