-- ===== src/Examples/Chains.antt =====
-- Two function objects, of which the second is associated with the executor 5.
use executors.Base.{ℕ, ◌≡◌, [], ◌∷◌, some, none, false, Bool}
use executors.Invoker.{Stage, submit, submit_to}
use executors.Invoker.Calls.{calls, path, submit-path}
use executors.Invoker.Kept.{IsKept, submit-IsKept}

abbrev first_stage : Stage
first_stage = record { own = none; call = λ args. some (7 ∷ args) }

abbrev second_stage : Stage
second_stage = record { own = some 5; call = λ args. none }

abbrev queues : ℕ → Bool
queues e = false

submit-path_example :
    (calls (submit queues 1 first_stage (second_stage ∷ []))
      ≡ path 1 first_stage (second_stage ∷ []) [])
    × (calls (submit_to queues 1 first_stage (second_stage ∷ []))
        ≡ path 1 first_stage (second_stage ∷ []) [])
submit-path_example = submit-path queues 1 first_stage (second_stage ∷ [])

submit-IsKept_example :
    IsKept (λ e. 0) (submit queues 1 first_stage (second_stage ∷ []))
    × IsKept (λ e. 0) (submit_to queues 1 first_stage (second_stage ∷ []))
submit-IsKept_example = submit-IsKept queues 1 first_stage (second_stage ∷ [])
