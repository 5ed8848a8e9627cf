-- ===== src/Invoker.antt =====
-- invoker.h, chain.h and the `__chain` of function_traits.h: what `post`, `dispatch`, `defer` and `chain` make
-- of several function objects, and what happens when it is called. A function object is a stage: it may be
-- associated with an executor, and it gives the arguments of the next stage, or throws. Executors are
-- numbers. Whether an executor runs a function inside `dispatch` is a parameter, `inlines`.
pub mod Calls
pub mod Kept
use executors.Base.{
  ℕ, zero, suc, ◌-◌, ◌<◌, ◌≡◌, List, [], ◌∷◌, ◌++◌, Bool, Option, none, some, if◌then◌else◌, update,
}

pub record Stage : Type 0 where
  pub own : Option ℕ
  pub call : List ℕ → Option (List ℕ)

-- A `__passive_invoker`. An `__active_invoker` is its `_M_passive` with the executor of its `_M_work`; a
-- tail is one.
pub data Passive : Type 0 where
  single : Stage → Passive
  chained : Stage → ℕ → Passive → Passive

-- What executors see.
pub data Event : Type 0 where
  started : ℕ → Event
  finished : ℕ → Event
  dispatched : ℕ → Event
  called : ℕ → List ℕ → Event

abbrev pub own_or : Option ℕ → ℕ → ℕ
own_or none e = e
own_or (some o) e = o

-- `associated_executor::get` of an invoker, for a default executor.
unfoldable pub executor_of : Passive → ℕ → ℕ
executor_of (single s) e = own_or s.own e
executor_of (chained s w p) e = own_or s.own (executor_of p e)

-- The constructor from tokens; the default is the system executor.
unfoldable pub make_passive : ℕ → Stage → List Stage → Passive
unfolding executor_of
make_passive system s [] = single s
make_passive system s (t ∷ ts) =
    let tail = make_passive system t ts in chained s (executor_of tail system) tail

-- Each active invoker starts work, once its tail is there.
unfoldable pub construct_passive : Passive → List Event
construct_passive (single s) = []
construct_passive (chained s w p) = construct_passive p ++ started w ∷ []

-- The destructors, of a tail that has not been called.
unfoldable pub destroy_passive : Passive → List Event
destroy_passive (single s) = []
destroy_passive (chained s w p) = finished w ∷ destroy_passive p

-- The call of an active invoker: its work is finished by its destructor, after `dispatch`.
abbrev pub dispatch_on : Bool → ℕ → List Event → List Event
dispatch_on inline w run =
    dispatched w ∷ (if inline then run ++ finished w ∷ [] else finished w ∷ run)

-- The call of a passive invoker by the executor `e`.
unfoldable pub call_passive : (ℕ → Bool) → ℕ → Passive → List ℕ → List Event
unfolding destroy_passive
call_passive inlines e (single s) args = called e args ∷ []
call_passive inlines e (chained s w p) args = called e args ∷ elim (s.call args) [
  | none ↦ finished w ∷ destroy_passive p
  | some r ↦ dispatch_on (inlines w) w (call_passive inlines w p r)
]

-- `post`, `dispatch` and `defer` without an executor: the passive invoker is given to its own executor.
unfoldable pub submit : (ℕ → Bool) → ℕ → Stage → List Stage → List Event
unfolding make_passive construct_passive call_passive
submit inlines system s ts =
    let head = make_passive system s ts in
    construct_passive head ++ call_passive inlines (executor_of head system) head []

-- With an executor, to which an active invoker is given, and which calls it.
unfoldable pub submit_to : (ℕ → Bool) → ℕ → Stage → List Stage → List Event
unfolding make_passive construct_passive call_passive
submit_to inlines system s ts =
    let head = make_passive system s ts in
    let w = executor_of head system in
    (construct_passive head ++ started w ∷ [])
    ++ dispatch_on (inlines w) w (call_passive inlines w head [])
