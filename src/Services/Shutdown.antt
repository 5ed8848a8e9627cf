-- ===== src/Services/Shutdown.antt =====
-- execution_context.h: `shutdown_context`, `destroy_context`, the destructor and `notify_fork`. The
-- virtual functions of a service are events, by its address.
use executors.Base.{
  ℕ, zero, suc, ◌<◌, ◌≤◌, ◌≡◌, refl, ap, ◌∙◌, Option, none, some, List, [], ◌∷◌, ◌++◌, true, false,
  arith, if◌then◌else◌, length, All,
}
use executors.Services.{Service, addresses}

pub data Event : Type 0 where
  shuts_down : ℕ → Event  -- `shutdown_service`
  deletes : ℕ → Event  -- the destructor
  notifies : ℕ → Event  -- `notify_fork`

abbrev marked : Service → Service
marked s = record s { has_shutdown = true }

-- `shutdown_context`
unfoldable pub shutdown_context : List Service → List Service × List Event
shutdown_context [] = ([], [])
shutdown_context (s ∷ ss) =
    let rest = shutdown_context ss in
    if s.has_shutdown
    then (s ∷ rest.0, rest.1)
    else (marked s ∷ rest.0, shuts_down s.address ∷ rest.1)

-- `destroy_context`
pub destroy_context : List Service → List Event
destroy_context [] = []
destroy_context (s ∷ ss) = deletes s.address ∷ destroy_context ss

-- The destructor of `execution_context`.
pub destructor : List Service → List Event
unfolding shutdown_context destroy_context
destructor ss = let shut = shutdown_context ss in shut.1 ++ destroy_context shut.0

pub data ForkEvent : Type 0 where
  prepare : ForkEvent
  parent : ForkEvent
  child : ForkEvent

-- The copy of the services, and an element of it.
unfoldable pub nth : ℕ → List ℕ → Option ℕ
nth i [] = none
nth zero (s ∷ ss) = some s
nth (suc i) (s ∷ ss) = nth i ss

notify_forwards : List ℕ → List Event
notify_forwards [] = []
notify_forwards (s ∷ ss) = notifies s ∷ notify_forwards ss

-- The loop from `i` down to 1; `none` is an index beyond the end.
notify_backwards : ℕ → List ℕ → Option (List Event)
unfolding nth
notify_backwards zero ss = some []
notify_backwards (suc i) ss =
    let rest = notify_backwards i ss in
    elim (nth i ss) [
      | none ↦ none
      | some s ↦ elim rest [ none ↦ none | some events ↦ some (notifies s ∷ events) ]
    ]

-- `notify_fork`
pub notify_fork : ForkEvent → List Service → Option (List Event)
unfolding notify_forwards notify_backwards
notify_fork prepare ss = some (notify_forwards (addresses ss))
notify_fork _ ss = notify_backwards (length (addresses ss)) (addresses ss)

abbrev pub events_of : (ℕ → Event) → List Service → List Event
events_of event [] = []
events_of event (s ∷ ss) = event s.address ∷ events_of event ss

abbrev pub reversed : List Event → List Event
reversed [] = []
reversed (e ∷ es) = reversed es ++ e ∷ []

abbrev pub IsUp : Service → Type 0
IsUp s = s.has_shutdown ≡ false

shutdown_context-IsUp :
    (ss : List Service) → All IsUp ss → (shutdown_context ss).1 ≡ events_of shuts_down ss
unfolding shutdown_context
shutdown_context-IsUp [] h = refl
shutdown_context-IsUp (s ∷ ss) h = ground (arith, shutdown_context-IsUp ss h.1, h.0)

destroy-shutdown :
    (ss : List Service) → destroy_context (shutdown_context ss).0 ≡ events_of deletes ss
unfolding shutdown_context destroy_context
destroy-shutdown [] = refl
destroy-shutdown (s ∷ ss) = ground (arith, destroy-shutdown ss)

-- The destructor of a context with services that are all up shuts every one down, and then deletes
-- every one, both from the last one registered to the first one.
pub destructor_lem :
    (ss : List Service)
    → All IsUp ss
    → destructor ss ≡ events_of shuts_down ss ++ events_of deletes ss
unfolding destructor
destructor_lem ss h = cc (shutdown_context-IsUp ss h, destroy-shutdown ss)

notify_forwards_lem : (ss : List Service) → notify_forwards (addresses ss) ≡ events_of notifies ss
unfolding notify_forwards
notify_forwards_lem [] = refl
notify_forwards_lem (s ∷ ss) = ap (λ es. notifies s.address ∷ es) (notify_forwards_lem ss)

abbrev prefix : ℕ → List ℕ → List ℕ
prefix zero xs = []
prefix (suc i) [] = []
prefix (suc i) (x ∷ xs) = x ∷ prefix i xs

-- The element at `i` ends the prefix of `i + 1` elements.
record IsNth (i : ℕ) (xs : List ℕ) : Type 0 where
  element : ℕ
  found : nth i xs ≡ some element
  last :
      reversed (notify_forwards (prefix (suc i) xs))
      ≡ notifies element ∷ reversed (notify_forwards (prefix i xs))

length-IsNth : (i : ℕ) (xs : List ℕ) → i < length xs → IsNth i xs
unfolding nth notify_forwards
length-IsNth i [] lt = absurd (omega arith)
length-IsNth zero (x ∷ xs) lt = record { element = x; found = refl; last = refl }
length-IsNth (suc i) (x ∷ xs) lt =
    let r = length-IsNth i xs (omega arith) in
    record { element = r.element; found = r.found; last = ap (λ es. es ++ notifies x ∷ []) r.last }

notify_backwards-prefix :
    (i : ℕ) (xs : List ℕ)
    → i ≤ length xs
    → notify_backwards i xs ≡ some (reversed (notify_forwards (prefix i xs)))
unfolding notify_backwards notify_forwards
notify_backwards-prefix zero xs le = refl
notify_backwards-prefix (suc i) xs le =
    let r = length-IsNth i xs (omega arith) in
    ground (arith, r.found, r.last, notify_backwards-prefix i xs (omega arith))

prefix-length : (xs : List ℕ) → prefix (length xs) xs ≡ xs
prefix-length [] = refl
prefix-length (x ∷ xs) = ap (λ l. x ∷ l) (prefix-length xs)

-- `notify_fork` reaches every service once: for `prepare` from the last one registered to the first,
-- and for any other event in the opposite order; no index of the copy is beyond its end.
pub notify_fork_lem :
    (event : ForkEvent) (ss : List Service)
    → notify_fork event ss
      ≡ some (elim event [ prepare ↦ events_of notifies ss | _ ↦ reversed (events_of notifies ss) ])
unfolding notify_fork
notify_fork_lem event ss = all event
  where
    back :
        notify_backwards (length (addresses ss)) (addresses ss)
        ≡ some (reversed (events_of notifies ss))
    back =
        notify_backwards-prefix (length (addresses ss)) (addresses ss) (omega arith)
        ∙ ap (λ l. some (reversed (notify_forwards l))) (prefix-length (addresses ss))
        ∙ ap (λ es. some (reversed es)) (notify_forwards_lem ss)

    all :
        (e : ForkEvent)
        → notify_fork e ss
          ≡ some (elim e [ prepare ↦ events_of notifies ss | _ ↦ reversed (events_of notifies ss) ])
    all prepare = ap some (notify_forwards_lem ss)
    all parent = back
    all child = back
