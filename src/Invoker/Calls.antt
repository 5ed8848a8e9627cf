-- ===== src/Invoker/Calls.antt =====
-- Which stages are called, by which executors, and with what.
use executors.Base.{
  Option, ℕ, ◌≡◌, refl, ap, List, [], ◌∷◌, ◌++◌, Bool, true, false, none, some, arith, append-nil,
  ◌∙◌, Option-cases, inl, inr,
}
use executors.Invoker.{
  Stage, Passive, single, chained, Event, started, finished, dispatched, called, own_or,
  executor_of, make_passive, construct_passive, destroy_passive, dispatch_on, call_passive, submit,
  submit_to,
}

pub record Called : Type 0 where
  pub executor : ℕ
  pub args : List ℕ

abbrev pub calls_of : Event → List Called → List Called
calls_of (started e) cs = cs
calls_of (finished e) cs = cs
calls_of (dispatched e) cs = cs
calls_of (called e args) cs = record { executor = e; args = args } ∷ cs

unfoldable pub calls : List Event → List Called
calls [] = []
calls (e ∷ es) = calls_of e (calls es)

-- The first executor that one of the stages is associated with.
unfoldable pub first_own : ℕ → Stage → List Stage → ℕ
first_own system s [] = elim s.own [ none ↦ system | some e ↦ e ]
first_own system s (t ∷ ts) = elim s.own [ none ↦ first_own system t ts | some e ↦ e ]

-- The stages one after the other, each on the first executor that it or a later stage is associated with,
-- with what the stage before it gave, up to one that throws.
unfoldable pub path : ℕ → Stage → List Stage → List ℕ → List Called
unfolding first_own
path system s [] args = record { executor = first_own system s []; args = args } ∷ []
path system s (t ∷ ts) args =
    record { executor = first_own system s (t ∷ ts); args = args }
    ∷ elim (s.call args) [ none ↦ [] | some r ↦ path system t ts r ]

calls-append : (es fs : List Event) → calls (es ++ fs) ≡ calls es ++ calls fs
unfolding calls
calls-append [] fs = refl
calls-append (e ∷ es) fs = ground (arith, calls-append es fs)

construct-calls : (p : Passive) → calls (construct_passive p) ≡ []
unfolding calls construct_passive
construct-calls (single s) = refl
construct-calls (chained s w p) =
    calls-append (construct_passive p) (started w ∷ []) ∙ ground (arith, construct-calls p)

construct_started-calls : (p : Passive) (w : ℕ) → calls (construct_passive p ++ started w ∷ []) ≡ []
unfolding calls
construct_started-calls p w =
    calls-append (construct_passive p) (started w ∷ []) ∙ ground (arith, construct-calls p)

destroy-calls : (p : Passive) → calls (destroy_passive p) ≡ []
unfolding calls destroy_passive
destroy-calls (single s) = refl
destroy-calls (chained s w p) = destroy-calls p

dispatch-calls : (b : Bool) (w : ℕ) (es : List Event) → calls (dispatch_on b w es) ≡ calls es
unfolding calls
dispatch-calls false w es = refl
dispatch-calls true w es = calls-append es (finished w ∷ []) ∙ append-nil (calls es)

own_or-elim : (o : Option ℕ) (e : ℕ) → own_or o e ≡ (elim o [ none ↦ e | some f ↦ f ])
own_or-elim none e = refl
own_or-elim (some f) e = refl

make_passive-executor :
    (system : ℕ) (s : Stage) (ts : List Stage)
    → executor_of (make_passive system s ts) system ≡ first_own system s ts
unfolding executor_of make_passive first_own
make_passive-executor system s [] = own_or-elim s.own system
make_passive-executor system s (t ∷ ts) =
    ap (own_or s.own) (make_passive-executor system t ts)
    ∙ own_or-elim s.own (first_own system t ts)

called-path :
    (inlines : ℕ → Bool) (system : ℕ) (s : Stage) (ts : List Stage) (args : List ℕ)
    → calls (
        call_passive inlines
          (executor_of (make_passive system s ts) system)
          (make_passive system s ts)
          args)
      ≡ path system s ts args
unfolding call_passive make_passive path calls executor_of first_own
called-path inlines system s [] args = rw (own_or-elim s.own system) refl
called-path inlines system s (t ∷ ts) args = elim (Option-cases (s.call args)) [
  | inl h ↦
      rw
        (
          h,
          destroy-calls (make_passive system t ts),
          make_passive-executor system t ts,
          own_or-elim s.own (first_own system t ts),
        )
        refl
  | inr (r, h) ↦
      let w = executor_of (make_passive system t ts) system in
      let run = call_passive inlines w (make_passive system t ts) r in
      rw
        (
          h,
          dispatch-calls (inlines w) w run,
          called-path inlines system t ts r,
          make_passive-executor system t ts,
          own_or-elim s.own (first_own system t ts),
        )
        refl
]

-- `post`, `dispatch` and `defer` of function objects call them one after the other, each on the first
-- executor that it or a later one is associated with, with what the one before gave, up to one that throws;
-- also if an executor is given, and whether or not executors run functions inside `dispatch`.
pub submit-path :
    (inlines : ℕ → Bool) (system : ℕ) (s : Stage) (ts : List Stage)
    → (calls (submit inlines system s ts) ≡ path system s ts [])
      × (calls (submit_to inlines system s ts) ≡ path system s ts [])
unfolding submit submit_to
submit-path inlines system s ts =
    let head = make_passive system s ts in
    let w = executor_of head system in
    let run = call_passive inlines w head [] in
    let started_built = construct_started-calls head w in
    (
      calls-append (construct_passive head) run
          ∙ rw (construct-calls head) (called-path inlines system s ts []),
      calls-append (construct_passive head ++ started w ∷ []) (dispatch_on (inlines w) w run)
          ∙ rw (started_built, dispatch-calls (inlines w) w run)
              (called-path inlines system s ts []),
    )
