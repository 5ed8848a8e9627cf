-- ===== src/Invoker/Kept.antt =====
-- The work that invokers hold on their executors.
use executors.Base.{
  ℕ, suc, ◌-◌, ◌<◌, ◌≡◌, refl, subst, sym, List, [], ◌∷◌, ◌++◌, Bool, true, false, Option-cases,
  inl, inr, arith, update, append_assoc, append-nil,
}
use executors.Invoker.{
  Stage, Passive, single, chained, Event, started, finished, dispatched, called, executor_of,
  make_passive, construct_passive, destroy_passive, dispatch_on, call_passive, submit, submit_to,
}

-- From the outstanding work on: no work is finished that was not started, nothing is dispatched to an
-- executor without outstanding work, and no work is left at the end.
unfoldable pub IsKept : (ℕ → ℕ) → List Event → Type 0
IsKept work [] = (e : ℕ) → work e ≡ 0
IsKept work (started e ∷ es) = IsKept (update work e (suc (work e))) es
IsKept work (finished e ∷ es) = (0 < work e) × IsKept (update work e (work e - 1)) es
IsKept work (dispatched e ∷ es) = (0 < work e) × IsKept work es
IsKept work (called e args ∷ es) = IsKept work es

-- The work that the tails hold, beside other work.
unfoldable pub with_tails : Passive → (ℕ → ℕ) → ℕ → ℕ
with_tails (single s) work = work
with_tails (chained s w p) work = let others = with_tails p work in update others w (suc (others w))

-- Events that take one amount of outstanding work to another.
Leads : (ℕ → ℕ) → List Event → (ℕ → ℕ) → Type 0
Leads work es after = (rest : List Event) → IsKept after rest → IsKept work (es ++ rest)

construct-Leads :
    (p : Passive) (work : ℕ → ℕ) → Leads work (construct_passive p) (with_tails p work)
unfolding Leads IsKept construct_passive with_tails
construct-Leads (single s) work rest k = k
construct-Leads (chained s w p) work rest k =
    subst (λ es. IsKept work es) (sym (append_assoc (construct_passive p) (started w ∷ []) rest))
      (construct-Leads p work (started w ∷ rest) k)

skip-Leads : (work : ℕ → ℕ) → Leads work [] work
unfolding Leads
skip-Leads work rest k = k

Leads-append :
    (a b c : ℕ → ℕ) (es fs : List Event) → Leads a es b → Leads b fs c → Leads a (es ++ fs) c
unfolding Leads
Leads-append a b c es fs h k rest kept =
    subst (λ x. IsKept a x) (sym (append_assoc es fs rest)) (h (fs ++ rest) (k rest kept))

pointwise : {f g : ℕ → ℕ} → ((j : ℕ) → f j ≡ g j) → f ≡ g
pointwise h = λ i j. h j i

abbrev bump : ℕ → (ℕ → ℕ) → ℕ → ℕ
bump w work = update work w (suc (work w))

-- Work that is finished is as it was before it was started.
finished-Leads : (w : ℕ) (work : ℕ → ℕ) → Leads (bump w work) (finished w ∷ []) work
unfolding Leads IsKept
finished-Leads w work rest k =
    (ground arith, subst (λ x. IsKept x rest) (pointwise (λ j. ground arith)) k)

tails_bump :
    (p : Passive) (w : ℕ) (work : ℕ → ℕ) (j : ℕ)
    → with_tails p (bump w work) j ≡ bump w (with_tails p work) j
unfolding with_tails
tails_bump (single s) w work j = refl
tails_bump (chained s v p) w work j = ground (arith, tails_bump p w work j, tails_bump p w work v)

destroy-Leads : (p : Passive) (work : ℕ → ℕ) → Leads (with_tails p work) (destroy_passive p) work
unfolding with_tails destroy_passive
destroy-Leads (single s) work = skip-Leads work
destroy-Leads (chained s w p) work =
    Leads-append (bump w (with_tails p work)) (with_tails p work) work (finished w ∷ [])
      (destroy_passive p) (finished-Leads w (with_tails p work)) (destroy-Leads p work)

-- A dispatch from a tail, whose work is finished after it.
dispatch-Leads :
    (b : Bool) (w : ℕ) (p : Passive) (work : ℕ → ℕ) (run : List Event)
    → ((base : ℕ → ℕ) → Leads (with_tails p base) run base)
    → Leads (bump w (with_tails p work)) (dispatch_on b w run) work
unfolding Leads IsKept
dispatch-Leads true w p work run h rest k = (
  ground arith,
  subst (λ x. IsKept x ((run ++ finished w ∷ []) ++ rest)) (pointwise (tails_bump p w work))
      (Leads-append (with_tails p (bump w work)) (bump w work) work run (finished w ∷ [])
        (h (bump w work)) (finished-Leads w work) rest k),
)
dispatch-Leads false w p work run h rest k = (
  ground arith,
  Leads-append (bump w (with_tails p work)) (with_tails p work) work (finished w ∷ []) run
      (finished-Leads w (with_tails p work)) (h work) rest k,
)

call-Leads :
    (inlines : ℕ → Bool) (e : ℕ) (p : Passive) (args : List ℕ) (work : ℕ → ℕ)
    → Leads (with_tails p work) (call_passive inlines e p args) work
unfolding with_tails call_passive Leads IsKept destroy_passive
call-Leads inlines e (single s) args work rest k = k
call-Leads inlines e (chained s w p) args work rest k = elim (Option-cases (s.call args)) [
  | inl h ↦ rw h (destroy-Leads (chained s w p) work rest k)
  | inr (r, h) ↦
      let all =
        dispatch-Leads (inlines w) w p work (call_passive inlines w p r)
          (λ base. call-Leads inlines w p r base) in
      rw h (all rest k)
]

started-Leads : (w : ℕ) (work : ℕ → ℕ) → Leads work (started w ∷ []) (bump w work)
unfolding Leads IsKept
started-Leads w work rest k = k

whole-IsKept : (es : List Event) → Leads (λ e. 0) es (λ e. 0) → IsKept (λ e. 0) es
unfolding Leads IsKept
whole-IsKept es h = subst (λ x. IsKept (λ e. 0) x) (append-nil es) (h [] (λ e. refl))

-- Whatever executors run inside `dispatch`, and wherever a function object throws: the work that `post`,
-- `dispatch` and `defer` start for the later function objects is outstanding until each is dispatched to its
-- executor, and in the end all of it is finished, and nothing else; also if an executor is given.
pub submit-IsKept :
    (inlines : ℕ → Bool) (system : ℕ) (s : Stage) (ts : List Stage)
    → IsKept (λ e. 0) (submit inlines system s ts) × IsKept (λ e. 0) (submit_to inlines system s ts)
unfolding submit submit_to
submit-IsKept inlines system s ts =
    let head = make_passive system s ts in
    let w = executor_of head system in
    let none_yet : ℕ → ℕ = λ e. 0 in
    let held = with_tails head none_yet in
    let built = construct-Leads head none_yet in
    (
      whole-IsKept (construct_passive head ++ call_passive inlines w head []) (
          Leads-append none_yet held none_yet (construct_passive head)
            (call_passive inlines w head []) built (call-Leads inlines w head [] none_yet)),
      whole-IsKept
          ((construct_passive head ++ started w ∷ [])
            ++ dispatch_on (inlines w) w (call_passive inlines w head []))
          (Leads-append none_yet (bump w held) none_yet (construct_passive head ++ started w ∷ [])
            (dispatch_on (inlines w) w (call_passive inlines w head []))
            (Leads-append none_yet held (bump w held) (construct_passive head) (started w ∷ [])
              built (started-Leads w held))
            (dispatch-Leads (inlines w) w head none_yet (call_passive inlines w head [])
              (λ base. call-Leads inlines w head [] base))),
    )
