-- ===== src/Pipeline/Order.antt =====
-- What the last stage of a pipeline has printed.
use executors.Base.{ℕ, zero, suc, ◌≡◌, refl, ap, ◌∙◌, List, [], ◌++◌, arith, append-nil, sym}
use executors.Pipeline.{Pipe, finished, Reach}
use executors.Pipeline.Content.{pending, process_all, below, total, expected, Reach-total}
use executors.Pipeline.Wakeup.{IsOrderly, Reach-IsOrderly}

finished-below :
    {A : Type 0} (process : ℕ → A → List A) (j : ℕ) (p : Pipe A)
    → IsOrderly p
    → p.stages j ≡ finished
    → below process j p ≡ []
unfolding below process_all
finished-below process zero p o e = refl
finished-below process (suc j) p o e =
    let (empty, stopped) = o.drained j (ground (arith, e)) in
    let f : p.stages j ≡ finished = ground (arith, o.stopped j, stopped) in
    let g : pending (p.stages j) ≡ [] = ground (arith, f) in
    rw (empty, g, finished-below process j p o f) refl

-- What the stage `last` has printed is, in order, the beginning of what the stages make of the input, one
-- after the other.
pub Reach-IsPrefix :
    {A : Type 0} (process : ℕ → A → List A) (last : ℕ) (input : List A) (p : Pipe A)
    → Reach process last input p
    → (more : List A) × ((p.queues last).items ++ more ≡ expected process last input)
unfolding total
Reach-IsPrefix process last input p r = (_, Reach-total process p r)

-- When the function of the stage `last` has returned, it has printed all of what the stages make of the
-- input, one after the other, in order.
pub Reach-IsPrinted :
    {A : Type 0} (process : ℕ → A → List A) (last : ℕ) (input : List A) (p : Pipe A)
    → Reach process last input p
    → p.stages last ≡ finished
    → (p.queues last).items ≡ expected process last input
unfolding total
Reach-IsPrinted process last input p r e =
    let g : pending (p.stages last) ≡ [] = ground (arith, e) in
    let b = finished-below process last p (Reach-IsOrderly p r) e in
    let none : pending (p.stages last) ++ below process last p ≡ [] = rw (g, b) refl in
    sym (append-nil (p.queues last).items)
    ∙ ap (λ rest. (p.queues last).items ++ rest) (sym none)
    ∙ Reach-total process p r
