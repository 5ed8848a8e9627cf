-- ===== src/Pipeline/Content.antt =====
-- The values in a pipeline, from the last stage to the first.
use executors.Base.{
  ℕ, zero, suc, ◌<◌, ◌≤◌, ◌≡◌, refl, ap, sym, ◌∙◌, subst, List, [], ◌∷◌, ◌++◌, arith, append_assoc,
  append-nil,
}
use native.Mathlib.Decide.{dec_lt}
use executors.Pipeline.{
  Pc, popping, waiting, pushing, stopping, finished, Pipe, wake, set_stage, set_queue, push, stop,
  drop_front, Step, pops, waits, ends, wakes, pushes, goes_on, stops, pipeline, Reach, here, next,
}

module _ {A : Type 0} where
  abbrev pub pending : Pc A → List A
  pending popping = []
  pending waiting = []
  pending (pushing values) = values
  pending stopping = []
  pending finished = []

  -- What a stage makes of all values.
  unfoldable pub process_all : (A → List A) → List A → List A
  process_all f [] = []
  process_all f (x ∷ xs) = f x ++ process_all f xs

  pub process_all-append :
      (f : A → List A) (xs ys : List A)
      → process_all f (xs ++ ys) ≡ process_all f xs ++ process_all f ys
  unfolding process_all
  process_all-append f [] ys = refl
  process_all-append f (x ∷ xs) ys =
      rw (process_all-append f xs ys)
        (sym (append_assoc (f x) (process_all f xs) (process_all f ys)))

  pub pending-wake : (pc : Pc A) → pending (wake pc) ≡ pending pc
  pending-wake pc = ground arith

module _ {A : Type 0} (process : ℕ → A → List A) where
  -- What the stage `j` is to make of the values that are still to come to it.
  unfoldable pub below : ℕ → Pipe A → List A
  unfolding process_all
  below zero p = []
  below (suc j) p =
      process_all (process (suc j)) ((p.queues j).items ++ (pending (p.stages j) ++ below j p))

  -- What the stage `j` has pushed and will push, less what was popped.
  unfoldable pub total : ℕ → Pipe A → List A
  unfolding below
  total j p = (p.queues j).items ++ (pending (p.stages j) ++ below j p)

  -- What the stage `j` pushes, of an input.
  unfoldable pub expected : ℕ → List A → List A
  unfolding process_all
  expected zero input = input
  expected (suc j) input = process_all (process (suc j)) (expected j input)

  abbrev pub SameAt : Pipe A → Pipe A → ℕ → Type 0
  SameAt p q i =
      ((q.queues i).items ≡ (p.queues i).items) × (pending (q.stages i) ≡ pending (p.stages i))

  below-same : (j : ℕ) (p q : Pipe A) → ((i : ℕ) → i < j → SameAt p q i) → below j q ≡ below j p
  unfolding below
  below-same zero p q h = refl
  below-same (suc j) p q h =
      let (e, e') = h j (omega arith) in
      rw (e, e', below-same j p q (λ i lt. h i (omega arith))) refl

  total-same : (j : ℕ) (p q : Pipe A) → ((i : ℕ) → SameAt p q i) → total j q ≡ total j p
  unfolding total
  total-same j p q h = let (e, e') = h j in rw (e, e', below-same j p q (λ i lt. h i)) refl

  total-above :
      (l j : ℕ) (p q : Pipe A)
      → j ≤ l
      → total j q ≡ total j p
      → ((i : ℕ) → j < i → SameAt p q i)
      → total l q ≡ total l p
  unfolding total below
  total-above zero j p q le e h =
      let z : j ≡ 0 = omega arith in subst (λ k. total k q ≡ total k p) z e
  total-above (suc l) j p q le e h = elim (dec_lt j (suc l)) [
    | yes lt ↦
        let (e', e'') = h (suc l) lt in
        let same = total-above l j p q (omega arith) e h in
        rw (e', e'', ap (process_all (process (suc l))) same) refl
    | no ge ↦ let z : j ≡ suc l = omega arith in subst (λ k. total k q ≡ total k p) z e
  ]

  pops-total :
      (j : ℕ) (value : A) (rest : List A) (p : Pipe A)
      → p.stages (suc j) ≡ popping
      → (p.queues j).items ≡ value ∷ rest
      → total (suc j) (set_stage (suc j) (pushing (process (suc j) value)) (drop_front j rest p))
        ≡ total (suc j) p
  unfolding total below drop_front process_all
  pops-total j value rest p s h =
      let q = set_stage (suc j) (pushing (process (suc j) value)) (drop_front j rest p) in
      let e : (q.queues j).items ≡ rest = ground arith in
      let e' : (q.queues (suc j)).items ≡ (p.queues (suc j)).items = ground arith in
      let e'' : pending (q.stages j) ≡ pending (p.stages j) = ground arith in
      let e3 : pending (q.stages (suc j)) ≡ process (suc j) value = ground arith in
      let e4 : pending (p.stages (suc j)) ≡ [] = ground (arith, s) in
      let b = below-same j p q (λ i lt. (ground arith, ground arith)) in
      rw (e', e3, e4, e'', b, e, h) refl

  pushes-total :
      (j : ℕ) (value : A) (rest : List A) (p : Pipe A)
      → p.stages j ≡ pushing (value ∷ rest)
      → total j (push j value (set_stage j (pushing rest) p)) ≡ total j p
  unfolding total push set_queue
  pushes-total j value rest p s =
      let q = push j value (set_stage j (pushing rest) p) in
      let e : (q.queues j).items ≡ (p.queues j).items ++ value ∷ [] = ground arith in
      let e' : pending (q.stages j) ≡ rest = ground arith in
      let e4 : pending (p.stages j) ≡ value ∷ rest = ground (arith, s) in
      let b = below-same j p q (λ i lt. (ground arith, ground arith)) in
      rw (e, e', e4, b) (append_assoc (p.queues j).items (value ∷ []) (rest ++ below j p))

  Step-total : {last : ℕ} (p q : Pipe A) → Step process last p q → total last q ≡ total last p
  unfolding drop_front push stop set_queue
  Step-total {last} p q (pops j {value} {rest} le s h) =
      total-above last (suc j) p q le (pops-total j value rest p s h)
        (λ i lt. (ground arith, ground arith))
  Step-total {last} p q (waits j le s h h') = total-same last p q (λ i. (refl, ground (arith, s)))
  Step-total {last} p q (ends j le s h h') = total-same last p q (λ i. (refl, ground (arith, s)))
  Step-total {last} p q (wakes j le s) = total-same last p q (λ i. (refl, ground (arith, s)))
  Step-total {last} p q (goes_on zero le s) = total-same last p q (λ i. (refl, ground (arith, s)))
  Step-total {last} p q (goes_on (suc j) le s) =
      total-same last p q (λ i. (refl, ground (arith, s)))
  Step-total {last} p q (pushes j {value} {rest} le s) =
      total-above last j p q le (pushes-total j value rest p s)
        (λ i lt. (ground arith, ground (arith, pending-wake (p.stages i))))
  Step-total {last} p q (stops j le s) =
      total-same last p q (λ i. (ground arith, ground (arith, s, pending-wake (p.stages i))))

  start-total : (last : ℕ) (input : List A) → total last (pipeline input) ≡ expected last input
  unfolding total below expected pipeline
  start-total zero input = append-nil input
  start-total (suc l) input = ap (process_all (process (suc l))) (start-total l input)

  pub Reach-total :
      {last : ℕ} {input : List A} (p : Pipe A)
      → Reach process last input p
      → total last p ≡ expected last input
  Reach-total {last} {input} p here = start-total last input
  Reach-total {last} {input} q (next {p} r s) = Step-total p q s ∙ Reach-total p r
