-- ===== src/Pipeline/Wakeup.antt =====
-- What the stages of a pipeline know of each other: who has stopped, who has read all, who waits.
use executors.Base.{ℕ, zero, suc, ◌≤◌, ◌≡◌, refl, List, [], Bool, true, false, arith, ◌⊎◌, inl, inr}
use executors.Pipeline.{
  Pc, popping, waiting, pushing, stopping, finished, Pipe, set_queue, push, stop, drop_front, Step,
  pops, waits, ends, wakes, pushes, goes_on, stops, pipeline, Reach, here, next,
}

module _ {A : Type 0} where
  abbrev pub is_finished : Pc A → Bool
  is_finished finished = true
  is_finished popping = false
  is_finished waiting = false
  is_finished (pushing values) = false
  is_finished stopping = false

  -- It will not pop any more.
  abbrev pub is_over : Pc A → Bool
  is_over finished = true
  is_over stopping = true
  is_over popping = false
  is_over waiting = false
  is_over (pushing values) = false

  abbrev pub is_reading : Pc A → Bool
  is_reading popping = true
  is_reading waiting = true
  is_reading finished = false
  is_reading stopping = false
  is_reading (pushing values) = false

  pub record IsOrderly (p : Pipe A) : Type 0 where
    pub stopped : (j : ℕ) → (p.queues j).is_stopped ≡ is_finished (p.stages j)
    pub drained :
        (j : ℕ)
        → is_over (p.stages (suc j)) ≡ true
        → ((p.queues j).items ≡ []) × ((p.queues j).is_stopped ≡ true)
    pub idle :
        (j : ℕ)
        → p.stages (suc j) ≡ waiting
        → ((p.queues j).items ≡ []) × ((p.queues j).is_stopped ≡ false)
    pub first : is_reading (p.stages 0) ≡ false

  Step-IsOrderly :
      {process : ℕ → A → List A} {last : ℕ} (p q : Pipe A)
      → Step process last p q
      → IsOrderly p
      → IsOrderly q
  unfolding drop_front push stop set_queue
  Step-IsOrderly p q (pops j le s h) o = record {
    stopped = λ i. ground (arith, o.stopped i, s);
    drained = λ i e. ground (arith, o.drained i, o.drained (suc j), s, e);
    idle = λ i e. ground (arith, o.idle i, e, h);
    first = ground (arith, o.first);
  }
  Step-IsOrderly p q (waits j le s h h') o = record {
    stopped = λ i. ground (arith, o.stopped i, s);
    drained = λ i e. ground (arith, o.drained i, e);
    idle = λ i e. ground (arith, o.idle i, e, h, h');
    first = ground (arith, o.first);
  }
  Step-IsOrderly p q (ends j le s h h') o = record {
    stopped = λ i. ground (arith, o.stopped i, s);
    drained = λ i e. ground (arith, o.drained i, e, h, h');
    idle = λ i e. ground (arith, o.idle i, e, h, h');
    first = ground (arith, o.first);
  }
  Step-IsOrderly p q (wakes j le s) o = record {
    stopped = λ i. ground (arith, o.stopped i, s);
    drained = λ i e. ground (arith, o.drained i, e);
    idle = λ i e. ground (arith, o.idle i, e);
    first = ground (arith, o.first, s);
  }
  Step-IsOrderly p q (pushes j le s) o = record {
    stopped = λ i. ground (arith, o.stopped i, s);
    drained = λ i e. ground (arith, o.drained i, o.stopped j, s, e);
    idle = λ i e. ground (arith, o.idle i, e, s);
    first = ground (arith, o.first, s);
  }
  Step-IsOrderly p q (goes_on zero le s) o = record {
    stopped = λ i. ground (arith, o.stopped i, s);
    drained = λ i e. ground (arith, o.drained i, e);
    idle = λ i e. ground (arith, o.idle i, e);
    first = refl;
  }
  Step-IsOrderly p q (goes_on (suc j) le s) o = record {
    stopped = λ i. ground (arith, o.stopped i, s);
    drained = λ i e. ground (arith, o.drained i, e);
    idle = λ i e. ground (arith, o.idle i, e);
    first = ground (arith, o.first);
  }
  Step-IsOrderly p q (stops j le s) o = record {
    stopped = λ i. ground (arith, o.stopped i, s);
    drained = λ i e. ground (arith, o.drained i, e, s);
    idle = λ i e. ground (arith, o.idle i, e, s);
    first = ground (arith, o.first, s);
  }

  start-IsOrderly : (input : List A) → IsOrderly (pipeline input)
  unfolding pipeline
  start-IsOrderly input = record {
    stopped = λ i. ground arith;
    drained = λ i e. absurd (ground (arith, e));
    idle = λ i e. absurd (ground (arith, e));
    first = refl;
  }

  pub Reach-IsOrderly :
      {process : ℕ → A → List A} {last : ℕ} {input : List A} (p : Pipe A)
      → Reach process last input p
      → IsOrderly p
  Reach-IsOrderly {input = input} p here = start-IsOrderly input
  Reach-IsOrderly q (next {p} r s) = Step-IsOrderly p q s (Reach-IsOrderly p r)

-- No wake-up is lost: when every stage waits or is at its end, every stage is at its end.
pub Reach-IsAwake :
    {A : Type 0} (process : ℕ → A → List A) (last : ℕ) (input : List A) (p : Pipe A) (j : ℕ)
    → Reach process last input p
    → ((i : ℕ) → i ≤ last → (p.stages i ≡ waiting) ⊎ (p.stages i ≡ finished))
    → j ≤ last
    → p.stages j ≡ finished
Reach-IsAwake process last input p zero r h le = elim (h zero le) [
  | inl e ↦ absurd (ground (arith, (Reach-IsOrderly p r).first, e))
  | inr e ↦ e
]
Reach-IsAwake process last input p (suc j) r h le = elim (h (suc j) le) [
  | inl e ↦
      let o = Reach-IsOrderly p r in
      let before = Reach-IsAwake process last input p j r h (omega arith) in
      absurd (ground (arith, o.stopped j, o.idle j e, before))
  | inr e ↦ e
]
