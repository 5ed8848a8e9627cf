-- ===== src/Pipeline.antt =====
-- src/examples/executor/pipeline.cpp: the queues between the stages of a pipeline, and the stages, each on
-- a thread of its own. The stage `j` writes the queue `j`, which the next one reads; the stage 0 is the
-- first. A stage is a loop that pops a value and pushes what `process` makes of it; what the last stage
-- prints is its queue, which nobody reads. Each section under the mutex of a queue is one step.
pub mod Content
pub mod Order
pub mod Wakeup
pub mod Lines
use executors.Base.{ℕ, zero, suc, ◌<◌, ◌≤◌, ◌≡◌, List, [], ◌∷◌, ◌++◌, Bool, true, false, update}

-- A `queue_impl`.
pub record Queue (A : Type 0) : Type 0 where
  pub items : List A
  pub is_stopped : Bool

-- Where the function of a stage stands: before the condition of `pop`, in its `wait`, before the pushes of
-- some values, before `out.stop()`, or at the end.
pub data Pc (A : Type 0) : Type 0 where
  popping : Pc A
  waiting : Pc A
  pushing : List A → Pc A
  stopping : Pc A
  finished : Pc A

pub record Pipe (A : Type 0) : Type 0 where
  pub queues : ℕ → Queue A
  pub stages : ℕ → Pc A

module _ {A : Type 0} where
  -- A thread that is notified goes back to the condition of `pop`.
  abbrev pub wake : Pc A → Pc A
  wake waiting = popping
  wake popping = popping
  wake (pushing values) = pushing values
  wake stopping = stopping
  wake finished = finished

  abbrev pub set_stage : ℕ → Pc A → Pipe A → Pipe A
  set_stage j pc p = record p { stages = update p.stages j pc }

  -- A change of the queue of the stage `j`, with `notify_one` for the stage that reads it.
  unfoldable pub set_queue : ℕ → Queue A → Pipe A → Pipe A
  set_queue j q p = record {
    queues = update p.queues j q;
    stages = update p.stages (suc j) (wake (p.stages (suc j)));
  }

  unfoldable pub push : ℕ → A → Pipe A → Pipe A
  unfolding set_queue
  push j value p = set_queue j (record (p.queues j) { items = (p.queues j).items ++ value ∷ [] }) p

  unfoldable pub stop : ℕ → Pipe A → Pipe A
  unfolding set_queue
  stop j p = set_queue j (record (p.queues j) { is_stopped = true }) p

  -- The queue, less the value that `pop` took.
  unfoldable pub drop_front : ℕ → List A → Pipe A → Pipe A
  drop_front j rest p = record p {
    queues = update p.queues j (record (p.queues j) { items = rest });
  }

  -- Between the values of one input, the first stage goes on to its end, and the others pop again.
  abbrev pub after_pushes : ℕ → Pc A
  after_pushes zero = stopping
  after_pushes (suc j) = popping

-- `last` is the last stage.
pub data Step {A : Type 0} (process : ℕ → A → List A) (last : ℕ) (p : Pipe A)
    : Pipe A → Type 0 where
  -- `pop` of the stage after `j`.
  pops :
      (j : ℕ) {value : A} {rest : List A}
      → suc j ≤ last
      → p.stages (suc j) ≡ popping
      → (p.queues j).items ≡ value ∷ rest
      → Step process last p
          (set_stage (suc j) (pushing (process (suc j) value)) (drop_front j rest p))
  waits :
      (j : ℕ)
      → suc j ≤ last
      → p.stages (suc j) ≡ popping
      → (p.queues j).items ≡ []
      → (p.queues j).is_stopped ≡ false
      → Step process last p (set_stage (suc j) waiting p)
  ends :
      (j : ℕ)
      → suc j ≤ last
      → p.stages (suc j) ≡ popping
      → (p.queues j).items ≡ []
      → (p.queues j).is_stopped ≡ true
      → Step process last p (set_stage (suc j) stopping p)
  -- `wait` returns without a notification.
  wakes : (j : ℕ) → j ≤ last → p.stages j ≡ waiting → Step process last p (set_stage j popping p)
  pushes :
      (j : ℕ) {value : A} {rest : List A}
      → j ≤ last
      → p.stages j ≡ pushing (value ∷ rest)
      → Step process last p (push j value (set_stage j (pushing rest) p))
  goes_on :
      (j : ℕ)
      → j ≤ last
      → p.stages j ≡ pushing []
      → Step process last p (set_stage j (after_pushes j) p)
  stops :
      (j : ℕ)
      → j ≤ last
      → p.stages j ≡ stopping
      → Step process last p (stop j (set_stage j finished p))

module _ {A : Type 0} where
  abbrev pub first_pc : List A → ℕ → Pc A
  first_pc input zero = pushing input
  first_pc input (suc j) = popping

  -- `pipeline`, of a first stage that pushes the values of `input`.
  unfoldable pub pipeline : List A → Pipe A
  pipeline input = record {
    queues = λ j. record { items = []; is_stopped = false };
    stages = first_pc input;
  }

pub data Reach {A : Type 0} (process : ℕ → A → List A) (last : ℕ) (input : List A)
    : Pipe A → Type 0 where
  here : Reach process last input (pipeline input)
  next :
      {p q : Pipe A}
      → Reach process last input p
      → Step process last p q
      → Reach process last input q
