-- ===== src/Examples/Pipelines.antt =====
-- A line through the stages of the pipeline.
use executors.Base.{ℕ, ◌≡◌, refl, arith, List, [], ◌∷◌, ◌++◌, map, suc, zero, inr, ◌≤◌, ◌⊎◌}
use executors.Pipeline.{
  Pipe, Reach, here, next, pops, waits, ends, pushes, goes_on, stops, pipeline, push, stop,
  set_queue, drop_front, waiting, finished,
}
use executors.Pipeline.Content.{expected}
use executors.Pipeline.Wakeup.{Reach-IsAwake}
use executors.Pipeline.Order.{Reach-IsPrefix, Reach-IsPrinted}
use executors.Pipeline.Lines.{Line, stages, long_lines, pipeline_lem}

abbrev long_line : Line
long_line = 1 ∷ 2 ∷ 3 ∷ 4 ∷ 5 ∷ 6 ∷ []

abbrev input : List Line
input = (7 ∷ []) ∷ long_line ∷ []

record Scene : Type 0 where
  pipe : Pipe Line
  reached : Reach (stages suc) 3 input pipe

-- `reader` has pushed both lines.
abbrev read : Scene
unfolding pipeline push stop set_queue stages drop_front
read = record {
  pipe = _;
  reached =
      next
        (next
          (next
            (next (next here (waits 0 (omega arith) refl refl refl)) (pushes 0 (omega arith) refl))
            (pushes 0 (omega arith) refl))
          (goes_on 0 (omega arith) refl))
        (stops 0 (omega arith) refl);
}

-- `filter` drops the first line.
abbrev filtered : Scene
unfolding pipeline push stop set_queue stages drop_front
filtered = record {
  pipe = _;
  reached =
      next
        (next
          (next
            (next
              (next
                (next (next read.reached (pops 0 (omega arith) refl refl))
                  (goes_on 1 (omega arith) refl))
                (pops 0 (omega arith) refl refl))
              (pushes 1 (omega arith) refl))
            (goes_on 1 (omega arith) refl))
          (ends 0 (omega arith) refl refl refl))
        (stops 1 (omega arith) refl);
}

abbrev raised : Scene
unfolding pipeline push stop set_queue stages drop_front
raised = record {
  pipe = _;
  reached =
      next
        (next
          (next
            (next (next filtered.reached (pops 1 (omega arith) refl refl))
              (pushes 2 (omega arith) refl))
            (goes_on 2 (omega arith) refl))
          (ends 1 (omega arith) refl refl refl))
        (stops 2 (omega arith) refl);
}

abbrev printed : Scene
unfolding pipeline push stop set_queue stages drop_front
printed = record {
  pipe = _;
  reached =
      next
        (next
          (next
            (next (next raised.reached (pops 2 (omega arith) refl refl))
              (pushes 3 (omega arith) refl))
            (goes_on 3 (omega arith) refl))
          (ends 2 (omega arith) refl refl refl))
        (stops 3 (omega arith) refl);
}

all_finished :
    (i : ℕ) → i ≤ 3 → (printed.pipe.stages i ≡ waiting) ⊎ (printed.pipe.stages i ≡ finished)
unfolding pipeline push stop set_queue stages drop_front
all_finished zero le = inr refl
all_finished (suc zero) le = inr refl
all_finished (suc (suc zero)) le = inr refl
all_finished (suc (suc (suc zero))) le = inr refl
all_finished (suc (suc (suc (suc i)))) le = absurd (omega arith)

Reach-IsAwake_example : printed.pipe.stages 2 ≡ finished
unfolding pipeline push stop set_queue stages drop_front
Reach-IsAwake_example =
    Reach-IsAwake (stages suc) 3 input printed.pipe 2 printed.reached all_finished (omega arith)

Reach-IsPrefix_example :
    (more : List Line) × ((filtered.pipe.queues 3).items ++ more ≡ expected (stages suc) 3 input)
unfolding pipeline push stop set_queue stages drop_front
Reach-IsPrefix_example = Reach-IsPrefix (stages suc) 3 input filtered.pipe filtered.reached

Reach-IsPrinted_example : (printed.pipe.queues 3).items ≡ expected (stages suc) 3 input
unfolding pipeline push stop set_queue stages drop_front
Reach-IsPrinted_example = Reach-IsPrinted (stages suc) 3 input printed.pipe printed.reached refl

pipeline_lem_example : (printed.pipe.queues 3).items ≡ map (map suc) (long_lines input)
unfolding pipeline push stop set_queue stages drop_front
pipeline_lem_example = pipeline_lem suc input printed.pipe printed.reached refl
