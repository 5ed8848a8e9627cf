-- ===== src/Examples/Queues.antt =====
-- Operation queues: two queues in one memory, of the operations 1, 2 and of 7.
use executors.OpQueue.Calls.{calls-Holds}
use executors.Base.{◌≡◌, refl, some, [], ◌∷◌, ◌++◌, arith, update, tail}
use executors.OpQueue.{Links, OpQueue, pop, push, push_queue, destroy_all}
use executors.OpQueue.Refine.{Holds}

-- 1 → 2, and 7 alone.
abbrev links : Links
links = update (λ _. 0) 1 2

abbrev pair : OpQueue
pair = record { front = 1; back = 2 }

abbrev single : OpQueue
single = record { front = 7; back = 7 }

pair-Holds : Holds links pair (1 ∷ 2 ∷ [])
pair-Holds = record {
  front_first = refl;
  back_last = refl;
  chain = (omega arith, refl, (omega arith, tt), (omega arith, refl, tt, tt));
}

single-Holds : Holds links single (7 ∷ [])
single-Holds = record { front_first = refl; back_last = refl; chain = (omega arith, refl, tt, tt) }

calls-Holds_example :
    Holds (push links pair 9).1 (push links pair 9).0 ((1 ∷ 2 ∷ []) ++ 9 ∷ [])
    × Holds (pop links pair).1 (pop links pair).0 (tail (1 ∷ 2 ∷ []))
    × Holds
        (push_queue links pair single).2
        (push_queue links pair single).0
        ((1 ∷ 2 ∷ []) ++ 7 ∷ [])
    × Holds (push_queue links pair single).2 (push_queue links pair single).1 []
    × (destroy_all 3 links pair ≡ some (1 ∷ 2 ∷ []))
calls-Holds_example =
    calls-Holds links pair single 9 3 (1 ∷ 2 ∷ []) (7 ∷ []) pair-Holds single-Holds (omega arith)
      (omega arith, (omega arith, tt)) ((omega arith, tt), ((omega arith, tt), tt)) (omega arith)
