-- ===== src/OpQueue/Calls.antt =====
-- The members of `__op_queue`, together.
use executors.Base.{ℕ, ◌<◌, ◌≡◌, some, List, [], ◌∷◌, ◌++◌, NotIn, tail, length}
use executors.OpQueue.{Links, OpQueue, pop, push, push_queue, destroy_all}
use executors.OpQueue.Refine.{
  Holds, Apart, push-Holds, pop-Holds, push_queue-Holds, destroy_all-Holds,
}

-- A queue that holds a list of operations does what a list does: `_Push` puts an operation, which is not
-- null and not in it, at the end; `_Pop` takes the first one off, if there is one; `_Push` of a queue that
-- shares no operation with it moves all of them to the end, in order, and leaves that one empty; and the
-- destructor destroys every operation once, in order, with more fuel than there are operations.
pub calls-Holds :
    (next : Links) (q r : OpQueue) (op fuel : ℕ) (xs ys : List ℕ)
    → Holds next q xs
    → Holds next r ys
    → 0 < op
    → NotIn op xs
    → Apart xs ys
    → length xs < fuel
    → Holds (push next q op).1 (push next q op).0 (xs ++ op ∷ [])
      × Holds (pop next q).1 (pop next q).0 (tail xs)
      × Holds (push_queue next q r).2 (push_queue next q r).0 (xs ++ ys)
      × Holds (push_queue next q r).2 (push_queue next q r).1 []
      × (destroy_all fuel next q ≡ some xs)
calls-Holds next q r op fuel xs ys hq hr pos out apart lt =
    let joined = push_queue-Holds next q r xs ys hq hr apart in
    (
      push-Holds next q op xs hq pos out,
      pop-Holds next q xs hq,
      joined.0,
      joined.1,
      destroy_all-Holds fuel next q xs hq lt,
    )
