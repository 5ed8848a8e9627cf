-- ===== src/Examples/Coroutines.antt =====
-- A stackless coroutine that two threads resume, its body with two `await`s, and an operation that fails.
use executors.Base.{ℕ, zero, suc, ◌≡◌, ◌<◌, refl, arith, [], ◌∷◌, false, some, none, List, length}
use executors.Await.{
  Impl, Reach, here, next, resumes, returns, finishes, resume, return_from, finish_turn, outside,
}
use executors.Await.Turns.{Reach-IsResumed}
use executors.Await.Coroutine.{at, complete, nth, run}
use executors.Await.Segments.{IsBody, counted_from, run-counted_from}
use executors.Await.Handlers

record Scene : Type 0 where
  impl : Impl
  reached : Reach 2 impl

-- The thread 1 resumes the coroutine while the thread 0 is in its function.
abbrev resumed : Scene
unfolding resume return_from finish_turn
resumed = record {
  impl = _;
  reached = next (next here (resumes 0 (omega arith) refl)) (resumes 1 (omega arith) refl);
}

abbrev rested : Scene
unfolding resume return_from finish_turn
rested = record {
  impl = _;
  reached =
      next
        (next
          (next (next resumed.reached (returns 0 false (omega arith) refl))
            (finishes 0 (omega arith) refl))
          (returns 0 false (omega arith) refl))
        (finishes 0 (omega arith) refl);
}

all_outside : (i : ℕ) → i < 2 → rested.impl.threads i ≡ outside
unfolding resume return_from finish_turn
all_outside zero lt = refl
all_outside (suc zero) lt = refl
all_outside (suc (suc i)) lt = absurd (omega arith)

Reach-IsResumed_example : rested.impl.runs ≡ rested.impl.resumed
unfolding resume return_from finish_turn
Reach-IsResumed_example = Reach-IsResumed 2 rested.impl rested.reached all_outside refl

abbrev lines : List ℕ
lines = 12 ∷ 15 ∷ []

lines-IsBody : IsBody lines
unfolding nth
lines-IsBody = record {
  distinct = λ i j l e e'. distinct i j l e e';
  positive = λ i e. positive i e;
}
  where
    distinct : (i j l : ℕ) → nth lines i ≡ some l → nth lines j ≡ some l → i ≡ j
    distinct zero zero l e e' = refl
    distinct zero (suc zero) l e e' = absurd (ground (arith, e, e'))
    distinct zero (suc (suc j)) l e e' = absurd (ground (arith, e, e'))
    distinct (suc zero) zero l e e' = absurd (ground (arith, e, e'))
    distinct (suc zero) (suc zero) l e e' = refl
    distinct (suc zero) (suc (suc j)) l e e' = absurd (ground (arith, e, e'))
    distinct (suc (suc i)) j l e e' = absurd (ground (arith, e, e'))

    positive : (i : ℕ) → ¬ nth lines i ≡ some 0
    positive zero e = absurd (ground (arith, e))
    positive (suc zero) e = absurd (ground (arith, e))
    positive (suc (suc i)) e = absurd (ground (arith, e))

run-counted_from_example :
    run (suc (length lines)) lines (at 0) ≡ (counted_from 0 (suc (length lines)), complete)
run-counted_from_example = run-counted_from lines lines-IsBody

abbrev world : Handlers.World
world = record { impls = λ i. Handlers.new_shared; codes = λ i. 0; values = λ i. 0 }

abbrev context : Handlers.Context
context = record { impl = 1; error_code = none }
