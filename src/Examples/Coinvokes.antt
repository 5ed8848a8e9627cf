-- ===== src/Examples/Coinvokes.antt =====
-- Two function objects that run at the same time, with one that takes their results.
use executors.Base.{
  ℕ, ◌≡◌, refl, arith, [], ◌∷◌, true, none, some, Ensures, ◌+◌, suc, zero, ◌<◌, List,
}
use executors.Coinvoker.{
  Machine, Reach, here, next, stores, completes, releases, prime, set_result, complete, release,
  dispatch, gather, completed,
}
use executors.Coinvoker.Account.{joined}
use executors.Coinvoker.Delivery.{
  Reach-IsDelivered, holding-IsSafe, storing-IsSafe, complete-released,
}

record Scene : Type 0 where
  machine : Machine
  reached : Reach 2 machine

abbrev launched : Scene
unfolding prime
launched = record { machine = _; reached = here refl }

-- The head 0 gives 7 and 8.
abbrev stored : Scene
unfolding prime set_result
stored = record {
  machine = _;
  reached = next launched.reached (stores 0 (7 ∷ 8 ∷ []) (omega arith) refl refl);
}

abbrev half : Scene
unfolding prime set_result complete
half = record { machine = _; reached = next stored.reached (completes 0 (omega arith) refl refl) }

-- The head 1 gives 9.
abbrev both : Scene
unfolding prime set_result complete dispatch gather
both = record {
  machine = _;
  reached =
      next (next half.reached (stores 1 (9 ∷ []) (omega arith) refl refl))
        (completes 1 (omega arith) refl refl);
}

abbrev given : ℕ → List ℕ
given zero = 7 ∷ 8 ∷ []
given (suc i) = 9 ∷ []

given-completed : (i : ℕ) → i < 2 → both.machine.heads i ≡ completed (given i)
unfolding prime set_result complete dispatch gather
given-completed zero lt = refl
given-completed (suc zero) lt = refl
given-completed (suc (suc i)) lt = absurd (omega arith)

Reach-IsDelivered_example :
    (both.machine.tail.invoked ≡ joined 2 given ∷ []) × (both.machine.tail.is_deleted ≡ true)
unfolding prime set_result complete dispatch gather
Reach-IsDelivered_example = Reach-IsDelivered 2 both.machine given both.reached given-completed

holding-IsSafe_example :
    Ensures (λ t. t.results 1 ≡ some (9 ∷ [])) (set_result 1 (9 ∷ []) half.machine.tail)
    × Ensures (λ t. t.results ≡ half.machine.tail.results) (release half.machine.tail)
unfolding prime set_result complete
holding-IsSafe_example = holding-IsSafe 2 half.machine 1 (9 ∷ []) half.reached (omega arith) refl

storing-IsSafe_example :
    Ensures (λ t. t.pending + 1 ≡ stored.machine.tail.pending) (complete 2 stored.machine.tail)
unfolding prime set_result
storing-IsSafe_example =
    storing-IsSafe 2 stored.machine 0 (7 ∷ 8 ∷ []) stored.reached (omega arith) refl
      (λ j lt e. absurd (ground (arith, e)))

-- The head 1 is destroyed without a call.
abbrev abandoned : Scene
unfolding prime set_result release
abandoned = record {
  machine = _;
  reached = next stored.reached (releases 1 (omega arith) refl refl);
}

complete-released_example : complete 2 abandoned.machine.tail ≡ none
unfolding prime set_result release
complete-released_example =
    complete-released 2 abandoned.machine 0 1 (7 ∷ 8 ∷ []) abandoned.reached (omega arith)
      (omega arith) refl refl refl
