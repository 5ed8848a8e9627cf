-- ===== src/Examples/Targets.antt =====
-- Two executor objects of three; the first has a target whose implementation is at 5, the second has none.
use executors.Base.{Ensures, ℕ, ◌≡◌, refl, some, arith, Bool, ◌==◌, update}
use executors.Executor.{Target, deleted, counted, World, bad, start, construct, construct_from}
use executors.Executor.Ops.{IsCounted, copy_op, none_op, from_op, run}
use executors.Executor.Lifetime.{Reach, begin, after, Reach-IsCounted, IsExactAt, Reach-IsSafe}
use executors.Executor.Calls.{equals, has_target}
use executors.Executor.Equal.{eq_values, value_of, equals_lem}
use executors.Executor.Values.{view, value_step, run_lem}

abbrev target : Target
target = record { type_id = 4; value = 9 }

abbrev two : World
two = record {
  cell = update (λ p. deleted) 5 (counted target 1);
  holds = update (update (λ i. 0) 0 5) 1 bad;
}

two-Reach : Reach 3 two
unfolding start run construct construct_from
two-Reach =
    after _ two (none_op 1)
      (after start _ (from_op 0 5 target) begin ((omega arith, refl), (omega arith, refl)) refl)
      (omega arith, refl) refl

two-IsCounted : IsCounted 3 two
two-IsCounted = Reach-IsCounted 3 two (omega arith) two-Reach

-- A copy of the first.
Reach-IsSafe_example : IsExactAt 3 5 two × Ensures (IsExactAt 3 5) (run (copy_op 2 0) two)
Reach-IsSafe_example =
    Reach-IsSafe 3 5 (copy_op 2 0) two (omega arith) (omega arith) two-Reach
      ((omega arith, refl), (omega arith, omega arith))

abbrev three : World
three = record { cell = update two.cell 5 (counted target 2); holds = update two.holds 2 5 }

copied : run (copy_op 2 0) two ≡ some three
unfolding run
copied = ground arith

run_lem_example :
    view three.holds three.cell 2 ≡ value_step (copy_op 2 0) (view two.holds two.cell) 2
run_lem_example =
    run_lem 3 2 (copy_op 2 0) two three (omega arith) (omega arith)
      ((omega arith, refl), (omega arith, omega arith)) two-IsCounted copied

abbrev same_value : ℕ → ℕ → ℕ → Bool
same_value type a b = a == b

equals_lem_example :
    (equals same_value 1 0 two ≡ some (eq_values same_value (value_of 1 two) (value_of 0 two)))
    × (equals same_value 1 1 two ≡ has_target 1 two)
equals_lem_example =
    equals_lem same_value 3 1 0 two (λ t v. ground arith) (λ p. ground arith) two-IsCounted
      (omega arith, omega arith) (omega arith, omega arith)
