-- ===== src/Examples/Works.antt =====
-- Work of the executor 7, which the object 0 owns.
use executors.Base.{Ensures, refl, arith, true, update}
use executors.Work.{World, raw, work, start, construct}
use executors.Work.Balance.{
  construct_op, copy_op, run, Reach, begin, after, IsBalanced, Reach-IsPaired,
}

abbrev one : World
one = record {
  object = update (λ i. raw) 0 (work 7 true);
  started = update (λ e. 0) 7 1;
  finished = λ e. 0;
}

one-Reach : Reach 2 one
unfolding start run construct
one-Reach = after start one (construct_op 0 7) begin (omega arith, refl) refl

-- A second object takes a copy of it.
Reach-IsPaired_example : IsBalanced 2 one × Ensures (IsBalanced 2) (run (copy_op 1 0) one)
Reach-IsPaired_example =
    Reach-IsPaired 2 (copy_op 1 0) one one-Reach ((omega arith, refl), (omega arith, 7, true, refl))
