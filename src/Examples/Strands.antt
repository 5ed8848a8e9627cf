-- ===== src/Examples/Strands.antt =====
-- A strand with two operations: 5 is handed to the executor, and 6 waits.
use executors.Base.{ℕ, ◌≡◌, refl, [], ◌∷◌, arith}
use executors.Strand.{
  fresh, accept, push_ready, pop_ready, exit, outside, System, accepts, pushes, schedules, invokes,
  pops, completes, drains, exits, Reach, here, next,
}
use executors.Strand.Safety.{IsOrdered, mutual_exclusion, Reach-IsOrdered}

-- Activity 1 runs operation 5, while 6 waits.
record Scene : Type 0 where
  system : System
  reached : Reach 2 system

abbrev busy : Scene
unfolding fresh accept push_ready pop_ready
busy = record {
  system = _;
  reached =
      next
        (next
          (next
            (next (next (next here (accepts 0 5 (omega arith) refl)) (pushes 0 (omega arith) refl))
              (schedules 0 (omega arith) refl))
            (accepts 0 6 (omega arith) refl))
          (invokes 1 (omega arith) refl refl))
        (pops 1 (omega arith) refl refl);
}

abbrev quiet : Scene
unfolding fresh accept push_ready pop_ready exit
quiet = record {
  system = _;
  reached =
      next
        (next
          (next
            (next
              (next
                (next (next here (accepts 0 5 (omega arith) refl)) (pushes 0 (omega arith) refl))
                (schedules 0 (omega arith) refl))
              (invokes 1 (omega arith) refl refl))
            (pops 1 (omega arith) refl refl))
          (completes 1 (omega arith) refl))
        (drains 1 (omega arith) refl refl);
}

abbrev over : Scene
unfolding fresh accept push_ready pop_ready exit
over = record { system = _; reached = next quiet.reached (exits 1 (omega arith) refl) }

mutual_exclusion_example : ◌≡◌ {A = ℕ} 1 1
unfolding fresh accept push_ready pop_ready
mutual_exclusion_example =
    mutual_exclusion busy.system 1 1 busy.reached (omega arith) (omega arith) refl refl

Reach-IsOrdered_example : IsOrdered 2 busy.system
Reach-IsOrdered_example = Reach-IsOrdered busy.system busy.reached

busy_waits : (busy.system.started ≡ 5 ∷ []) × (busy.system.strand.waiting_queue ≡ 6 ∷ [])
unfolding fresh accept push_ready pop_ready
busy_waits = (refl, refl)

over_outside : (i : ℕ) → over.system.pc i ≡ outside
unfolding fresh accept push_ready pop_ready exit
over_outside i = ground arith
