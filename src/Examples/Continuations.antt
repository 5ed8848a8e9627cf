-- ===== src/Examples/Continuations.antt =====
-- A continuation that is moved and assigned to.
use executors.Base.{◌≡◌, ◌⊎◌, refl, arith}
use executors.Continuation.{
  World, Reach, here, next, constructs, move_constructs, construct, move_construct, release,
}
use executors.Continuation.Ownership.{owners, Reach-IsOwned}

record Scene : Type 0 where
  world : World
  reached : Reach 2 world

abbrev moved : Scene
unfolding construct move_construct release
moved = record {
  world = _;
  reached =
      next
        (next here
          (constructs 0 (record { id = 3; signature = 1; target = 9 }) (omega arith) refl refl))
        (move_constructs 1 0 (omega arith) (omega arith) refl);
}

Reach-IsOwned_example :
    ((owners 2 3 moved.world ≡ 1) × (moved.world.deleted 3 ≡ 0))
    ⊎ ((owners 2 3 moved.world ≡ 0) × (moved.world.deleted 3 ≡ 1))
unfolding construct move_construct release
Reach-IsOwned_example = Reach-IsOwned 2 3 moved.world moved.reached refl
