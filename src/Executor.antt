-- ===== src/Executor.antt =====
-- include/experimental/bits/executor.h: the polymorphic `executor`, which shares the implementation of
-- its target by a count. An executor object is a number, and `holds` gives its `_M_impl`, with 0 for
-- memory where no executor has been constructed. An implementation is its address; the one of no target and
-- that of the system executor are never deleted. `none` is undefined behaviour: the use of an
-- implementation that has been deleted, or of an executor that has not been constructed.
pub mod Counts
pub mod Ops
pub mod Lifetime
pub mod Calls
pub mod Equal
pub mod Kept
pub mod Values
use executors.Base.{
  ℕ, suc, ◌+◌, ◌-◌, ◌%◌, ◌^◌, Option, none, some, Bool, true, false, ◌==◌, ltb, if◌then◌else◌,
  update, ◌>>=◌,
}

-- The executor that an `executor` stands for: its type, and its value.
pub record Target : Type 0 where
  pub type_id : ℕ
  pub value : ℕ

-- The memory of an `__executor_impl`.
pub data Cell : Type 0 where
  deleted : Cell
  counted : Target → ℕ → Cell

pub record World : Type 0 where
  pub cell : ℕ → Cell
  pub holds : ℕ → ℕ

-- `__bad_executor_impl::_Create()` and `__executor_impl<system_executor>::_Create()`
abbrev pub bad : ℕ
bad = 1

abbrev pub system : ℕ
system = 2

-- A virtual call reaches one of the two, or an implementation with a count.
abbrev pub is_static : ℕ → Bool
is_static p = ltb p 3

unfoldable pub start : World
start = record { cell = λ p. deleted; holds = λ i. 0 }

abbrev pub set_holds : ℕ → ℕ → World → World
set_holds i p w = record w { holds = update w.holds i p }

abbrev pub set_cell : ℕ → Cell → World → World
set_cell p c w = record w { cell = update w.cell p c }

-- `_Clone`, where `_M_ref_count` is a `size_t`.
abbrev pub clone_cell : ℕ → Cell → World → Option World
clone_cell p deleted w = none
clone_cell p (counted t k) w = some (set_cell p (counted t ((k + 1) % 2 ^ 64)) w)

unfoldable pub clone : ℕ → World → Option World
clone p w = elim (is_static p) [ true ↦ some w | false ↦ clone_cell p (w.cell p) w ]

-- `_Destroy`
abbrev pub destroy_cell : ℕ → Cell → World → Option World
destroy_cell p deleted w = none
destroy_cell p (counted t k) w =
    let left = (k + 2 ^ 64 - 1) % 2 ^ 64 in
    some (set_cell p (if left == 0 then deleted else counted t left) w)

unfoldable pub destroy : ℕ → World → Option World
destroy p w = elim (is_static p) [ true ↦ some w | false ↦ destroy_cell p (w.cell p) w ]

-- A call on an object that has been constructed, or not.
abbrev pub on {ℓ} : {A : Type ℓ} → ℕ → World → Option A → Option A
on i w o = elim (w.holds i == 0) [ true ↦ none | false ↦ o ]

abbrev pub on_new {ℓ} : {A : Type ℓ} → ℕ → World → Option A → Option A
on_new i w o = elim (w.holds i == 0) [ true ↦ o | false ↦ none ]

-- The constructors: without a target, by copy, by move, and from an executor, whose implementation is
-- at the new address `p`. That of the system executor has no address of its own.
unfoldable pub construct : ℕ → World → Option World
construct i w = on_new i w (some (set_holds i bad w))

unfoldable pub construct_copy : ℕ → ℕ → World → Option World
unfolding clone
construct_copy i j w =
    on j w (on_new i w (clone (w.holds j) w >>= λ v. some (set_holds i (w.holds j) v)))

unfoldable pub construct_move : ℕ → ℕ → World → Option World
construct_move i j w = on j w (on_new i w (some (set_holds j bad (set_holds i (w.holds j) w))))

unfoldable pub construct_from : ℕ → ℕ → Target → World → Option World
construct_from i p t w = on_new i w (some (set_holds i p (set_cell p (counted t 1) w)))

unfoldable pub construct_system : ℕ → World → Option World
construct_system i w = on_new i w (some (set_holds i system w))

-- The destructor
unfoldable pub destruct : ℕ → World → Option World
unfolding destroy
destruct i w = on i w (destroy (w.holds i) w >>= λ v. some (set_holds i 0 v))

-- The assignments: by copy, by move, of `nullptr`, and of an executor with its new implementation.
unfoldable pub assign_copy : ℕ → ℕ → World → Option World
unfolding clone destroy
assign_copy i j w =
    on i w (on j w (clone (w.holds j) w >>= λ v. destroy (w.holds i) (set_holds i (w.holds j) v)))

unfoldable pub assign_move : ℕ → ℕ → World → Option World
unfolding destroy
assign_move i j w =
    on i w
      (on j w (destroy (w.holds i) (set_holds i (w.holds j) w) >>= λ v. some (set_holds j bad v)))

unfoldable pub assign_null : ℕ → World → Option World
unfolding destroy
assign_null i w = on i w (destroy (w.holds i) w >>= λ v. some (set_holds i bad v))

unfoldable pub assign_from : ℕ → ℕ → Target → World → Option World
unfolding destroy
assign_from i p t w = on i w (destroy (w.holds i) (set_holds i p (set_cell p (counted t 1) w)))

unfoldable pub assign_system : ℕ → World → Option World
unfolding destroy
assign_system i w = on i w (destroy (w.holds i) (set_holds i system w))
