-- ===== src/Executor/Ops.antt =====
-- include/experimental/bits/executor.h: the operations of executors that change what they hold, as data,
-- and what the language asks of each.
use executors.Base.{ℕ, ◌<◌, ◌≡◌, Option}
use executors.Executor.{
  Target, deleted, World, construct, construct_copy, construct_move, construct_from,
  construct_system, destruct, assign_copy, assign_move, assign_null, assign_from, assign_system,
}
use executors.Executor.Counts.{Balanced}

pub data Op : Type 0 where
  none_op : ℕ → Op
  copy_op : ℕ → ℕ → Op
  move_op : ℕ → ℕ → Op
  from_op : ℕ → ℕ → Target → Op
  system_op : ℕ → Op
  destruct_op : ℕ → Op
  assign_copy_op : ℕ → ℕ → Op
  assign_move_op : ℕ → ℕ → Op
  assign_null_op : ℕ → Op
  assign_from_op : ℕ → ℕ → Target → Op
  assign_system_op : ℕ → Op

unfoldable pub run : Op → World → Option World
unfolding construct construct_copy construct_move construct_from construct_system destruct
    assign_copy assign_move assign_null assign_from assign_system
run (none_op i) w = construct i w
run (copy_op i j) w = construct_copy i j w
run (move_op i j) w = construct_move i j w
run (from_op i p t) w = construct_from i p t w
run (system_op i) w = construct_system i w
run (destruct_op i) w = destruct i w
run (assign_copy_op i j) w = assign_copy i j w
run (assign_move_op i j) w = assign_move i j w
run (assign_null_op i) w = assign_null i w
run (assign_from_op i p t) w = assign_from i p t w
run (assign_system_op i) w = assign_system i w

-- One of the first `n` objects, constructed or not, and an address where there is no implementation.
abbrev pub IsBuilt : ℕ → ℕ → World → Type 0
IsBuilt n i w = (i < n) × (0 < w.holds i)

abbrev pub IsRaw : ℕ → ℕ → World → Type 0
IsRaw n i w = (i < n) × (w.holds i ≡ 0)

abbrev pub IsFresh : ℕ → World → Type 0
IsFresh p w = (2 < p) × (w.cell p ≡ deleted)

-- What the language asks of an operation: a constructor is on raw memory, any other is on an object that
-- has been constructed, and `new` gives a new address.
abbrev pub Allowed : ℕ → World → Op → Type 0
Allowed n w (none_op i) = IsRaw n i w
Allowed n w (copy_op i j) = IsRaw n i w × IsBuilt n j w
Allowed n w (move_op i j) = IsRaw n i w × IsBuilt n j w
Allowed n w (from_op i p t) = IsRaw n i w × IsFresh p w
Allowed n w (system_op i) = IsRaw n i w
Allowed n w (destruct_op i) = IsBuilt n i w
Allowed n w (assign_copy_op i j) = IsBuilt n i w × IsBuilt n j w
Allowed n w (assign_move_op i j) = IsBuilt n i w × IsBuilt n j w
Allowed n w (assign_null_op i) = IsBuilt n i w
Allowed n w (assign_from_op i p t) = IsBuilt n i w × IsFresh p w
Allowed n w (assign_system_op i) = IsBuilt n i w

abbrev pub IsCounted : ℕ → World → Type 0
IsCounted n w = Balanced n 0 w.cell w.holds
