-- ===== src/Executor/Values.antt =====
-- Executors as values: what each executor object stands for, and how the operations change that, without
-- implementations and counts.
use executors.Base.{
  ℕ, ◌^◌, ◌<◌, ◌≡◌, ◌≢◌, refl, ap, subst, ◌∙◌, Option, none, some, ◌==◌, if◌then◌else◌, arith,
  update, Ensures,
}
use executors.Executor.{Cell, deleted, counted, World}
use executors.Executor.Ops.{
  Op, none_op, copy_op, move_op, from_op, system_op, destruct_op, assign_copy_op, assign_move_op,
  assign_null_op, assign_from_op, assign_system_op, run, Allowed, IsCounted, IsFresh,
}
use executors.Executor.Counts.{refs, holder}
use executors.Executor.Lifetime.{run-IsCounted}
use executors.Executor.Equal.{Value, empty, of_system, of_target, value_at}
use executors.Executor.Kept.{holds_after, cells_after, IsSame, Gives, Keeps, run-Keeps}

-- What the objects stand for; `none` is memory without an executor.
abbrev pub view : (ℕ → ℕ) → (ℕ → Cell) → ℕ → Option Value
view holds cell i = if holds i == 0 then none else some (value_at (holds i) (cell (holds i)))

-- The operations on values.
abbrev pub value_step : Op → (ℕ → Option Value) → ℕ → Option Value
value_step (none_op i) x = update x i (some empty)
value_step (copy_op i j) x = update x i (x j)
value_step (move_op i j) x = update (update x i (x j)) j (some empty)
value_step (from_op i p t) x = update x i (some (of_target t))
value_step (system_op i) x = update x i (some of_system)
value_step (destruct_op i) x = update x i none
value_step (assign_copy_op i j) x = update x i (x j)
value_step (assign_move_op i j) x = update (update x i (x j)) j (some empty)
value_step (assign_null_op i) x = update x i (some empty)
value_step (assign_from_op i p t) x = update x i (some (of_target t))
value_step (assign_system_op i) x = update x i (some of_system)

-- Nobody holds a new address.
unheld : (n i p : ℕ) (w : World) → i < n → IsFresh p w → IsCounted n w → w.holds i ≢ p
unheld n i p w lt (far, e) l h =
    absurd (omega (arith, l.counts p far, holder p n i w.holds lt h, ap refs e))

view_after :
    (n k : ℕ) (op : Op) (w : World)
    → k < n
    → Allowed n w op
    → IsCounted n w
    → view (holds_after op w.holds) (cells_after op w.cell) k
      ≡ value_step op (view w.holds w.cell) k
view_after n k (none_op i) w lt a l = ground arith
view_after n k (copy_op i j) w lt a l = ground arith
view_after n k (move_op i j) w lt a l = ground arith
view_after n k (from_op i p t) w lt (r, fresh) l = ground (arith, unheld n k p w lt fresh l)
view_after n k (system_op i) w lt a l = ground arith
view_after n k (destruct_op i) w lt a l = ground arith
view_after n k (assign_copy_op i j) w lt a l = ground arith
view_after n k (assign_move_op i j) w lt a l = ground arith
view_after n k (assign_null_op i) w lt a l = ground arith
view_after n k (assign_from_op i p t) w lt (r, fresh) l = ground (arith, unheld n k p w lt fresh l)
view_after n k (assign_system_op i) w lt a l = ground arith

-- What is held has not been deleted, so it has the target that it had.
view-Keeps :
    (n k : ℕ) (f : ℕ → ℕ) (c : ℕ → Cell) (v : World)
    → k < n
    → Keeps f c v
    → IsCounted n v
    → view v.holds v.cell k ≡ view f c k
view-Keeps n k f c v lt (a, b) l = go (c (f k)) (v.cell (f k)) refl refl (b (f k))
  where
    live : 2 < f k → v.cell (f k) ≢ deleted
    live far e =
        absurd (omega (arith, l.counts (f k) far, holder (f k) n k v.holds lt (a k), ap refs e))

    go :
        (x y : Cell)
        → c (f k) ≡ x
        → v.cell (f k) ≡ y
        → IsSame x y
        → view v.holds v.cell k ≡ view f c k
    go deleted deleted e g h = ground (arith, a k)
    go (counted t m) deleted e g h = ground (arith, a k, live)
    go deleted (counted t m) e g h = absurd h
    go (counted t m) (counted u l') e g h = ground (arith, a k)

-- The operations change what each of the objects stands for as they would if each object had a value of its own.
pub run_lem :
    (n k : ℕ) (op : Op) (w v : World)
    → n < 2 ^ 63
    → k < n
    → Allowed n w op
    → IsCounted n w
    → run op w ≡ some v
    → view v.holds v.cell k ≡ value_step op (view w.holds w.cell) k
run_lem n k op w v small lt a l e =
    view-Keeps n k (holds_after op w.holds) (cells_after op w.cell) v lt
      (subst (Gives (Keeps (holds_after op w.holds) (cells_after op w.cell))) e (run-Keeps op w))
      (subst (Ensures (IsCounted n)) e (run-IsCounted n op w small a l))
    ∙ view_after n k op w lt a l
