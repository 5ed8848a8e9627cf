-- ===== src/Executor/Equal.antt =====
-- The equality of executors, and where their functions go, in terms of the value that each stands for.
use executors.Base.{
  ℕ, ◌<◌, ◌≡◌, ◌≢◌, refl, ap, some, Bool, true, false, ◌==◌, ◌&&◌, if◌then◌else◌, arith, ◌∷◌, [],
}
use executors.Executor.{Target, Cell, deleted, counted, World, bad, system}
use executors.Executor.Counts.{refs, holder}
use executors.Executor.Ops.{IsBuilt, IsCounted}
use executors.Executor.Calls.{
  How, dispatched, posted, deferred, the_system, the_target, Outcome, direct, wrapped, thrown,
  destroyed, pass, submit, drop_ptr, type_at, has_target, equals_target, equals_at, equals,
}

-- What an executor stands for: nothing, the system executor, or a target.
pub data Value : Type 0 where
  empty : Value
  of_system : Value
  of_target : Target → Value

abbrev pub cell_value : Cell → Value
cell_value deleted = empty
cell_value (counted t k) = of_target t

abbrev pub value_at : ℕ → Cell → Value
value_at p c = if p == bad then empty else if p == system then of_system else cell_value c

abbrev pub value_of : ℕ → World → Value
value_of i w = value_at (w.holds i) (w.cell (w.holds i))

-- Two values are equal when they are of one type, and of equal targets, but nothing equals no target.
abbrev pub eq_values : (ℕ → ℕ → ℕ → Bool) → Value → Value → Bool
eq_values same of_system of_system = true
eq_values same (of_target t) (of_target u) =
    (t.type_id == u.type_id) && same t.type_id t.value u.value
eq_values same x y = false

-- No target is a `void` or a `system_executor`.
abbrev pub IsTyped : Cell → Type 0
IsTyped deleted = Unit
IsTyped (counted t k) = 1 < t.type_id

abbrev IsHeld : ℕ → World → Type 0
IsHeld p w = (0 < p) × (2 < p → w.cell p ≢ deleted)

held : (n i : ℕ) (w : World) → IsBuilt n i w → IsCounted n w → IsHeld (w.holds i) w
held n i w (lt, built) l = (
  built,
  λ far e.
      absurd (
        omega (arith, l.counts (w.holds i) far, holder (w.holds i) n i w.holds lt refl, ap refs e)),
)

equals_at_lem :
    (same : ℕ → ℕ → ℕ → Bool) (p q : ℕ) (c d : Cell) (w : World)
    → ((t v : ℕ) → same t v v ≡ true)
    → IsTyped c
    → IsTyped d
    → w.cell p ≡ c
    → w.cell q ≡ d
    → IsHeld p w
    → IsHeld q w
    → equals_at same p q w ≡ some (eq_values same (value_at p c) (value_at q d))
unfolding equals_at equals_target type_at
equals_at_lem same p q deleted deleted w same-refl ty ty' e f h h' = ground (arith, h, h')
equals_at_lem same p q deleted (counted u l) w same-refl ty ty' e f h h' = ground (arith, h, h')
equals_at_lem same p q (counted t k) deleted w same-refl ty ty' e f h h' = ground (arith, h, h')
equals_at_lem same p q (counted t k) (counted u l) w same-refl ty ty' e f h h' =
    ground (arith, h, h', same-refl t.type_id t.value)

equals-eq_values :
    (same : ℕ → ℕ → ℕ → Bool) (n i j : ℕ) (w : World)
    → ((t v : ℕ) → same t v v ≡ true)
    → ((p : ℕ) → IsTyped (w.cell p))
    → IsCounted n w
    → IsBuilt n i w
    → IsBuilt n j w
    → equals same i j w ≡ some (eq_values same (value_of i w) (value_of j w))
unfolding equals
equals-eq_values same n i j w same-refl typed l b b' = ground (
  arith,
  b.1,
  b'.1,
  equals_at_lem same (w.holds i) (w.holds j) (w.cell (w.holds i)) (w.cell (w.holds j)) w same-refl
      (typed (w.holds i)) (typed (w.holds j)) refl refl (held n i w b l) (held n j w b' l),
)

equals-has_target :
    (same : ℕ → ℕ → ℕ → Bool) (n i : ℕ) (w : World)
    → IsCounted n w
    → IsBuilt n i w
    → equals same i i w ≡ has_target i w
unfolding equals equals_at equals_target has_target
equals-has_target same n i w l b = go (w.cell (w.holds i)) refl
  where
    h : IsHeld (w.holds i) w
    h = held n i w b l

    go : (c : Cell) → w.cell (w.holds i) ≡ c → equals same i i w ≡ has_target i w
    go deleted e = ground (arith, h)
    go (counted t k) e = ground (arith, h)

-- The equality of two executors that have been constructed is that of what they stand for, however the
-- implementations are shared, if each target equals itself; and an executor equals itself exactly when it
-- has a target, so one without a target does not, although it equals `nullptr`.
pub equals_lem :
    (same : ℕ → ℕ → ℕ → Bool) (n i j : ℕ) (w : World)
    → ((t v : ℕ) → same t v v ≡ true)
    → ((p : ℕ) → IsTyped (w.cell p))
    → IsCounted n w
    → IsBuilt n i w
    → IsBuilt n j w
    → (equals same i j w ≡ some (eq_values same (value_of i w) (value_of j w)))
      × (equals same i i w ≡ has_target i w)
equals_lem same n i j w same-refl typed l b b' =
    (equals-eq_values same n i j w same-refl typed l b b', equals-has_target same n i w l b)

-- What becomes of a function, by what the executor stands for.
abbrev pub receives : Value → How → ℕ → Outcome
receives empty how f = thrown (destroyed f ∷ [])
receives of_system dispatched f = direct the_system dispatched f
receives of_system posted f = wrapped the_system posted (some f)
receives of_system deferred f = wrapped the_system deferred (some f)
receives (of_target t) how f = wrapped (the_target t) how (some f)

-- A function is given to the target, by the call that was asked for; without a target, the function is
-- destroyed, and `bad_executor` is thrown.
pub submit_lem :
    (how : How) (n i f : ℕ) (w : World)
    → IsCounted n w
    → IsBuilt n i w
    → submit how i f w ≡ some (receives (value_of i w) how f)
unfolding submit pass drop_ptr
submit_lem how n i f w l b = go how (w.cell (w.holds i)) refl
  where
    h : IsHeld (w.holds i) w
    h = held n i w b l

    go :
        (how : How) (c : Cell)
        → w.cell (w.holds i) ≡ c
        → submit how i f w ≡ some (receives (value_of i w) how f)
    go dispatched deleted e = ground (arith, h)
    go posted deleted e = ground (arith, h)
    go deferred deleted e = ground (arith, h)
    go dispatched (counted t k) e = ground (arith, h)
    go posted (counted t k) e = ground (arith, h)
    go deferred (counted t k) e = ground (arith, h)
