-- ===== src/Work/Balance.antt =====
-- What the objects `executor_work` do to the work of each executor.
use executors.Base.{
  ℕ, suc, ◌+◌, ◌<◌, ◌≡◌, refl, ap, subst, Option, some, Bool, true, false, ◌==◌, if◌then◌else◌,
  arith, update, Ensures,
}
use executors.Base.Family.{sum_of, sum_of-update, sum_of-zero}
use executors.Work.{
  Work, raw, work, World, start, construct, construct_copy, construct_move, destroy, reset,
}

-- One for an object that owns work of the executor `e`.
abbrev pub owner : ℕ → Work → ℕ
owner e raw = 0
owner e (work f false) = 0
owner e (work f true) = if e == f then 1 else 0

-- The work that was started and has not finished is that of the owners among the first `n` objects.
abbrev pub IsBalanced : ℕ → World → Type 0
IsBalanced n w = (e : ℕ) → w.started e ≡ w.finished e + sum_of (owner e) n w.object

pub data Op : Type 0 where
  construct_op : ℕ → ℕ → Op
  copy_op : ℕ → ℕ → Op
  move_op : ℕ → ℕ → Op
  destroy_op : ℕ → Op
  reset_op : ℕ → Op

unfoldable pub run : Op → World → Option World
unfolding construct construct_copy construct_move destroy reset
run (construct_op i e) w = construct i e w
run (copy_op i j) w = construct_copy i j w
run (move_op i j) w = construct_move i j w
run (destroy_op i) w = destroy i w
run (reset_op i) w = reset i w

abbrev pub IsBuilt : ℕ → ℕ → World → Type 0
IsBuilt n i w = (i < n) × (e : ℕ) × (owns : Bool) × (w.object i ≡ work e owns)

abbrev pub IsRaw : ℕ → ℕ → World → Type 0
IsRaw n i w = (i < n) × (w.object i ≡ raw)

-- What the language asks: a constructor is on raw memory, and any other call is on an object.
abbrev pub Allowed : ℕ → World → Op → Type 0
Allowed n w (construct_op i e) = IsRaw n i w
Allowed n w (copy_op i j) = IsRaw n i w × IsBuilt n j w
Allowed n w (move_op i j) = IsRaw n i w × IsBuilt n j w
Allowed n w (destroy_op i) = IsBuilt n i w
Allowed n w (reset_op i) = IsBuilt n i w

pub run-IsBalanced :
    (n : ℕ) (op : Op) (w : World)
    → Allowed n w op
    → IsBalanced n w
    → Ensures (IsBalanced n) (run op w)
unfolding run construct construct_copy construct_move destroy reset
run-IsBalanced n (construct_op i e) w (lt, r) b =
    rw (r, Ensures)
      (λ f.
        ground (arith, b f, sum_of-update (owner f) n w.object i (work e true) lt, ap (owner f) r))
run-IsBalanced n (copy_op i j) w ((lt, r), (lt', e, true, q)) b =
    rw (r, Ensures) (rw (q, Ensures) (λ f. added f))
  where
    added :
        (f : ℕ)
        → (if e == f then suc (w.started e) else w.started f)
          ≡ w.finished f + sum_of (owner f) n (update w.object i (work e true))
    added f =
        ground (arith, b f, sum_of-update (owner f) n w.object i (work e true) lt, ap (owner f) r)
run-IsBalanced n (copy_op i j) w ((lt, r), (lt', e, false, q)) b =
    rw (r, Ensures)
      (rw (q, Ensures)
        (λ f.
          ground
            (arith, b f, sum_of-update (owner f) n w.object i (work e false) lt, ap (owner f) r)))
run-IsBalanced n (move_op i j) w ((lt, r), (lt', e, owns, q)) b =
    rw (r, Ensures) (rw (q, Ensures) (λ f. moved f owns q))
  where
    moved :
        (f : ℕ) (owns : Bool)
        → w.object j ≡ work e owns
        → w.started f
          ≡ w.finished f
            + sum_of (owner f) n (update (update w.object i (work e owns)) j (work e false))
    moved f owns q =
        let g = update w.object i (work e owns) in
        let same : g j ≡ work e owns = ground (arith, q) in
        omega (
          arith,
          b f,
          sum_of-update (owner f) n w.object i (work e owns) lt,
          sum_of-update (owner f) n g j (work e false) lt',
          ap (owner f) r,
          ap (owner f) same,
        )
run-IsBalanced n (destroy_op i) w (lt, e, true, q) b =
    rw (q, Ensures)
      (λ f. ground (arith, b f, sum_of-update (owner f) n w.object i raw lt, ap (owner f) q))
run-IsBalanced n (destroy_op i) w (lt, e, false, q) b =
    rw (q, Ensures)
      (λ f. ground (arith, b f, sum_of-update (owner f) n w.object i raw lt, ap (owner f) q))
run-IsBalanced n (reset_op i) w (lt, e, true, q) b =
    rw (q, Ensures)
      (λ f.
        ground (arith, b f, sum_of-update (owner f) n w.object i (work e false) lt, ap (owner f) q))
run-IsBalanced n (reset_op i) w (lt, e, false, q) b = rw (q, Ensures) b

-- The states that allowed operations lead to.
pub data Reach (n : ℕ) : World → Type 0 where
  begin : Reach n start
  after : (w v : World) (op : Op) → Reach n w → Allowed n w op → run op w ≡ some v → Reach n v

Reach-IsBalanced : (n : ℕ) (w : World) → Reach n w → IsBalanced n w
unfolding start
Reach-IsBalanced n w begin = λ e. ground (arith, sum_of-zero (owner e) n (λ i. raw) (λ i. refl))
Reach-IsBalanced n u (after w v op r a e) =
    subst (Ensures (IsBalanced n)) e (run-IsBalanced n op w a (Reach-IsBalanced n w r))

-- In every state that the operations lead to, and in the one after an operation that the language allows,
-- which is defined, `on_work_started` of each executor has been called as often as `on_work_finished`, and
-- once more for each of the `n` objects that own work of it: equally often if none of them does.
pub Reach-IsPaired :
    (n : ℕ) (op : Op) (w : World)
    → Reach n w
    → Allowed n w op
    → IsBalanced n w × Ensures (IsBalanced n) (run op w)
Reach-IsPaired n op w r a = let b = Reach-IsBalanced n w r in (b, run-IsBalanced n op w a b)
