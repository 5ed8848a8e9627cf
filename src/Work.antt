-- ===== src/Work.antt =====
-- include/experimental/bits/executor_work.h: the objects that keep work outstanding on an executor, and
-- include/experimental/bits/thread_pool.h (Work/Pool.antt). An object is a number. The calls of
-- `on_work_started` and `on_work_finished` of each executor are counted.
pub mod Balance
pub mod Pool
pub mod System
use executors.Base.{ℕ, suc, Option, none, some, Bool, true, false, ◌==◌, if◌then◌else◌, update}

-- Memory without an object, or an `executor_work` with its `_M_executor` and `_M_owns`.
pub data Work : Type 0 where
  raw : Work
  work : ℕ → Bool → Work

pub record World : Type 0 where
  pub object : ℕ → Work
  pub started : ℕ → ℕ
  pub finished : ℕ → ℕ

unfoldable pub start : World
start = record { object = λ i. raw; started = λ e. 0; finished = λ e. 0 }

abbrev pub set_object : ℕ → Work → World → World
set_object i o w = record w { object = update w.object i o }

abbrev pub on_work_started : ℕ → World → World
on_work_started e w = record w { started = update w.started e (suc (w.started e)) }

abbrev pub on_work_finished : ℕ → World → World
on_work_finished e w = record w { finished = update w.finished e (suc (w.finished e)) }

-- `executor_work(const executor_type&)`
abbrev construct_on : Work → ℕ → ℕ → World → Option World
construct_on raw i e w = some (on_work_started e (set_object i (work e true) w))
construct_on (work f owns) i e w = none

unfoldable pub construct : ℕ → ℕ → World → Option World
construct i e w = construct_on (w.object i) i e w

-- The copy constructor
abbrev copy_on : Work → Work → ℕ → World → Option World
copy_on raw (work e owns) i w =
    let v = set_object i (work e owns) w in some (if owns then on_work_started e v else v)
copy_on a b i w = none

unfoldable pub construct_copy : ℕ → ℕ → World → Option World
construct_copy i j w = copy_on (w.object i) (w.object j) i w

-- The move constructor
abbrev move_on : Work → Work → ℕ → ℕ → World → Option World
move_on raw (work e owns) i j w = some (set_object j (work e false) (set_object i (work e owns) w))
move_on a b i j w = none

unfoldable pub construct_move : ℕ → ℕ → World → Option World
construct_move i j w = move_on (w.object i) (w.object j) i j w

-- The destructor
abbrev destroy_on : Work → ℕ → World → Option World
destroy_on raw i w = none
destroy_on (work e owns) i w =
    let v = if owns then on_work_finished e w else w in some (set_object i raw v)

unfoldable pub destroy : ℕ → World → Option World
destroy i w = destroy_on (w.object i) i w

abbrev reset_on : Work → ℕ → World → Option World
reset_on raw i w = none
reset_on (work e owns) i w =
    some (if owns then set_object i (work e false) (on_work_finished e w) else w)

unfoldable pub reset : ℕ → World → Option World
reset i w = reset_on (w.object i) i w

abbrev owns_of : Work → Option Bool
owns_of raw = none
owns_of (work e owns) = some owns

unfoldable pub owns_work : ℕ → World → Option Bool
owns_work i w = owns_of (w.object i)
