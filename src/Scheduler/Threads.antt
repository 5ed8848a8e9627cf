-- ===== src/Scheduler/Threads.antt =====
-- The threads that use one `__scheduler`, interleaved: a thread is where it stands in the member
-- functions of scheduler.h, and a step is one atomic access, or one section under the mutex.
-- What a handler does, and when it returns, is left open; so is what other threads do. A time-out
-- of `_Do_run_one_until` may come at any moment. The lock is held in `looking`, where the thread may
-- also wait in the condition variable; to wake up is to take the next step from there.
use executors.Base.{ℕ, suc, ◌<◌, ◌≡◌, Option, none, some, Bool, true, false, if◌then◌else◌, update}
use executors.Base.Int.{pos, eqb_ℤ}
use executors.Scheduler.{
  Scheduler, Context, Begun, fresh, new_context, work_started, work_finished, stop, restart,
  post_begin, defer_begin, push, take, commit, relock,
}

-- A caller of `_Post` and the like: a handler that this scheduler runs, with its context, or not.
abbrev pub Caller : Type 0
Caller = Option Context

pub data Pc : Type 0 where
  outside : Pc  -- not in this scheduler
  looking : Context → Pc  -- at the head of `_Do_run_one`
  executing : Context → Pc  -- in `_Complete` of an operation
  pushing : ℕ → Caller → Pc  -- in `_Post` or `_Defer`, before the lock
  committing : Bool → Context → Pc  -- in `_Lock` (true), or in the destructor of `_Context`
  stopping : Bool → Context → Pc  -- there, before `_Stop`
  relocking : Bool → Context → Pc  -- there, before the lock
  finishing : Caller → Pc  -- in `_Work_finished` or `_Run`, before `_Stop`

abbrev pub back_to : Caller → Pc
back_to none = outside
back_to (some c) = executing c

abbrev pub begun_at : ℕ → Begun → Pc
begun_at op b = if b.pushes then pushing op b.context else back_to b.context

-- One step of one thread. The number counts the calls of `_Work_started` that no call of
-- `_Work_finished` has answered: every executor_work calls the one and then the other.
pub data Move (s : Scheduler) (works : ℕ) : Pc → Scheduler → ℕ → Pc → Type 0 where
  post_outside :
      (op : ℕ)
      → Move s works outside (post_begin s none op).sched works (begun_at op (post_begin s none op))
  post_inside :
      {c : Context} (op : ℕ)
      → Move s works
          (executing c)
          (post_begin s (some c) op).sched
          works
          (begun_at op (post_begin s (some c) op))
  defer_outside :
      (op : ℕ)
      → Move s works outside
          (defer_begin s none op).sched
          works
          (begun_at op (defer_begin s none op))
  defer_inside :
      {c : Context} (op : ℕ)
      → Move s works
          (executing c)
          (defer_begin s (some c) op).sched
          works
          (begun_at op (defer_begin s (some c) op))
  pushes : {op : ℕ} {k : Caller} → Move s works (pushing op k) (push op s) works (back_to k)
  starts_work :
      (k : Caller) {p : Pc} → p ≡ back_to k → Move s works p (work_started s) (suc works) p
  finishes_work :
      (k : Caller) {p : Pc} {fewer : ℕ}
      → p ≡ back_to k
      → works ≡ suc fewer
      → Move s works p
          (work_finished s).0
          fewer
          (if (work_finished s).1 then finishing k else back_to k)
  -- The head of `_Run`, `_Run_one`, `_Poll` and their like.
  enters :
      Move s works outside s works
        (if eqb_ℤ s.outstanding_work (pos 0) then finishing none else looking new_context)
  takes :
      {c d : Context} {t : Scheduler} {op : ℕ}
      → take s c ≡ some (op, t, d)
      → Move s works (looking c) t works (executing d)
  -- `return 0` of `_Do_run_one` when stopped, of `_Do_poll_one`, or upon a time-out.
  gives_up : {c : Context} → Move s works (looking c) s works (committing false c)
  -- `_Complete` returns, to the loop of `_Run` (true) or to `_Run_one`.
  completes : {c : Context} (again : Bool) → Move s works (executing c) s works (committing again c)
  commits :
      {again : Bool} {c : Context}
      → Move s works
          (committing again c)
          (commit s c).0
          works
          (if (commit s c).2 then stopping again (commit s c).1 else relocking again (commit s c).1)
  stops :
      {again : Bool} {c : Context}
      → Move s works (stopping again c) (stop s) works (relocking again c)
  relocks :
      {again : Bool} {c : Context}
      → Move s works
          (relocking again c)
          (relock s c).0
          works
          (if again then looking (relock s c).1 else outside)
  stops_finishing : {k : Caller} → Move s works (finishing k) (stop s) works (back_to k)

-- The scheduler and its threads; from some index on, no thread has that index.
pub record System : Type 0 where
  pub sched : Scheduler
  pub works : ℕ
  pub pc : ℕ → Pc

pub data Step (n : ℕ) (y : System) : System → Type 0 where
  by :
      (i : ℕ) {s : Scheduler} {w : ℕ} {p : Pc}
      → i < n
      → Move y.sched y.works (y.pc i) s w p
      → Step n y (record { sched = s; works = w; pc = update y.pc i p })

abbrev pub start : Bool → System
start one = record { sched = fresh one; works = 0; pc = λ _. outside }

-- What `n` threads can bring about of a new scheduler, `new hint` with `one` for `hint == 1`. With `asked`, the
-- program may also call `stop` and `restart`, from any thread and at any moment.
pub data Reach (n : ℕ) (one asked : Bool) : System → Type 0 where
  here : Reach n one asked (start one)
  next : {y z : System} → Reach n one asked y → Step n y z → Reach n one asked z
  calls_stop :
      {y : System}
      → asked ≡ true
      → Reach n one asked y
      → Reach n one asked (record y { sched = stop y.sched })
  calls_restart :
      {y : System}
      → asked ≡ true
      → Reach n one asked y
      → Reach n one asked (record y { sched = restart y.sched })
