-- ===== src/Scheduler.antt =====
-- include/experimental/bits/scheduler.h: the state of `__scheduler` and of the `_Context` of a thread
-- that runs it, and the pieces of its operations between two atomic accesses. An operation is a
-- number. The queue of operations is a list (OpQueue/Refine.antt).
pub mod Threads
pub mod Accounts
pub mod Safety
pub mod Stranded
use executors.Base.{
  ℕ, Option, none, some, List, [], ◌∷◌, ◌++◌, Bool, true, false, ◌==◌, if◌then◌else◌, is_nil,
}
use executors.Base.Int.{ℤ, pos, negsuc, ◌+ℤ◌, neg_ℤ, ltb_ℤ, eqb_ℤ}

pub record Scheduler : Type 0 where
  pub queue : List ℕ
  pub outstanding_work : ℤ
  pub stopped : Bool
  pub one_thread : Bool

-- `_Context`, but for the lock, which a thread holds where Threads.antt says so.
pub record Context : Type 0 where
  pub private_queue : List ℕ
  pub work_delta : ℤ

unfoldable pub fresh : Bool → Scheduler
fresh one_thread = record {
  queue = [];
  outstanding_work = pos 0;
  stopped = false;
  one_thread = one_thread;
}

-- The constructor, with its concurrency hint.
pub new : ℕ → Scheduler
unfolding fresh
new hint = fresh (hint == 1)

unfoldable pub new_context : Context
new_context = record { private_queue = []; work_delta = pos 0 }

unfoldable pub work_started : Scheduler → Scheduler
work_started s = record s { outstanding_work = s.outstanding_work +ℤ pos 1 }

-- `--_M_outstanding_work`, and whether it is 0 then, so that `_Stop` follows.
pub work_finished : Scheduler → Scheduler × Bool
work_finished s =
    let left = s.outstanding_work +ℤ negsuc 0 in
    (record s { outstanding_work = left }, eqb_ℤ left (pos 0))

pub stop : Scheduler → Scheduler
stop s = record s { stopped = true }

pub restart : Scheduler → Scheduler
restart s = record s { stopped = false }

-- What `_Post` and `_Defer` do before they take the lock, and whether they go on to take it and push
-- the operation. The context is that of the calling thread, if it runs this scheduler.
pub record Begun : Type 0 where
  pub sched : Scheduler
  pub context : Option Context
  pub pushes : Bool

abbrev kept_private : Context → ℕ → Context
kept_private c op = record c {
  work_delta = c.work_delta +ℤ pos 1;
  private_queue = c.private_queue ++ op ∷ [];
}

unfoldable pub post_begin : Scheduler → Option Context → ℕ → Begun
unfolding work_started
post_begin s none op = record { sched = work_started s; context = none; pushes = true }
post_begin s (some c) op =
    if s.one_thread
    then record { sched = s; context = some (kept_private c op); pushes = false }
    else if ltb_ℤ c.work_delta (pos 0)
    then record {
      sched = s;
      context = some (record c { work_delta = c.work_delta +ℤ pos 1 });
      pushes = true;
    }
    else record { sched = work_started s; context = some c; pushes = true }

pub defer_begin : Scheduler → Option Context → ℕ → Begun
unfolding work_started
defer_begin s none op = record { sched = work_started s; context = none; pushes = true }
defer_begin s (some c) op = record { sched = s; context = some (kept_private c op); pushes = false }

-- The end of `_Post` and `_Defer`, under the lock.
unfoldable pub push : ℕ → Scheduler → Scheduler
push op s = record s { queue = s.queue ++ op ∷ [] }

-- The part of `_Do_run_one`, `_Do_run_one_until` and `_Do_poll_one` under the lock, once they wait no
-- longer: the operation taken, if there is one.
unfoldable pub take : Scheduler → Context → Option (ℕ × Scheduler × Context)
take s c = if s.stopped then none else elim s.queue [
  | [] ↦ none
  | op ∷ rest ↦ some (op, record s { queue = rest }, record c { work_delta = negsuc 0 })
]

-- The work that a context has counted goes to the scheduler, at the start of `_Lock` and of the
-- destructor of `_Context`; whether `_Stop` follows.
unfoldable pub commit : Scheduler → Context → Scheduler × Context × Bool
commit s c = if eqb_ℤ c.work_delta (pos 0) then (s, c, false) else (
  record s { outstanding_work = s.outstanding_work +ℤ c.work_delta },
  record c { work_delta = pos 0 },
  eqb_ℤ s.outstanding_work (neg_ℤ c.work_delta),
)

-- The rest of `_Lock` and of the destructor, under the lock.
unfoldable pub relock : Scheduler → Context → Scheduler × Context
relock s c =
    if is_nil c.private_queue
    then (s, c)
    else (record s { queue = s.queue ++ c.private_queue }, record c { private_queue = [] })
