-- ===== src/ForkJoin.antt =====
-- src/examples/executor/fork_join.cpp: `fork_join_pool`, whose threads execute functions in the order of a
-- queue, and `fork_executor`, a group of functions that can be joined. A thread is a number, and so is a
-- group; a function is known by its group. Each step is one section under the mutex. A function does not
-- throw. The counters are numbers: what they count is in memory, so that they stay below the bound of
-- `size_t`; that they are not decremented at 0 is proved.
pub mod Stacks
pub mod Sound
pub mod Wakeup
pub mod Counts
pub mod Groups
use executors.Base.{
  ℕ, zero, suc, ◌+◌, ◌-◌, ◌*◌, ◌<◌, ◌≡◌, List, [], ◌∷◌, ◌++◌, Bool, true, false, ltb, ◌==◌, ◌||◌,
  length, if◌then◌else◌, update,
}

-- Who runs: the loop of a thread of the pool, `join` of a group, or `do_dispatch`, which executes a
-- function itself when the queue is loaded.
pub data Role : Type 0 where
  worker : Role
  joiner : ℕ → Role
  inline : Role

-- Where it stands: before the condition of its loop, in `condition_.wait`, or in a function of a group.
pub data Pc : Type 0 where
  checking : Pc
  sleeping : Pc
  executing : ℕ → Pc

pub record Frame : Type 0 where
  pub who : Role
  pub pc : Pc

-- A function that a thread executes can call `join` or `dispatch`, so a thread has a stack of calls, the
-- innermost first. `external` is the work of the group that is not a function: the calls of
-- `on_work_started` for which there is yet to be one of `on_work_finished`.
pub record Pool : Type 0 where
  pub queue : List ℕ
  pub use_count : ℕ
  pub work_count : ℕ → ℕ
  pub external : ℕ → ℕ
  pub is_stopped : Bool
  pub threads : ℕ → List Frame

unfoldable pub start : Pool
start = record {
  queue = [];
  use_count = 1;
  work_count = λ g. 0;
  external = λ g. 0;
  is_stopped = false;
  threads = λ i. [];
}

-- The condition of the loop.
abbrev pub wants : Role → Pool → Bool
wants worker p = ltb 0 p.use_count
wants (joiner g) p = ltb 0 (p.work_count g)
wants inline p = false

-- A thread that is notified goes back to the condition of its loop.
abbrev pub wake_pc : Pc → Pc
wake_pc sleeping = checking
wake_pc checking = checking
wake_pc (executing g) = executing g

abbrev pub wake : List Frame → List Frame
wake [] = []
wake (f ∷ fs) = record f { pc = wake_pc f.pc } ∷ fs

unfoldable pub notify_all : Pool → Pool
notify_all p = record p { threads = λ i. wake (p.threads i) }

unfoldable pub do_work_started : ℕ → Pool → Pool
do_work_started g p = record p {
  work_count = update p.work_count g (suc (p.work_count g));
  use_count = if p.work_count g == 0 then suc p.use_count else p.use_count;
}

abbrev pub fewer_work : ℕ → Pool → Pool
fewer_work g p = record p { work_count = update p.work_count g (p.work_count g - 1) }

abbrev pub fewer_use : Pool → Pool
fewer_use p = record p { use_count = p.use_count - 1 }

unfoldable pub do_work_finished : ℕ → Pool → Pool
unfolding notify_all
do_work_finished g p =
    if p.work_count g - 1 == 0 then notify_all (fewer_use (fewer_work g p)) else fewer_work g p

unfoldable pub stop_threads : Pool → Pool
unfolding notify_all
stop_threads p = notify_all (record (fewer_use p) { is_stopped = true })

-- The push of `do_dispatch` and `do_post`.
unfoldable pub push : ℕ → Pool → Pool
unfolding do_work_started
push g p = do_work_started g (record p { queue = p.queue ++ g ∷ [] })

-- `queue_.size() > thread_count_ * 16`
abbrev pub is_loaded : ℕ → Pool → Bool
is_loaded thread_count p = ltb (thread_count * 16) (length p.queue)

abbrev pub set_thread : ℕ → List Frame → Pool → Pool
set_thread i fs p = record p { threads = update p.threads i fs }

abbrev pub frame : Role → Pc → Frame
frame who pc = record { who = who; pc = pc }

-- After a function, a loop goes on, and `do_dispatch` returns.
abbrev pub resume : Role → List Frame → List Frame
resume inline fs = fs
resume worker fs = frame worker checking ∷ fs
resume (joiner g) fs = frame (joiner g) checking ∷ fs

abbrev pub is_sleeping : List Frame → Bool
is_sleeping [] = false
is_sleeping (f ∷ fs) = elim f.pc [ sleeping ↦ true | checking ↦ false | executing g ↦ false ]

-- The thread can make a call: it has made none, or it is in a function.
abbrev pub IsFree : List Frame → Type 0
IsFree [] = Unit
IsFree (f ∷ fs) = (g : ℕ) × (f.pc ≡ executing g)

-- `n` threads, and groups below `m`.
pub data Step (n m thread_count : ℕ) (p : Pool) : Pool → Type 0 where
  -- A thread of the pool begins its loop, and `join` is called.
  begins :
      (i : ℕ)
      → i < n
      → p.threads i ≡ []
      → Step n m thread_count p (set_thread i (frame worker checking ∷ []) p)
  joins :
      (i g : ℕ)
      → i < n
      → g < m
      → IsFree (p.threads i)
      → Step n m thread_count p (set_thread i (frame (joiner g) checking ∷ p.threads i) p)
  -- `execute_next` takes a function, or the loop waits, or it ends.
  takes :
      (i g : ℕ) {who : Role} {fs : List Frame} {rest : List ℕ}
      → i < n
      → p.threads i ≡ frame who checking ∷ fs
      → wants who p ≡ true
      → p.queue ≡ g ∷ rest
      → Step n m thread_count p
          (set_thread i (frame who (executing g) ∷ fs) (record p { queue = rest }))
  waits :
      (i : ℕ) {who : Role} {fs : List Frame}
      → i < n
      → p.threads i ≡ frame who checking ∷ fs
      → wants who p ≡ true
      → p.queue ≡ []
      → Step n m thread_count p (set_thread i (frame who sleeping ∷ fs) p)
  ends :
      (i : ℕ) {who : Role} {fs : List Frame}
      → i < n
      → p.threads i ≡ frame who checking ∷ fs
      → wants who p ≡ false
      → Step n m thread_count p (set_thread i fs p)
  -- `wait` returns without a notification.
  wakes :
      (i : ℕ)
      → i < n
      → is_sleeping (p.threads i) ≡ true
      → Step n m thread_count p (set_thread i (wake (p.threads i)) p)
  -- The end of `execute`.
  completes :
      (i g : ℕ) {who : Role} {fs : List Frame}
      → i < n
      → p.threads i ≡ frame who (executing g) ∷ fs
      → Step n m thread_count p (do_work_finished g (set_thread i (resume who fs) p))
  -- `do_post`, and `do_dispatch` when the queue is not loaded, of which `notify_one` wakes a thread, if
  -- one sleeps.
  posts_to :
      (i g j : ℕ)
      → i < n
      → g < m
      → IsFree (p.threads i)
      → j < n
      → is_sleeping (p.threads j) ≡ true
      → Step n m thread_count p (set_thread j (wake (p.threads j)) (push g p))
  posts :
      (i g : ℕ)
      → i < n
      → g < m
      → IsFree (p.threads i)
      → ((j : ℕ) → is_sleeping (p.threads j) ≡ false)
      → Step n m thread_count p (push g p)
  -- `do_dispatch` when the queue is loaded.
  executes :
      (i g : ℕ)
      → i < n
      → g < m
      → IsFree (p.threads i)
      → is_loaded thread_count p ≡ true
      → Step n m thread_count p
          (do_work_started g (set_thread i (frame inline (executing g) ∷ p.threads i) p))
  -- `on_work_started` and `on_work_finished`
  starts :
      (g : ℕ)
      → g < m
      → Step n m thread_count p
          (do_work_started g (record p { external = update p.external g (suc (p.external g)) }))
  finishes :
      (g : ℕ) {left : ℕ}
      → g < m
      → p.external g ≡ suc left
      → Step n m thread_count p
          (do_work_finished g (record p { external = update p.external g left }))
  stops : p.is_stopped ≡ false → Step n m thread_count p (stop_threads p)

pub data Reach (n m thread_count : ℕ) : Pool → Type 0 where
  here : Reach n m thread_count start
  next :
      {p q : Pool} → Reach n m thread_count p → Step n m thread_count p q → Reach n m thread_count q
