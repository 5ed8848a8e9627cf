-- ===== src/Scheduler/Stranded.antt =====
-- A run of two threads and a handler that posts twice, with a concurrency hint other than 1.
use executors.Base.{
  ℕ, ◌<◌, ◌≡◌, refl, sym, subst, ◌≢◌, ◌==◌, List, [], ◌∷◌, ◌++◌, Option, none, some, Bool, true,
  false, arith, update,
}
use executors.Base.Int.{◌+ℤ◌, neg_ℤ}
use executors.Scheduler.{
  Scheduler, fresh, new_context, work_started, stop, post_begin, push, take, commit, relock,
}
use executors.Scheduler.Threads.{
  Pc, outside, Move, post_outside, post_inside, pushes, enters, takes, gives_up, completes, commits,
  stops, relocks, System, start, defer_outside, defer_inside, starts_work, finishes_work,
  stops_finishing,
}

-- The calls of the scheduler, and what becomes of the handlers.
pub data Call : Type 0 where
  posts : ℕ → Call  -- of a thread that does not run this scheduler
  defers : ℕ → Call  -- of the same
  posts_inside : ℕ → Call  -- of the handler that the thread runs
  defers_inside : ℕ → Call  -- of the same
  runs : ℕ → Call  -- the thread takes the handler, to call it
  returns : Call  -- from the handler that it runs
  adds_work : Call
  removes_work : Call

-- What a step shows of these.
abbrev pub call_of :
    {s t : Scheduler} {works left : ℕ} {p q : Pc} → Move s works p t left q → Option Call
call_of (post_outside op) = some (posts op)
call_of (post_inside op) = some (posts_inside op)
call_of (defer_outside op) = some (defers op)
call_of (defer_inside op) = some (defers_inside op)
call_of pushes = none
call_of (starts_work k e) = some adds_work
call_of (finishes_work k e f) = some removes_work
call_of enters = none
call_of (takes {op = op} e) = some (runs op)
call_of gives_up = none
call_of (completes again) = some returns
call_of commits = none
call_of stops = none
call_of relocks = none
call_of stops_finishing = none

abbrev pub told : List (ℕ × Call) → ℕ → Option Call → List (ℕ × Call)
told calls i none = calls
told calls i (some c) = calls ++ (i, c) ∷ []

-- What `n` threads can bring about of a new scheduler by these calls, each beside its thread, in this order.
-- Nobody calls `stop` or `restart`.
pub data Story (n : ℕ) (one : Bool) : List (ℕ × Call) → System → Type 0 where
  begin : Story n one [] (start one)
  turn :
      {calls : List (ℕ × Call)} {y : System} {s : Scheduler} {w : ℕ} {p : Pc} (i : ℕ)
      → i < n
      → Story n one calls y
      → (mv : Move y.sched y.works (y.pc i) s w p)
      → Story n one
          (told calls i (call_of mv))
          (record { sched = s; works = w; pc = update y.pc i p })

-- The story of three handlers: `a` is posted, and while thread 0 runs it, it posts `b`, which thread 1 runs
-- to its end, and then `c`, before it returns.
abbrev pub posting_twice : ℕ → ℕ → ℕ → List (ℕ × Call)
posting_twice a b c =
    (0, posts a)
    ∷ (0, runs a)
    ∷ (0, posts_inside b)
    ∷ (1, runs b)
    ∷ (1, returns)
    ∷ (0, posts_inside c)
    ∷ (0, returns)
    ∷ []

-- A system that these calls lead to, and that has stopped with `c` in its queue, after both threads have left.
pub record Stranded (one : Bool) (a b c : ℕ) : Type 0 where
  pub system : System
  pub reached : Story 2 one (posting_twice a b c) system
  pub left : system.sched.queue ≡ c ∷ []
  pub has_stopped : system.sched.stopped ≡ true
  pub no_thread : (i : ℕ) → system.pc i ≡ outside

-- Thread 0 runs `a`, which posts `b`; thread 1 runs `b`, and the count, which `a` has passed on to `b`,
-- is 0; then `a` posts `c`.
stranded : (a b c : ℕ) → Stranded false a b c
unfolding post_begin work_started push take commit relock stop fresh new_context ◌+ℤ◌ neg_ℤ
stranded a b c = record {
  system = _;
  reached =
      turn 0 (omega arith)
        (turn 0 (omega arith)
          (turn 0 (omega arith)
            (turn 0 (omega arith)
              (turn 0 (omega arith)
                (turn 0 (omega arith)
                  (turn 0 (omega arith)
                    (turn 0 (omega arith)
                      (turn 1 (omega arith)
                        (turn 1 (omega arith)
                          (turn 1 (omega arith)
                            (turn 1 (omega arith)
                              (turn 1 (omega arith)
                                (turn 1 (omega arith)
                                  (turn 1 (omega arith)
                                    (turn 1 (omega arith)
                                      (turn 0 (omega arith)
                                        (turn 0 (omega arith)
                                          (turn 0 (omega arith)
                                            (turn 1 (omega arith)
                                              (turn 0 (omega arith)
                                                (turn 0 (omega arith)
                                                  (turn 0 (omega arith) begin (post_outside a))
                                                  pushes)
                                                enters)
                                              enters)
                                            (takes refl))
                                          (post_inside b))
                                        pushes)
                                      (takes refl))
                                    (completes true))
                                  commits)
                                stops)
                              relocks)
                            gives_up)
                          commits)
                        relocks)
                      (post_inside c))
                    pushes)
                  (completes true))
                commits)
              relocks)
            gives_up)
          commits)
        relocks;
  left = refl;
  has_stopped = refl;
  no_thread = λ i. ground arith;
}

-- With any concurrency hint but 1, for any handlers, if `a` posts `b` while one of two threads runs it, and then
-- `c` after the other thread has run `b`, it can leave `c` in the queue for good: both threads have left, and the
-- scheduler has stopped, though nobody called `stop`.
pub post-Stranded : (hint a b c : ℕ) → hint ≢ 1 → Stranded (hint == 1) a b c
post-Stranded hint a b c h =
    let e : (hint == 1) ≡ false = ground arith in
    subst (λ one. Stranded one a b c) (sym e) (stranded a b c)
