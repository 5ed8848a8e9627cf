-- ===== src/Scheduler/Accounts.antt =====
-- The accounts of a `__scheduler`: what `_M_outstanding_work` counts, whatever the threads do.
use executors.Base.{
  ℕ, ◌+◌, ◌≤◌, ◌≡◌, refl, ◌∙◌, ◌⊎◌, none, some, [], ◌∷◌, Bool, true, arith, length, length-append,
}
use executors.Base.Int.{pos, negsuc, pos_part, neg_part, +ℤ_parts}
use executors.Base.Family.{sum_of, sum_of-update, sum_of-zero}
use executors.Scheduler.{
  Scheduler, Context, fresh, new_context, work_started, work_finished, stop, restart, post_begin,
  defer_begin, push, take, commit, relock,
}
use executors.Scheduler.Threads.{
  Caller, Pc, outside, looking, executing, pushing, committing, stopping, relocking, finishing,
  Move, post_outside, post_inside, defer_outside, defer_inside, pushes, starts_work, finishes_work,
  enters, takes, gives_up, completes, commits, stops, relocks, stops_finishing, System, Step, by,
  start, Reach, here, next, calls_stop, calls_restart,
}

abbrev context_of : Caller → Context
context_of none = new_context
context_of (some c) = c

-- The context of a thread, an empty one where it has none.
abbrev pub own : Pc → Context
own outside = new_context
own (looking c) = c
own (executing c) = c
own (pushing op k) = context_of k
own (committing again c) = c
own (stopping again c) = c
own (relocking again c) = c
own (finishing k) = context_of k

-- Operations that a thread has counted and not yet put into the queue.
abbrev pub in_flight : Pc → ℕ
in_flight (pushing op k) = 1
in_flight _ = 0

-- What the thread still has to add to the count, and what it holds that is counted.
abbrev pub to_add : Pc → ℕ
to_add p = pos_part (own p).work_delta

abbrev pub held : Pc → ℕ
held p = neg_part (own p).work_delta + length (own p).private_queue

-- A count is kept of the operations of all queues, of those in flight, of the unanswered calls of
-- `_Work_started`, less what the threads have not yet added.
abbrev pub Balanced : ℕ → Scheduler → ℕ → (ℕ → Pc) → Type 0
Balanced n s works pc =
    pos_part s.outstanding_work + sum_of to_add n pc
    ≡ neg_part s.outstanding_work
      + length s.queue
      + works
      + sum_of in_flight n pc
      + sum_of held n pc

-- A handler has not counted more than its context holds; with one thread every operation that it
-- posts stays in the context, and the one that runs is still to be taken off the count.
abbrev IsBusy : Bool → Context → Type 0
IsBusy one c =
    (pos_part c.work_delta ≤ length c.private_queue)
    × (one ≡ true → pos_part c.work_delta + 1 ≡ length c.private_queue + neg_part c.work_delta)

abbrev IsIdle : Context → Type 0
IsIdle c = (c.work_delta ≡ pos 0) × (length c.private_queue ≡ 0)

abbrev IsBusyCaller : Bool → Caller → Type 0
IsBusyCaller one none = Unit
IsBusyCaller one (some c) = IsBusy one c

-- What is known of a thread by where it stands.
abbrev pub IsTidy : Bool → Pc → Type 0
IsTidy one outside = Unit
IsTidy one (looking c) = IsIdle c
IsTidy one (executing c) = IsBusy one c
IsTidy one (pushing op k) = IsBusyCaller one k
IsTidy one (committing again c) = IsBusy one c ⊎ IsIdle c
IsTidy one (stopping again c) = c.work_delta ≡ pos 0
IsTidy one (relocking again c) = c.work_delta ≡ pos 0
IsTidy one (finishing k) = IsBusyCaller one k

-- What a step does to the count: the difference for the thread that takes it.
abbrev Moves : Scheduler → ℕ → Pc → Scheduler → ℕ → Pc → Type 0
Moves s w p t v q =
    pos_part t.outstanding_work
      + to_add q
      + neg_part s.outstanding_work
      + length s.queue
      + w
      + in_flight p
      + held p
    ≡ neg_part t.outstanding_work
      + length t.queue
      + v
      + in_flight q
      + held q
      + pos_part s.outstanding_work
      + to_add p

module _ {s : Scheduler} {w : ℕ} where
  Move-counts :
      {p q : Pc} {t : Scheduler} {v : ℕ}
      → IsTidy s.one_thread p
      → Move s w p t v q
      → Moves s w p t v q
  unfolding post_begin defer_begin push work_started work_finished stop restart take commit relock
      new_context
  Move-counts e (post_outside op) = ground (arith, +ℤ_parts s.outstanding_work (pos 1))
  Move-counts e (post_inside {c} op) = ground (
    arith,
    +ℤ_parts s.outstanding_work (pos 1),
    +ℤ_parts c.work_delta (pos 1),
    length-append c.private_queue (op ∷ []),
  )
  Move-counts e (defer_outside op) = ground (arith, +ℤ_parts s.outstanding_work (pos 1))
  Move-counts e (defer_inside {c} op) =
      ground (arith, +ℤ_parts c.work_delta (pos 1), length-append c.private_queue (op ∷ []))
  Move-counts e (pushes {op} {k}) = ground (arith, length-append s.queue (op ∷ []))
  Move-counts e (starts_work k h) = ground (arith, +ℤ_parts s.outstanding_work (pos 1))
  Move-counts e (finishes_work k h g) = ground (arith, +ℤ_parts s.outstanding_work (negsuc 0))
  Move-counts e enters = ground arith
  Move-counts e (takes {c} h) = ground arith
  Move-counts e gives_up = ground arith
  Move-counts e (completes again) = ground arith
  Move-counts e (commits {again} {c}) = ground (arith, +ℤ_parts s.outstanding_work c.work_delta)
  Move-counts e (stops) = ground arith
  Move-counts e (relocks {again} {c}) = ground (arith, length-append s.queue c.private_queue)
  Move-counts e (stops_finishing {k}) = ground arith

  Move-IsTidy :
      {p q : Pc} {t : Scheduler} {v : ℕ}
      → IsTidy s.one_thread p
      → Move s w p t v q
      → IsTidy t.one_thread q × (t.one_thread ≡ s.one_thread)
  unfolding post_begin defer_begin push work_started work_finished stop restart take commit relock
      new_context
  Move-IsTidy e (post_outside op) = ground arith
  Move-IsTidy e (post_inside {c} op) =
      ground (arith, +ℤ_parts c.work_delta (pos 1), length-append c.private_queue (op ∷ []))
  Move-IsTidy e (defer_outside op) = ground arith
  Move-IsTidy e (defer_inside {c} op) =
      ground (arith, +ℤ_parts c.work_delta (pos 1), length-append c.private_queue (op ∷ []))
  Move-IsTidy e (pushes {op} {k}) = ground arith
  Move-IsTidy e (starts_work k h) = ground arith
  Move-IsTidy e (finishes_work k h g) = ground arith
  Move-IsTidy e enters = ground arith
  Move-IsTidy e (takes {c} h) = ground arith
  Move-IsTidy e (gives_up) = ground arith
  Move-IsTidy e (completes again) = ground arith
  Move-IsTidy e (commits {again} {c}) = ground arith
  Move-IsTidy e (stops) = ground arith
  Move-IsTidy e (relocks {again} {c}) = ground arith
  Move-IsTidy e (stops_finishing {k}) = ground arith

pub record Inv (n : ℕ) (one : Bool) (y : System) : Type 0 where
  pub balanced : Balanced n y.sched y.works y.pc
  pub tidy : (i : ℕ) → IsTidy y.sched.one_thread (y.pc i)
  pub single : y.sched.one_thread ≡ one

start-Inv : (n : ℕ) (one : Bool) → Inv n one (start one)
unfolding fresh new_context
start-Inv n one = record {
  balanced = omega (
    arith,
    sum_of-zero to_add n (λ _. outside) (λ i. refl),
    sum_of-zero held n (λ _. outside) (λ i. refl),
    sum_of-zero in_flight n (λ _. outside) (λ i. refl),
  );
  tidy = λ i. tt;
  single = refl;
}

Step-Inv : {n : ℕ} {one : Bool} {y z : System} → Step n y z → Inv n one y → Inv n one z
Step-Inv {n} {y} (by i {p = q} lt mv) inv = record {
  balanced = omega (
    arith,
    Move-counts (inv.tidy i) mv,
    sum_of-update to_add n y.pc i q lt,
    sum_of-update held n y.pc i q lt,
    sum_of-update in_flight n y.pc i q lt,
    inv.balanced,
  );
  tidy = λ j. ground (arith, Move-IsTidy (inv.tidy i) mv, inv.tidy j);
  single = (Move-IsTidy (inv.tidy i) mv).1 ∙ inv.single;
}

-- In whatever order the threads take their steps, the accounts are right.
pub Reach-Inv : {n : ℕ} {one asked : Bool} {y : System} → Reach n one asked y → Inv n one y
unfolding stop restart
Reach-Inv {n} {one} here = start-Inv n one
Reach-Inv (next r st) = Step-Inv st (Reach-Inv r)
Reach-Inv (calls_stop e r) =
    let inv = Reach-Inv r in
    record { balanced = inv.balanced; tidy = inv.tidy; single = inv.single }
Reach-Inv (calls_restart e r) =
    let inv = Reach-Inv r in
    record { balanced = inv.balanced; tidy = inv.tidy; single = inv.single }
