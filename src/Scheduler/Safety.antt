-- ===== src/Scheduler/Safety.antt =====
-- The threads of a `__scheduler` when its count of outstanding work is 0.
use executors.Base.{
  ℕ, ◌+◌, ◌≤◌, ◌<◌, ◌≡◌, refl, ap, subst, inl, inr, none, some, List, [], ◌∷◌, Bool, true, false,
  arith, length,
}
use executors.Base.Int.{ℤ, pos, negsuc, pos_part, neg_part, ◌+ℤ◌, +ℤ_parts, neg_ℤ_parts}
use executors.Base.Family.{sum_of, sum_of-gap, sum_of_mono, sum_of-le}
use executors.Scheduler.{
  Scheduler, new_context, work_started, work_finished, post_begin, defer_begin, push, take, commit,
  relock,
}
use executors.Scheduler.Threads.{
  Pc, outside, executing, pushing, committing, stopping, finishing, Move, finishes_work, enters,
  commits, System, Step, by, Reach, next,
}
use executors.Scheduler.Accounts.{own, in_flight, to_add, held, IsTidy, Inv, Reach-Inv}

tidy-le : (one : Bool) (p : Pc) → IsTidy one p → to_add p ≤ held p
unfolding new_context
tidy-le one outside t = ground arith
tidy-le one (pushing op none) t = ground arith
tidy-le one (pushing op (some c)) t = ground arith
tidy-le one (finishing none) t = ground arith
tidy-le one (finishing (some c)) t = ground arith
tidy-le one _ t = ground arith

-- Whether a handler runs in the thread.
abbrev pub runs_handler : Pc → Bool
runs_handler (executing c) = true
runs_handler (pushing op (some c)) = true
runs_handler (finishing (some c)) = true
runs_handler _ = false

-- Nothing is queued, and no call of `_Work_started` is unanswered, no `_Post` or `_Defer` has counted
-- an operation that it has yet to push.
pub record IsDone (n : ℕ) (y : System) : Type 0 where
  pub queue_empty : y.sched.queue ≡ []
  pub all_finished : y.works ≡ 0
  pub none_in_flight : (i : ℕ) → i < n → in_flight (y.pc i) ≡ 0

length-zero : {A : Type 0} (xs : List A) → length xs ≡ 0 → xs ≡ []
length-zero [] h = refl
length-zero (x ∷ xs) h = absurd (omega arith)

IsDone-Inv :
    {n : ℕ} {one : Bool} (y : System) → Inv n one y → y.sched.outstanding_work ≡ pos 0 → IsDone n y
IsDone-Inv {n} y inv zero_work = record {
  queue_empty = length-zero y.sched.queue (omega (arith, counted));
  all_finished = omega (arith, counted);
  none_in_flight = λ i lt. omega (arith, counted, sum_of-le in_flight n y.pc i lt);
}
  where
    counted : length y.sched.queue + y.works + sum_of in_flight n y.pc ≡ 0
    counted = omega (
      arith,
      ap pos_part zero_work,
      ap neg_part zero_work,
      inv.balanced,
      sum_of_mono to_add held n y.pc (λ i lt. tidy-le y.sched.one_thread (y.pc i) (inv.tidy i)),
    )

-- When the count is 0, whatever the threads did and in whatever order, the queue is empty, no call of
-- `_Work_started` is unanswered, and no operation is on its way into the queue.
pub zero-IsDone :
    {n : ℕ} {one asked : Bool} (y : System)
    → Reach n one asked y
    → y.sched.outstanding_work ≡ pos 0
    → IsDone n y
zero-IsDone y r zero_work = IsDone-Inv y (Reach-Inv r) zero_work

-- No handler runs in the thread, and its context holds no operation.
pub record IsAtRest (p : Pc) : Type 0 where
  pub no_handler : runs_handler p ≡ false
  pub nothing_private : length (own p).private_queue ≡ 0

at_rest : (p : Pc) → IsTidy true p → held p ≤ to_add p → IsAtRest p
unfolding new_context
at_rest outside t h = ground arith
at_rest (pushing op none) t h = ground arith
at_rest (pushing op (some c)) t h = absurd (omega (arith, t.1 refl))
at_rest (finishing none) t h = ground arith
at_rest (finishing (some c)) t h = absurd (omega (arith, t.1 refl))
at_rest (executing c) t h = absurd (omega (arith, t.1 refl))
at_rest (committing again c) (inl t) h = absurd (omega (arith, t.1 refl))
at_rest (committing again c) (inr t) h = ground arith
at_rest _ t h = ground arith

rest-Inv :
    {n : ℕ} (y : System)
    → Inv n true y
    → y.sched.outstanding_work ≡ pos 0
    → (i : ℕ) → i < n
    → IsAtRest (y.pc i)
rest-Inv {n} y inv zero_work i lt =
    at_rest (y.pc i) (subst (λ b. IsTidy b (y.pc i)) inv.single (inv.tidy i)) small
  where
    small : held (y.pc i) ≤ to_add (y.pc i)
    small = omega (
      arith,
      ap pos_part zero_work,
      ap neg_part zero_work,
      inv.balanced,
      sum_of-gap to_add held n y.pc i lt (λ j. tidy-le y.sched.one_thread (y.pc j) (inv.tidy j)),
    )

-- With a concurrency hint of 1, for which `_M_one_thread` is true, the count is 0 only if, besides, no handler runs, and no operation is
-- held back in the context of a thread.
pub zero-IsAtRest :
    {n : ℕ} {asked : Bool} (y : System)
    → Reach n true asked y
    → y.sched.outstanding_work ≡ pos 0
    → (i : ℕ) → i < n
    → IsAtRest (y.pc i)
zero-IsAtRest y r zero_work i lt = rest-Inv y (Reach-Inv r) zero_work i lt

-- The thread is about to call `_Stop`.
abbrev pub wants_stop : Pc → Bool
wants_stop (stopping again c) = true
wants_stop (finishing k) = true
wants_stop _ = false

zero_of_parts : (a : ℤ) → pos_part a ≡ neg_part a → a ≡ pos 0
zero_of_parts a h = ground arith

decides_zero :
    {s t : Scheduler} {w v : ℕ} {p q : Pc}
    → Move s w p t v q
    → wants_stop p ≡ false
    → wants_stop q ≡ true
    → t.outstanding_work ≡ pos 0
unfolding post_begin defer_begin push work_started work_finished take commit relock
decides_zero {s} (commits {again} {c}) h g = ground (
  arith,
  +ℤ_parts s.outstanding_work c.work_delta,
  neg_ℤ_parts c.work_delta,
  zero_of_parts (s.outstanding_work +ℤ c.work_delta),
)
decides_zero {s} (finishes_work k e f) h g =
    ground (arith, zero_of_parts (s.outstanding_work +ℤ negsuc 0))
decides_zero {s} enters h g = ground (arith, zero_of_parts s.outstanding_work)
decides_zero mv h g = ground arith

-- A step by which a thread comes to call `_Stop`, be it from `_Work_finished`, from the end of a
-- handler or from the head of `_Run`, is taken when no work is queued, unanswered or on its way.
pub stop_decision :
    {n : ℕ} {one asked : Bool} (y z : System) (i : ℕ)
    → Reach n one asked y
    → Step n y z
    → wants_stop (y.pc i) ≡ false
    → wants_stop (z.pc i) ≡ true
    → IsDone n z
stop_decision {n} y z i r (by j lt mv) h g =
    zero-IsDone z (next r (by j lt mv)) (ground (arith, decides_zero mv))
