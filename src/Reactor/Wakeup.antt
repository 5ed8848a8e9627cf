-- ===== src/Reactor/Wakeup.antt =====
-- Who tells the thread of a reactor that there is work, and when it is not told.
use executors.Base.{
  ℕ, ◌<◌, ◌≡◌, refl, ◌+◌, ◌^◌, ◌∙◌, sym, ap, subst, Option, none, some, List, [], ◌∷◌, ◌++◌, Bool,
  true, false, not, ◌==◌, arith, if◌then◌else◌, length, is_nil, update,
}
use executors.Base.Int.{ℤ}
use executors.TimerQueue.{WaitOp, TimerQueue, remove_timer}
use executors.TimerQueue.Calls.{enqueue_timer, cancel_timer, cancel_ops, is_active, move_timer}
use executors.TimerQueue.Cancel.{cancel_ops-Taken}
use executors.Reactor.{
  minute, Pc, starting, completing, waiting, finished, Reactor, new_reactor, notified, notify_if,
  with_queue, stop, add_timer_queue, remove_timer_queue, move_in, enqueue_in, cancel_in, next_op,
  round,
}
use executors.Reactor.Queues.{get_ready, least_duration}
use executors.Reactor.Thread.{
  Step, begins, wakes, completes, stops, adds, removes, moves, enqueues, cancels, Reach, here, next,
}

-- Who waits and has not been notified has nothing to do.
abbrev pub IsHeard : Pc → List WaitOp → Type 0
IsHeard (waiting d false) ops = ops ≡ []
IsHeard _ ops = Unit

-- A cancel that finds no operation takes none.
cancel_ops-zero :
    (max_num : ℕ) (ops : List WaitOp)
    → length ops < 2 ^ 64
    → (cancel_ops 0 max_num ops).2 ≡ 0
    → (cancel_ops 0 max_num ops).0 ≡ []
cancel_ops-zero max_num ops small none_taken =
    go (cancel_ops 0 max_num ops).0
      (sym none_taken ∙ (cancel_ops-Taken 0 max_num ops (omega (arith, small))).count)
  where
    go : (taken : List WaitOp) → 0 ≡ 0 + length taken → taken ≡ []
    go [] e = refl
    go (t ∷ taken) e = absurd (omega (arith, e))

notified-IsHeard : (p : Pc) (ops more : List WaitOp) → IsHeard (notified p) (ops ++ more)
notified-IsHeard starting ops more = tt
notified-IsHeard (completing op) ops more = tt
notified-IsHeard (waiting d told) ops more = tt
notified-IsHeard finished ops more = tt

next_op-IsHeard :
    (to_duration : ℕ → ℕ → ℤ) (r : Reactor)
    → IsHeard (next_op to_duration r).thread (next_op to_duration r).ops
unfolding next_op
next_op-IsHeard to_duration r = ground arith

-- The result of `_Cancel_timer` is false only if it took no operation.
abbrev IsQuiet : Option (TimerQueue × List WaitOp × Bool) → Type 0
IsQuiet none = Unit
IsQuiet (some r) = r.2 ≡ false → r.1 ≡ []

cancel_timer-IsQuiet :
    (timer max_num : ℕ) (q : TimerQueue)
    → length (q.data_of timer).ops < 2 ^ 64
    → IsQuiet (cancel_timer timer max_num q)
unfolding cancel_timer
cancel_timer-IsQuiet timer max_num q small =
    go (is_active timer q) (is_nil taken.1) (remove_timer timer left)
      (cancel_ops-zero max_num (q.data_of timer).ops small)
  where
    taken : List WaitOp × List WaitOp × ℕ
    taken = cancel_ops 0 max_num (q.data_of timer).ops

    left : TimerQueue
    left = record q {
      data_of = update q.data_of timer (record (q.data_of timer) { ops = taken.1 });
    }

    go :
        (active all : Bool) (o : Option TimerQueue)
        → (taken.2 ≡ 0 → taken.0 ≡ [])
        → IsQuiet (elim active [
          | false ↦ some (q, [], false)
          | true ↦ elim all [
            | false ↦ some (left, taken.0, not (taken.2 == 0))
            | true ↦ elim o [ none ↦ none | some s ↦ some (s, taken.0, not (taken.2 == 0)) ]
          ]
        ])
    go false all o h = λ e. refl
    go true false o h = λ e. h (ground arith)
    go true true none h = tt
    go true true (some s) h = λ e. h (ground arith)

-- A call that notifies the thread if it adds operations.
notify-IsHeard :
    (p : Pc) (ops more : List WaitOp) (any : Bool)
    → IsHeard p ops
    → (any ≡ false → more ≡ [])
    → IsHeard (if any then notified p else p) (ops ++ more)
notify-IsHeard p ops more true h f = notified-IsHeard p ops more
notify-IsHeard (waiting d false) ops more false h f = ground (arith, h, f refl)
notify-IsHeard p ops more false h f = ground arith

enqueue-IsHeard :
    (p : Pc) (ops : List WaitOp) (first : Bool)
    → IsHeard p ops
    → IsHeard (if first then notified p else p) ops
enqueue-IsHeard p ops first h = ground arith

-- Every step keeps it, of a call that may be undefined: of what it gives.
abbrev IsKept : Option Reactor → Type 0
IsKept none = Unit
IsKept (some s) = IsHeard s.thread s.ops

IsKept-some : {s : Reactor} (o : Option Reactor) → IsKept o → o ≡ some s → IsHeard s.thread s.ops
IsKept-some o k e = subst IsKept e k

round-IsHeard :
    (fuel now : ℕ → ℕ) (to_duration : ℕ → ℕ → ℤ) (r : Reactor)
    → IsKept (round fuel now to_duration r)
unfolding round
round-IsHeard fuel now to_duration r = go r.stopped (get_ready fuel now r.queue_at r.queues)
  where
    go :
        (b : Bool) (o : Option ((ℕ → TimerQueue) × List WaitOp))
        → IsKept (
            if b then some (record r { thread = finished }) else elim o [
              | none ↦ none
              | some (queue_at, ops) ↦
                  some (next_op to_duration (record r { queue_at = queue_at; ops = r.ops ++ ops }))
            ])
    go true o = tt
    go false none = tt
    go false (some a) =
        next_op-IsHeard to_duration (record r { queue_at = a.0; ops = r.ops ++ a.1 })

cancel_in-IsHeard :
    (q timer max_num : ℕ) (r : Reactor)
    → length ((r.queue_at q).data_of timer).ops < 2 ^ 64
    → IsHeard r.thread r.ops
    → IsKept (cancel_in q timer max_num r)
unfolding cancel_in
cancel_in-IsHeard q timer max_num r small h =
    go (cancel_timer timer max_num (r.queue_at q))
      (cancel_timer-IsQuiet timer max_num (r.queue_at q) small)
  where
    go :
        (o : Option (TimerQueue × List WaitOp × Bool))
        → IsQuiet o
        → IsKept (elim o [
          | none ↦ none
          | some (t, ops, any) ↦
              some (notify_if any (record (with_queue q t r) { ops = r.ops ++ ops }))
        ])
    go none k = tt
    go (some (t, ops, true)) k = notified-IsHeard r.thread r.ops ops
    go (some (t, ops, false)) k = notify-IsHeard r.thread r.ops ops false h k

enqueue_in-IsHeard :
    (max_time q expiry timer : ℕ) (op : WaitOp) (r : Reactor)
    → IsHeard r.thread r.ops
    → IsKept (enqueue_in max_time q expiry timer op r)
unfolding enqueue_in
enqueue_in-IsHeard max_time q expiry timer op r h =
    go (enqueue_timer max_time expiry timer op (r.queue_at q))
  where
    go :
        (o : Option (TimerQueue × Bool))
        → IsKept
            (elim o [ none ↦ none | some (t, first) ↦ some (notify_if first (with_queue q t r)) ])
    go none = tt
    go (some (t, true)) = enqueue-IsHeard r.thread r.ops true h
    go (some (t, false)) = h

move_in-IsHeard :
    (q target source : ℕ) (r : Reactor)
    → IsHeard r.thread r.ops
    → IsKept (move_in q target source r)
unfolding move_in
move_in-IsHeard q target source r h = go (move_timer target source (r.queue_at q))
  where
    go :
        (o : Option TimerQueue) → IsKept (elim o [ none ↦ none | some t ↦ some (with_queue q t r) ])
    go none = tt
    go (some t) = h

Step-IsHeard :
    {to_duration : ℕ → ℕ → ℤ} {r s : Reactor}
    → Step to_duration r s
    → IsHeard r.thread r.ops
    → IsHeard s.thread s.ops
unfolding stop add_timer_queue remove_timer_queue
Step-IsHeard {to_duration} {r} (begins fuel now e f) h =
    IsKept-some (round fuel now to_duration r) (round-IsHeard fuel now to_duration r) f
Step-IsHeard {to_duration} {r} (wakes fuel now e f) h =
    IsKept-some (round fuel now to_duration r) (round-IsHeard fuel now to_duration r) f
Step-IsHeard {to_duration} {r} (completes e) h = next_op-IsHeard to_duration r
Step-IsHeard {r} stops h = enqueue-IsHeard r.thread r.ops true h
Step-IsHeard (adds q) h = h
Step-IsHeard (removes q) h = h
Step-IsHeard {r} (moves q target source f) h =
    IsKept-some (move_in q target source r) (move_in-IsHeard q target source r h) f
Step-IsHeard {r} (enqueues max_time q expiry timer op f) h =
    IsKept-some (enqueue_in max_time q expiry timer op r)
      (enqueue_in-IsHeard max_time q expiry timer op r h) f
Step-IsHeard {r} (cancels q timer max_num small f) h =
    IsKept-some (cancel_in q timer max_num r) (cancel_in-IsHeard q timer max_num r small h) f

-- Whatever the calls do, in whatever order: while the thread waits and has not been notified, no
-- operation is ready, so that a cancelled operation never waits for a timer.
pub Reach-IsHeard :
    {to_duration : ℕ → ℕ → ℤ} (r : Reactor) → Reach to_duration r → IsHeard r.thread r.ops
unfolding new_reactor
Reach-IsHeard r (here queue_at) = tt
Reach-IsHeard r (next path st) = Step-IsHeard st (Reach-IsHeard _ path)

-- A reactor that has been stopped, whose thread waits for some time and has not been told.
pub record IsUnheard (to_duration : ℕ → ℕ → ℤ) (d : ℤ) : Type 0 where
  pub reactor : Reactor
  pub reached : Reach to_duration reactor
  pub has_stopped : reactor.stopped ≡ true
  pub still_waits : reactor.thread ≡ waiting d false

-- If the destructor stops the reactor while the thread completes the last operation that was ready, the
-- thread goes on to wait, without a notice, for the time until the next timer expires, or a minute.
pub stop-IsUnheard :
    {to_duration : ℕ → ℕ → ℤ} (r : Reactor) (op : WaitOp)
    → Reach to_duration r
    → r.thread ≡ completing op
    → r.ops ≡ []
    → IsUnheard to_duration (least_duration to_duration r.queue_at minute r.queues)
unfolding stop next_op
stop-IsUnheard {to_duration} r op path e none_left = record {
  reactor = next_op to_duration (stop r);
  reached = next (next path stops) (completes {op = op} (ap notified e));
  has_stopped = ground (arith, none_left);
  still_waits = ground (arith, none_left);
}
