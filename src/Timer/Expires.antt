-- ===== src/Timer/Expires.antt =====
-- What a change of the expiry time does to a timer that waits, and when `wait(ec)` returns.
use executors.Base.{
  ℕ, suc, ◌<◌, ◌≤◌, ◌≡◌, refl, ◌≢◌, ap, sym, subst, ◌∙◌, Option, none, some, List, [], ◌∷◌, ◌++◌,
  Bool, true, false, arith, length, length-append, append-nil, is_nil, Ensures, All, ◌>>=◌, inl,
  inr,
}
use executors.TimerQueue.{WaitOp, Entry, TimerQueue, no_index}
use executors.TimerQueue.Calls.{is_active, cancel_timer}
use executors.TimerQueue.Heap.{IsOrdered, IsIndexed, Contains}
use executors.TimerQueue.Removal.{IsScheduled}
use executors.TimerQueue.Cancel.{handlers, Canceled, cancel_timer_lem}
use executors.Reactor.{Reactor, cancel_in, notify_if, with_queue}
use executors.Timer.Calls.{BasicTimer, expires_at, wait}

length-handlers : (ops : List WaitOp) → length (handlers ops) ≡ length ops
length-handlers [] = refl
length-handlers (op ∷ ops) = ap suc (length-handlers ops)

handlers-append : (xs ys : List WaitOp) → handlers (xs ++ ys) ≡ handlers xs ++ handlers ys
handlers-append [] ys = refl
handlers-append (x ∷ xs) ys = ap (λ hs. x.handler ∷ hs) (handlers-append xs ys)

-- A cancel without a bound leaves no operation.
none_left :
    (timer : ℕ) (q : TimerQueue) (r : TimerQueue × List WaitOp × Bool)
    → length (q.data_of timer).ops < no_index
    → Canceled timer no_index q r
    → is_nil (r.0.data_of timer).ops ≡ true
none_left timer q r small c = elim c.all_or_max [
  | inl h ↦ h
  | inr h ↦ absurd (
      omega (
        arith,
        ap length c.in_order,
        length-append (handlers r.1) (handlers (r.0.data_of timer).ops),
        length-handlers r.1,
        length-handlers (q.data_of timer).ops,
      ))
]

nil_handlers :
    (xs : List ℕ) (ops : List WaitOp) (hs : List ℕ)
    → is_nil ops ≡ true
    → xs ++ handlers ops ≡ hs
    → xs ≡ hs
nil_handlers xs [] hs e h = sym (append-nil xs) ∙ h
nil_handlers xs (op ∷ ops) hs e h = cc

-- What `expires_at` leaves of a timer that waits.
pub record IsReset (time : ℕ) (t : BasicTimer) (r : Reactor) (s : BasicTimer × Reactor)
    : Type 0 where
  pub new_time : s.0.expiry ≡ time
  pub same_timer : s.0.data_at ≡ t.data_at
  pub gone : (e : Entry) → Contains (s.1.queue_at t.queue) e → e.timer ≢ t.data_at
  pub ordered : IsOrdered (s.1.queue_at t.queue)
  pub told :
      handlers s.1.ops ≡ handlers r.ops ++ handlers ((r.queue_at t.queue).data_of t.data_at).ops

queue-notify_if : (b : Bool) (r : Reactor) (q : ℕ) → (notify_if b r).queue_at q ≡ r.queue_at q
queue-notify_if true r q = refl
queue-notify_if false r q = refl

ops-notify_if : (b : Bool) (r : Reactor) → (notify_if b r).ops ≡ r.ops
ops-notify_if true r = refl
ops-notify_if false r = refl

IsReset-of :
    (time : ℕ) (t : BasicTimer) (r : Reactor) (c : TimerQueue × List WaitOp × Bool)
    → length ((r.queue_at t.queue).data_of t.data_at).ops < no_index
    → Canceled t.data_at no_index (r.queue_at t.queue) c
    → IsReset time t r (
      record t { expiry = time },
      notify_if c.2 (record (with_queue t.queue c.0 r) { ops = r.ops ++ c.1 }),
    )
IsReset-of time t r c small x =
    let s : Reactor = record (with_queue t.queue c.0 r) { ops = r.ops ++ c.1 } in
    let queue : (notify_if c.2 s).queue_at t.queue ≡ c.0 =
      queue-notify_if c.2 s t.queue ∙ ground arith in
    let left = none_left t.data_at (r.queue_at t.queue) c small x in
    record {
      new_time = refl;
      same_timer = refl;
      gone =
          subst (λ q. (e : Entry) → Contains q e → e.timer ≢ t.data_at) (sym queue) (x.gone left);
      ordered = subst IsOrdered (sym queue) x.ordered;
      told =
          ap handlers (ops-notify_if c.2 s)
          ∙ handlers-append r.ops c.1
          ∙ ap (λ hs. handlers r.ops ++ hs)
              (nil_handlers (handlers c.1) (c.0.data_of t.data_at).ops
                (handlers ((r.queue_at t.queue).data_of t.data_at).ops) left x.in_order);
    }

-- `expires_at` of a timer that waits, in a queue in order, with fewer than 2 ^ 64 - 1 operations: the
-- timer has the new time and no entry any more, the queue stays in order, and all of its operations
-- are ready to be completed, after those that were.
pub expires_at_lem :
    (time : ℕ) (t : BasicTimer) (r : Reactor)
    → IsOrdered (r.queue_at t.queue)
    → IsIndexed (r.queue_at t.queue)
    → IsScheduled t.data_at (r.queue_at t.queue)
    → is_active t.data_at (r.queue_at t.queue) ≡ true
    → length ((r.queue_at t.queue).data_of t.data_at).ops < no_index
    → Ensures (IsReset time t r) (expires_at time t r)
unfolding expires_at cancel_in
expires_at_lem time t r o x s a small =
    go (cancel_timer t.data_at no_index (r.queue_at t.queue))
      (cancel_timer_lem t.data_at no_index (r.queue_at t.queue) o x s (omega (arith, small)) a)
  where
    go :
        (c : Option (TimerQueue × List WaitOp × Bool))
        → Ensures (Canceled t.data_at no_index (r.queue_at t.queue)) c
        → Ensures (IsReset time t r) (
            (elim c [
              | none ↦ none
              | some (q, ops, any) ↦
                  some (notify_if any (record (with_queue t.queue q r) { ops = r.ops ++ ops }))
            ])
            >>= λ s. some (record t { expiry = time }, s))
    go none h = h
    go (some c) h = IsReset-of time t r c small h

-- `wait(ec)` returns at the first reading of the clock that is not before the expiry time, and sleeps on
-- at every one before it.
pub wait_lem :
    (t : BasicTimer) (early : List ℕ) (now : ℕ) (later : List ℕ)
    → All (λ a. a < t.expiry) early
    → t.expiry ≤ now
    → wait (early ++ now ∷ later) t ≡ some later
unfolding wait
wait_lem t [] now later h k = ground arith
wait_lem t (a ∷ early) now later h k = ground (arith, wait_lem t early now later h.1 k, h.0)
