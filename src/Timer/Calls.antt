-- ===== src/Timer/Calls.antt =====
-- timer.h: `basic_timer`, on the reactor of its service. A time point is a number of ticks since the
-- first one, as in the timer queue; `none` is a call of the reactor that is undefined.
use executors.Base.{ℕ, ◌+◌, Option, none, some, List, [], ◌∷◌, false, ltb, if◌then◌else◌, ◌>>=◌}
use executors.TimerQueue.{no_index}
use executors.Reactor.{Reactor, enqueue_in, cancel_in, move_in}

-- The service's queue, the address of `_M_data`, and the expiry time.
pub record BasicTimer : Type 0 where
  pub queue : ℕ
  pub data_at : ℕ
  pub expiry : ℕ

-- The constructors without a time, with one, and with a duration from `now` on.
pub new_timer : ℕ → ℕ → ℕ → BasicTimer
new_timer max_time queue data_at = record { queue = queue; data_at = data_at; expiry = max_time }

pub new_timer_at : ℕ → ℕ → ℕ → BasicTimer
new_timer_at queue data_at time = record { queue = queue; data_at = data_at; expiry = time }

-- `now + d`, where a time point past the last one is undefined.
unfoldable pub time_after : ℕ → ℕ → ℕ → Option ℕ
time_after max_time now d = if ltb max_time (now + d) then none else some (now + d)

pub new_timer_after : ℕ → ℕ → ℕ → ℕ → ℕ → Option BasicTimer
unfolding time_after new_timer_at
new_timer_after max_time queue data_at now d = do
  time ← time_after max_time now d
  some (new_timer_at queue data_at time)

unfoldable pub cancel : BasicTimer → Reactor → Option Reactor
unfolding cancel_in
cancel t r = cancel_in t.queue t.data_at no_index r

unfoldable pub cancel_one : BasicTimer → Reactor → Option Reactor
unfolding cancel_in
cancel_one t r = cancel_in t.queue t.data_at 1 r

-- The destructor
unfoldable pub destroy : BasicTimer → Reactor → Option Reactor
unfolding cancel
destroy t r = cancel t r

unfoldable pub expires_at : ℕ → BasicTimer → Reactor → Option (BasicTimer × Reactor)
unfolding cancel
expires_at time t r = do s ← cancel t r; some (record t { expiry = time }, s)

unfoldable pub expires_after : ℕ → ℕ → ℕ → BasicTimer → Reactor → Option (BasicTimer × Reactor)
unfolding cancel time_after
expires_after max_time now d t r = do
  s ← cancel t r
  time ← time_after max_time now d
  some (record t { expiry = time }, s)

-- `wait(token)`, with the handler of the token.
unfoldable pub start_wait : ℕ → ℕ → BasicTimer → Reactor → Option Reactor
unfolding enqueue_in
start_wait max_time handler t r =
    enqueue_in max_time t.queue t.expiry t.data_at
      (record { handler = handler; is_canceled = false }) r

-- `wait(ec)`, by the readings of the clock after each sleep: those that are left when it returns, or
-- `none` if it still sleeps after the last of them.
unfoldable pub wait : List ℕ → BasicTimer → Option (List ℕ)
wait [] t = none
wait (now ∷ later) t = let rest = wait later t in if ltb now t.expiry then rest else some later

-- The move constructor: the new timer, with its data at `data_at`, and what is left of the old one.
unfoldable pub move_construct :
    ℕ → ℕ → BasicTimer → Reactor → Option (BasicTimer × BasicTimer × Reactor)
unfolding move_in
move_construct max_time data_at source r = do
  s ← move_in source.queue data_at source.data_at r
  some (record source { data_at = data_at }, record source { expiry = max_time }, s)

-- The move assignment.
unfoldable pub move_assign :
    ℕ → BasicTimer → BasicTimer → Reactor → Option (BasicTimer × BasicTimer × Reactor)
unfolding cancel move_in
move_assign max_time target source r = do
  s ← cancel target r
  u ← move_in source.queue target.data_at source.data_at s
  some (record source { data_at = target.data_at }, record source { expiry = max_time }, u)
