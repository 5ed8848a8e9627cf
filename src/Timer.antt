-- ===== src/Timer.antt =====
-- include/experimental/bits/timer.h: the difference of two time points that saturates, and
-- `basic_timer` on top of the timer queue of its service. A time point and a duration are a signed
-- number of 64 bits; `none` is an overflow, which is undefined.
pub mod Subtract
pub mod Calls
pub mod Expires
use executors.Base.{ℕ, ◌+◌, ◌-◌, ◌^◌, Option, none, some, Bool, ltb, if◌then◌else◌, ◌>>=◌}
use executors.Base.Int.{ℤ, pos, negsuc, ◌+ℤ◌, neg_ℤ, ltb_ℤ, eqb_ℤ}

abbrev pub time_max : ℤ
time_max = pos (2 ^ 63 - 1)

abbrev pub time_min : ℤ
time_min = negsuc (2 ^ 63 - 1)

-- The epoch, and the duration of nothing.
abbrev pub epoch : ℤ
epoch = pos 0

abbrev pub in_range : ℤ → Bool
in_range (pos n) = ltb n (2 ^ 63)
in_range (negsuc n) = ltb n (2 ^ 63)

-- The arithmetic of the representation.
abbrev checked : ℤ → Option ℤ
checked d = if in_range d then some d else none

unfoldable pub sub64 : ℤ → ℤ → Option ℤ
unfolding ◌+ℤ◌ neg_ℤ
sub64 a b = checked (a +ℤ neg_ℤ b)

unfoldable pub neg64 : ℤ → Option ℤ
unfolding neg_ℤ
neg64 a = checked (neg_ℤ a)

-- `__t1 >= __epoch`, `__t2 < __epoch`.
unfoldable pub subtract_up : ℤ → ℤ → Option ℤ
unfolding sub64
subtract_up t1 t2 = if eqb_ℤ t2 time_min then some time_max else do
  room ← sub64 time_max t1
  below ← sub64 epoch t2
  if ltb_ℤ room below then some time_max else sub64 t1 t2

-- `__t1 < __epoch`, `__t2 >= __epoch`.
unfoldable pub subtract_down : ℤ → ℤ → Option ℤ
unfolding sub64 neg64
subtract_down t1 t2 = if eqb_ℤ t1 time_min then some time_min else do
  room ← sub64 time_max t2
  below ← sub64 epoch t1
  if ltb_ℤ room below then some time_min else do d ← sub64 t2 t1; neg64 d

-- `__safe_subtract`
unfoldable pub safe_subtract : ℤ → ℤ → Option ℤ
unfolding sub64 subtract_up subtract_down
safe_subtract t1 t2 =
    if ltb_ℤ t1 epoch
    then (if ltb_ℤ t2 epoch then sub64 t1 t2 else subtract_down t1 t2)
    else (if ltb_ℤ t2 epoch then subtract_up t1 t2 else sub64 t1 t2)
