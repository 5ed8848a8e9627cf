-- ===== src/Timer/Subtract.antt =====
-- `__safe_subtract` beside the difference of integers, cut off at the ends of the range.
use executors.Base.{◌^◌, ◌≡◌, some, true, ltb, arith, if◌then◌else◌}
use executors.Base.Int.{ℤ, pos, negsuc, ◌+ℤ◌, neg_ℤ}
use executors.Timer.{time_max, time_min, in_range, safe_subtract}

-- The nearest number in the range.
abbrev pub clamped : ℤ → ℤ
clamped (pos n) = if ltb n (2 ^ 63) then pos n else time_max
clamped (negsuc n) = if ltb n (2 ^ 63) then negsuc n else time_min

-- For any two time points, `__safe_subtract` does no arithmetic that overflows, and gives their
-- difference, or the end of the range that is nearest to it.
pub safe_subtract_lem :
    (t1 t2 : ℤ)
    → in_range t1 ≡ true
    → in_range t2 ≡ true
    → safe_subtract t1 t2 ≡ some (clamped (t1 +ℤ neg_ℤ t2))
unfolding safe_subtract ◌+ℤ◌ neg_ℤ
safe_subtract_lem (pos a) (pos b) h k = ground arith
safe_subtract_lem (pos a) (negsuc b) h k = ground arith
safe_subtract_lem (negsuc a) (pos b) h k = ground arith
safe_subtract_lem (negsuc a) (negsuc b) h k = ground arith
