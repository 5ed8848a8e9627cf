-- ===== src/TimerQueue/Wait.antt =====
-- `_Wait_duration`: how long a thread may sleep.
use executors.Base.{ℕ, ◌≤◌, ◌≡◌, refl, false, ◌==◌, arith, ap, ◌⊎◌, Bool-cases, inl, inr}
use executors.TimerQueue.{Entry, TimerQueue}
use executors.Base.Int.{ℤ, ltb_ℤ}
use executors.TimerQueue.Calls.{wait_duration}
use executors.TimerQueue.Heap.{expiry_at, IsOrdered, Contains}
use executors.TimerQueue.Expiry.{root_least}

abbrev pub IsAtMost : ℤ → ℤ → Type 0
IsAtMost a b = ltb_ℤ b a ≡ false

-- How long a thread may sleep: not longer than it asks for, nor than until an entry expires, and no
-- shorter than one of these.
pub record IsWait (to_duration : ℕ → ℤ) (max_duration : ℤ) (q : TimerQueue) (d : ℤ) : Type 0 where
  pub at_most : IsAtMost d max_duration
  pub in_time : (e : Entry) → Contains q e → IsAtMost d (to_duration e.expiry)
  pub reason : (d ≡ max_duration) ⊎ ((e : Entry) × Contains q e × (d ≡ to_duration e.expiry))

-- `_Wait_duration` gives the least of the maximum and of the durations until the entries expire, if
-- the traits' `to_duration` keeps the order of time points.
pub wait_duration_lem :
    (to_duration : ℕ → ℤ) (max_duration : ℤ) (q : TimerQueue)
    → ((a b : ℕ) → a ≤ b → IsAtMost (to_duration a) (to_duration b))
    → IsOrdered q
    → IsWait to_duration max_duration q (wait_duration to_duration max_duration q)
unfolding wait_duration
wait_duration_lem to_duration max_duration q mono o = record {
  at_most = ground arith;
  in_time = λ e (k, lt, c). ground (
    arith,
    mono (expiry_at q 0) (expiry_at q k) (root_least k q o lt),
    ap (λ a. to_duration a.expiry) c,
  );
  reason = elim (Bool-cases (q.size == 0)) [
    | inl none_there ↦ inl (ground arith)
    | inr some_there ↦ elim (Bool-cases (ltb_ℤ (to_duration (expiry_at q 0)) max_duration)) [
      | inl soon ↦ inr (q.heap 0, (0, ground arith, refl), ground arith)
      | inr later ↦ inl (ground arith)
    ]
  ];
}
