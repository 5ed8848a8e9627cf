-- ===== src/Await/Turns.antt =====
-- The turns of the threads that resume a coroutine.
use executors.Base.{ℕ, ◌+◌, ◌<◌, ◌≤◌, ◌≡◌, ◌≢◌, refl, ap, true, false, ltb, arith, if◌then◌else◌}
use executors.Base.Family.{sum_of, sum_of-update, sum_of-zero, sum_of-two, sum_of-empty}
use executors.Await.{
  Pc, outside, running, leaving, Impl, resume, return_from, finish_turn, throw_from, Step, resumes,
  returns, finishes, throws, Reach, here, next,
}

-- A thread that has the turn.
abbrev pub turn : Pc → ℕ
turn outside = 0
turn running = 1
turn leaving = 1

abbrev pub turns : ℕ → Impl → ℕ
turns n p = sum_of turn n p.threads

abbrev pub wanted : Impl → ℕ
wanted p = if p.is_over then 0 else if ltb 0 p.invocations then 1 else 0

pub record IsFair (n : ℕ) (p : Impl) : Type 0 where
  pub taken : turns n p ≡ wanted p
  pub counted : p.is_over ≡ false → p.resumed + turns n p ≡ p.runs + p.invocations
  pub kept : p.is_over ≡ true → 0 < p.invocations
  pub owed : p.runs ≤ p.resumed
  pub continued : p.continued ≤ (if p.is_over then 1 else 0)

Step-IsFair : {n : ℕ} (p q : Impl) → Step n p q → IsFair n p → IsFair n q
unfolding resume return_from finish_turn throw_from
Step-IsFair {n} p q (resumes i lt h) f =
    let u = sum_of-update turn n p.threads i running lt in
    let e = ap turn h in
    record {
      taken = ground (arith, f.taken, f.counted, f.kept, u, e);
      counted = λ o. ground (arith, f.taken, f.counted, f.kept, u, e, o);
      kept = λ o. ground (arith, f.taken, f.counted, f.kept, u, e, o);
      owed = ground (arith, f.taken, f.counted, f.kept, u, e, f.owed);
      continued = ground (arith, f.continued);
    }
Step-IsFair {n} p q (returns i b lt h) f =
    let u = sum_of-update turn n p.threads i outside lt in
    let v = sum_of-update turn n p.threads i leaving lt in
    let e = ap turn h in
    record {
      taken = ground (arith, f.taken, f.counted, f.kept, u, v, e);
      counted = λ o. ground (arith, f.taken, f.counted, f.kept, u, v, e, o);
      kept = λ o. ground (arith, f.taken, f.counted, f.kept, u, v, e, o);
      owed = ground (arith, f.owed);
      continued = ground (arith, f.continued, f.taken, u, e);
    }
Step-IsFair {n} p q (finishes i lt h) f =
    let u = sum_of-update turn n p.threads i outside lt in
    let v = sum_of-update turn n p.threads i running lt in
    let e = ap turn h in
    record {
      taken = ground (arith, f.taken, f.counted, f.kept, u, v, e);
      counted = λ o. ground (arith, f.taken, f.counted, f.kept, u, v, e, o);
      kept = λ o. ground (arith, f.taken, f.counted, f.kept, u, v, e, o);
      owed = ground (arith, f.owed, f.taken, f.counted, f.kept, u, v, e);
      continued = ground (arith, f.continued);
    }
Step-IsFair {n} p q (throws i lt h) f =
    let u = sum_of-update turn n p.threads i outside lt in
    let e = ap turn h in
    record {
      taken = ground (arith, f.taken, f.counted, f.kept, u, e);
      counted = λ o. ground (arith, f.taken, f.counted, f.kept, u, e, o);
      kept = λ o. ground (arith, f.taken, f.counted, f.kept, u, e, o);
      owed = ground (arith, f.owed);
      continued = ground (arith, f.continued);
    }

Reach-IsFair : (n : ℕ) (p : Impl) → Reach n p → IsFair n p
Reach-IsFair n p here =
    let z = sum_of-zero turn n (λ i. outside) (λ i. refl) in
    record {
      taken = z;
      counted = λ o. omega (arith, z);
      kept = λ o. absurd (ground (arith, o));
      owed = omega arith;
      continued = omega arith;
    }
Reach-IsFair n q (next {p} r s) = Step-IsFair p q s (Reach-IsFair n p r)

no_turn : (pc : Pc) → turn pc ≡ 0 → pc ≡ outside
no_turn pc e = ground (arith, e)

-- While a thread is in the function of the coroutine, or between its runs, no other thread is.
pub Reach-IsExclusive :
    (n i j : ℕ) (p : Impl)
    → Reach n p
    → i < n
    → j < n
    → i ≢ j
    → p.threads i ≢ outside
    → p.threads j ≡ outside
Reach-IsExclusive n i j p r lt lt' d h =
    let f = (Reach-IsFair n p r).taken in
    let two = sum_of-two turn n p.threads i j lt lt' d in
    let mine : turn (p.threads i) ≡ 1 = ground (arith, h) in
    let most : wanted p ≤ 1 = ground arith in
    no_turn (p.threads j) (omega (arith, f, two, mine, most))

-- No resumption is lost: when no thread has the turn, and the coroutine was not left for good, its function
-- has run once for each call of `_Resume`.
pub Reach-IsResumed :
    (n : ℕ) (p : Impl)
    → Reach n p
    → ((i : ℕ) → i < n → p.threads i ≡ outside)
    → p.is_over ≡ false
    → p.runs ≡ p.resumed
Reach-IsResumed n p r h o =
    let f = Reach-IsFair n p r in
    let z = sum_of-empty turn n p.threads (λ i lt. ap turn (h i lt)) in
    ground (arith, f.counted, f.taken, z, o)
