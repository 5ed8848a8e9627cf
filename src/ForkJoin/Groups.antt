-- ===== src/ForkJoin/Groups.antt =====
-- The counters of a `fork_join_pool` and of its groups.
use executors.Base.{ℕ, suc, ◌<◌, ◌≡◌, refl, ap, List, [], ◌∷◌, true, false, arith, update}
use executors.Base.Family.{sum_of-update, sum_of-le, sum_of-zero}
use native.Mathlib.Decide.{dec_lt}
use executors.ForkJoin.{
  worker, joiner, inline, checking, sleeping, executing, Pool, start, wants, wake, fewer_use,
  stop_threads, push, set_thread, frame, resume, Step, begins, joins, takes, waits, ends, wakes,
  completes, posts_to, posts, executes, starts, finishes, stops, Reach, here, next,
}
use executors.ForkJoin.Counts.{
  queued, runs, busy, IsCounted, wake-runs, resume-runs, notify_all-tally,
  do_work_started-IsCounted, do_work_finished-IsCounted, same-IsCounted, push-IsCounted,
}

Step-IsCounted :
    {n m thread_count : ℕ} (p q : Pool)
    → Step n m thread_count p q
    → IsCounted n m p
    → IsCounted n m q
unfolding stop_threads push
Step-IsCounted {n} {m} p q (begins i lt e) c =
    same-IsCounted n m i (frame worker checking ∷ []) p.queue p lt
      (λ g. omega (arith, ap (runs g) e)) c
Step-IsCounted {n} {m} p q (joins i g lt lt' f) c =
    same-IsCounted n m i (frame (joiner g) checking ∷ p.threads i) p.queue p lt (λ g. omega arith) c
Step-IsCounted {n} {m} p q (takes i g {who} {fs} {rest} lt e w h) c =
    same-IsCounted n m i (frame who (executing g) ∷ fs) rest p lt
      (λ k. omega (arith, ap (runs k) e, ap (queued k) h)) c
Step-IsCounted {n} {m} p q (waits i {who} {fs} lt e w h) c =
    same-IsCounted n m i (frame who sleeping ∷ fs) p.queue p lt (λ k. omega (arith, ap (runs k) e))
      c
Step-IsCounted {n} {m} p q (ends i {who} {fs} lt e w) c =
    same-IsCounted n m i fs p.queue p lt (λ k. omega (arith, ap (runs k) e)) c
Step-IsCounted {n} {m} p q (wakes i lt e) c =
    same-IsCounted n m i (wake (p.threads i)) p.queue p lt
      (λ k. omega (arith, wake-runs k (p.threads i))) c
Step-IsCounted {n} {m} p q (completes i g {who} {fs} lt e) c =
    do_work_finished-IsCounted n m g (set_thread i (resume who fs) p)
      (λ h. omega (
        arith,
        c.counted h,
        ap (runs h) e,
        resume-runs h who fs,
        sum_of-update (runs h) n p.threads i (resume who fs) lt,
      ))
      (record { outside = c.has_use.outside; used = c.has_use.used })
Step-IsCounted {n} {m} p q (posts_to i g j lt lt' f lt'' e) c =
    push-IsCounted n m g (set_thread j (wake (p.threads j)) p) lt' (
      same-IsCounted n m j (wake (p.threads j)) p.queue p lt''
        (λ k. omega (arith, wake-runs k (p.threads j))) c)
Step-IsCounted {n} {m} p q (posts i g lt lt' f none) c = push-IsCounted n m g p lt' c
Step-IsCounted {n} {m} p q (executes i g lt lt' f l) c =
    do_work_started-IsCounted n m g (set_thread i (frame inline (executing g) ∷ p.threads i) p) lt'
      (λ h. omega (
        arith,
        c.counted h,
        sum_of-update (runs h) n p.threads i (frame inline (executing g) ∷ p.threads i) lt,
      ))
      (record { outside = c.has_use.outside; used = c.has_use.used })
Step-IsCounted {n} {m} p q (starts g lt) c =
    do_work_started-IsCounted n m g
      (record p { external = update p.external g (suc (p.external g)) }) lt
      (λ h. ground (arith, c.counted h))
      (record { outside = c.has_use.outside; used = c.has_use.used })
Step-IsCounted {n} {m} p q (finishes g {left} lt e) c =
    do_work_finished-IsCounted n m g (record p { external = update p.external g left })
      (λ h. ground (arith, c.counted h, e))
      (record { outside = c.has_use.outside; used = c.has_use.used })
Step-IsCounted {n} {m} p q (stops e) c = record {
  counted = λ g. omega (arith, c.counted g, notify_all-tally n g (fewer_use p));
  has_use = record { outside = c.has_use.outside; used = ground (arith, c.has_use.used, e) };
}

start-IsCounted : (n m : ℕ) → IsCounted n m start
unfolding start
start-IsCounted n m = record {
  counted = λ g. omega (arith, sum_of-zero (runs g) n (λ i. []) (λ i. refl));
  has_use = record {
    outside = λ g le. refl;
    used = omega (arith, sum_of-zero busy m (λ g. 0) (λ i. refl));
  };
}

Reach-IsCounted : {n m thread_count : ℕ} (p : Pool) → Reach n m thread_count p → IsCounted n m p
Reach-IsCounted {n} {m} p here = start-IsCounted n m
Reach-IsCounted q (next {p} r s) = Step-IsCounted p q s (Reach-IsCounted p r)

-- When the loop of `join` of a group would end, no function of the group is in the queue or is executed by
-- one of the `n` threads, and the group has no other work.
pub Reach-IsJoined :
    (n m thread_count g i : ℕ) (p : Pool)
    → Reach n m thread_count p
    → wants (joiner g) p ≡ false
    → i < n
    → (queued g p.queue ≡ 0) × (runs g (p.threads i) ≡ 0) × (p.external g ≡ 0)
Reach-IsJoined n m thread_count g i p r e lt =
    let c = (Reach-IsCounted p r).counted g in
    let none : p.work_count g ≡ 0 = ground (arith, e) in
    (
      omega (arith, c, none),
      omega (arith, c, none, sum_of-le (runs g) n p.threads i lt),
      omega (arith, c, none),
    )

-- When the loop of a thread of the pool would end, the pool has been stopped, its queue is empty, and
-- none of the `n` threads executes a function.
pub Reach-IsIdle :
    (n m thread_count g i : ℕ) (p : Pool)
    → Reach n m thread_count p
    → wants worker p ≡ false
    → i < n
    → (p.is_stopped ≡ true) × (p.queue ≡ []) × (runs g (p.threads i) ≡ 0)
Reach-IsIdle n m thread_count g i p r e lt =
    let c = Reach-IsCounted p r in
    let none : p.use_count ≡ 0 = ground (arith, e) in
    (
      ground (arith, c.has_use.used, none),
      empty p.queue refl,
      omega (arith, c.counted g, zero_count g, sum_of-le (runs g) n p.threads i lt),
    )
  where
    zero_count : (g : ℕ) → p.work_count g ≡ 0
    zero_count g = elim (dec_lt g m) [
      | yes lt ↦
          ground (arith, e, (Reach-IsCounted p r).has_use.used, sum_of-le busy m p.work_count g lt)
      | no ge ↦ (Reach-IsCounted p r).has_use.outside g (omega arith)
    ]

    empty : (xs : List ℕ) → p.queue ≡ xs → xs ≡ []
    empty [] h = refl
    empty (x ∷ xs) h =
        absurd (ground (arith, (Reach-IsCounted p r).counted x, zero_count x, ap (queued x) h))
