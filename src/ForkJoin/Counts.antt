-- ===== src/ForkJoin/Counts.antt =====
-- The counters of a `fork_join_pool` and of its groups, in the sections under its mutex.
use executors.Base.{
  ℕ, suc, ◌+◌, ◌-◌, ◌<◌, ◌≤◌, ◌≡◌, refl, subst, List, [], ◌∷◌, ◌++◌, true, ◌==◌, arith,
  if◌then◌else◌, update, Bool-cases, inl, inr,
}
use executors.Base.Family.{sum_of, sum_of-update, sum_of-same}
use executors.ForkJoin.{
  Role, worker, joiner, inline, Pc, checking, sleeping, executing, Frame, Pool, wake, notify_all,
  do_work_started, do_work_finished, fewer_work, fewer_use, push, set_thread, resume,
}

-- One for the group itself.
abbrev pub same_group : ℕ → ℕ → ℕ
same_group g h = if g == h then 1 else 0

-- The functions of a group in the queue, and those that a thread executes.
abbrev pub queued : ℕ → List ℕ → ℕ
queued g [] = 0
queued g (h ∷ hs) = same_group h g + queued g hs

abbrev executes_group : ℕ → Pc → ℕ
executes_group g checking = 0
executes_group g sleeping = 0
executes_group g (executing h) = same_group h g

abbrev pub runs : ℕ → List Frame → ℕ
runs g [] = 0
runs g (f ∷ fs) = executes_group g f.pc + runs g fs

abbrev pub busy : ℕ → ℕ
busy count = if count == 0 then 0 else 1

abbrev pub tally : ℕ → ℕ → Pool → ℕ
tally n g p = queued g p.queue + sum_of (runs g) n p.threads + p.external g

-- A group counts its functions, in the queue and in the `n` threads, and its other work; the pool counts
-- the groups below `m` that have any, and itself until it is stopped.
pub record HasUse (m : ℕ) (p : Pool) : Type 0 where
  pub outside : (g : ℕ) → m ≤ g → p.work_count g ≡ 0
  pub used : p.use_count ≡ (if p.is_stopped then 0 else 1) + sum_of busy m p.work_count

pub record IsCounted (n m : ℕ) (p : Pool) : Type 0 where
  pub counted : (g : ℕ) → p.work_count g ≡ tally n g p
  pub has_use : HasUse m p

queued-append : (g : ℕ) (xs ys : List ℕ) → queued g (xs ++ ys) ≡ queued g xs + queued g ys
queued-append g [] ys = omega arith
queued-append g (x ∷ xs) ys = omega (arith, queued-append g xs ys)

pub wake-runs : (g : ℕ) (fs : List Frame) → runs g (wake fs) ≡ runs g fs
wake-runs g [] = refl
wake-runs g (f ∷ fs) = go f.pc refl
  where
    go : (pc : Pc) → f.pc ≡ pc → runs g (wake (f ∷ fs)) ≡ runs g (f ∷ fs)
    go checking e = ground (arith, e)
    go sleeping e = ground (arith, e)
    go (executing h) e = ground (arith, e)

pub resume-runs : (g : ℕ) (who : Role) (fs : List Frame) → runs g (resume who fs) ≡ runs g fs
resume-runs g worker fs = omega arith
resume-runs g (joiner h) fs = omega arith
resume-runs g inline fs = refl

pub notify_all-tally : (n g : ℕ) (p : Pool) → tally n g (notify_all p) ≡ tally n g p
unfolding notify_all
notify_all-tally n g p = omega (
  arith,
  sum_of-same (runs g) n (λ i. wake (p.threads i)) p.threads (λ i. wake-runs g (p.threads i)),
)

-- The counters after a call that finds one thing more than they count.
pub do_work_started-IsCounted :
    (n m g : ℕ) (p : Pool)
    → g < m
    → ((h : ℕ) → tally n h p ≡ p.work_count h + same_group g h)
    → HasUse m p
    → IsCounted n m (do_work_started g p)
unfolding do_work_started
do_work_started-IsCounted n m g p lt t u = record {
  counted = λ h. ground (arith, t h);
  has_use = record {
    outside = λ h le. ground (arith, u.outside h le);
    used = ground (arith, u.used, sum_of-update busy m p.work_count g (suc (p.work_count g)) lt);
  };
}

-- The counters after a call that finds one thing less than they count.
pub do_work_finished-IsCounted :
    (n m g : ℕ) (p : Pool)
    → ((h : ℕ) → p.work_count h ≡ tally n h p + same_group g h)
    → HasUse m p
    → IsCounted n m (do_work_finished g p)
unfolding do_work_finished
do_work_finished-IsCounted n m g p t u = elim (Bool-cases (p.work_count g - 1 == 0)) [
  | inl e ↦
      subst (IsCounted n m) {x = notify_all (fewer_use (fewer_work g p))} (ground (arith, e))
        (record {
          counted = λ h. ground (arith, e, t h, notify_all-tally n h (fewer_use (fewer_work g p)));
          has_use = last e;
        })
  | inr e ↦ subst (IsCounted n m) {x = fewer_work g p} (ground (arith, e)) (record {
    counted = λ h. ground (arith, e, t h);
    has_use = record {
      outside = λ h le. ground (arith, u.outside h le);
      used = ground (arith, e, u.used, fewer_busy, t g);
    };
  })
]
  where
    below : g < m
    below = ground (arith, u.outside g, t g)

    fewer_busy :
        sum_of busy m (update p.work_count g (p.work_count g - 1)) + busy (p.work_count g)
        ≡ sum_of busy m p.work_count + busy (p.work_count g - 1)
    fewer_busy = sum_of-update busy m p.work_count g (p.work_count g - 1) below

    last : p.work_count g - 1 == 0 ≡ true → HasUse m (notify_all (fewer_use (fewer_work g p)))
    last e = record {
      outside = λ h le. ground (arith, u.outside h le);
      used = ground (arith, e, u.used, fewer_busy, t g);
    }

-- A step of the thread `i` that leaves the counters alone.
pub same-IsCounted :
    (n m i : ℕ) (new : List Frame) (queue : List ℕ) (p : Pool)
    → i < n
    → ((g : ℕ) → queued g queue + runs g new ≡ queued g p.queue + runs g (p.threads i))
    → IsCounted n m p
    → IsCounted n m (set_thread i new (record p { queue = queue }))
same-IsCounted n m i new queue p lt e c = record {
  counted = λ g. omega (arith, e g, c.counted g, sum_of-update (runs g) n p.threads i new lt);
  has_use = record { outside = c.has_use.outside; used = c.has_use.used };
}

pub push-IsCounted : (n m g : ℕ) (p : Pool) → g < m → IsCounted n m p → IsCounted n m (push g p)
unfolding push
push-IsCounted n m g p lt c =
    do_work_started-IsCounted n m g (record p { queue = p.queue ++ g ∷ [] }) lt
      (λ h. ground (arith, c.counted h, queued-append h p.queue (g ∷ [])))
      (record { outside = c.has_use.outside; used = c.has_use.used })
