-- ===== src/ForkJoin/Sound.antt =====
-- The threads of a `fork_join_pool` that sleep, in the sections under its mutex.
use executors.Base.{
  ℕ, ◌-◌, ◌≡◌, refl, sym, ap, subst, ◌∙◌, List, true, false, ◌==◌, arith, update, is_nil,
  Bool-cases, inl, inr,
}
use executors.ForkJoin.{
  Role, worker, joiner, inline, Frame, Pool, wants, wake, notify_all, do_work_started,
  do_work_finished, fewer_work, fewer_use, set_thread, is_sleeping,
}
use executors.ForkJoin.Stacks.{
  IsShaped, IsRestful, IsAlert, StillWants, wants-any_wants, wants-IsRestful, wake-IsShaped,
  wake-is_sleeping, awake-IsRestful,
}

-- When there are functions in the queue and a thread sleeps, another is alert.
pub record IsSound (p : Pool) : Type 0 where
  pub shaped : (i : ℕ) → IsShaped (p.threads i)
  pub restful : (i : ℕ) → IsRestful p (p.threads i)
  pub watched :
      (i : ℕ)
      → is_nil p.queue ≡ false
      → is_sleeping (p.threads i) ≡ true
      → (j : ℕ) × IsAlert p (p.threads j)

-- A thread after a step, `new`, and before it, `old`.
pub record Fits (p q : Pool) (old new : List Frame) : Type 0 where
  pub new_shaped : IsShaped new
  pub new_restful : IsRestful q new
  pub not_new : is_sleeping new ≡ true → is_sleeping old ≡ true
  pub alert : IsAlert p old → IsAlert q new

same-Fits :
    (p q : Pool) (fs : List Frame) → StillWants p q → IsShaped fs → IsRestful p fs → Fits p q fs fs
same-Fits p q fs h s r = record {
  new_shaped = s;
  new_restful = wants-IsRestful p q fs h r;
  not_new = λ e. e;
  alert = λ a. (a.0, wants-any_wants p q fs h a.1);
}

each-IsSound :
    (p q : Pool)
    → (is_nil q.queue ≡ false → is_nil p.queue ≡ false)
    → ((i : ℕ) → Fits p q (p.threads i) (q.threads i))
    → IsSound p
    → IsSound q
each-IsSound p q smaller fits s = record {
  shaped = λ i. (fits i).new_shaped;
  restful = λ i. (fits i).new_restful;
  watched = λ i some_left e.
      let (j, a) = s.watched i (smaller some_left) ((fits i).not_new e) in (j, (fits j).alert a);
}

-- A step of the thread `i` alone.
pub one-IsSound :
    (p : Pool) (i : ℕ) (queue : List ℕ) (new : List Frame)
    → (is_nil queue ≡ false → is_nil p.queue ≡ false)
    → Fits p p (p.threads i) new
    → IsSound p
    → IsSound (set_thread i new (record p { queue = queue }))
one-IsSound p i queue new smaller fits s =
    each-IsSound p (set_thread i new (record p { queue = queue })) smaller go s
  where
    q : Pool
    q = set_thread i new (record p { queue = queue })

    transfer : (old now : List Frame) → Fits p p old now → Fits p q old now
    transfer old now f = record {
      new_shaped = f.new_shaped;
      new_restful = wants-IsRestful p q now (λ who e. same who ∙ e) f.new_restful;
      not_new = f.not_new;
      alert = λ a. ((f.alert a).0, wants-any_wants p q now (λ who e. same who ∙ e) (f.alert a).1);
    }
      where
        same : (who : Role) → wants who q ≡ wants who p
        same worker = refl
        same (joiner g) = refl
        same inline = refl

    go : (k : ℕ) → Fits p q (p.threads k) (update p.threads i new k)
    go k = elim (Bool-cases (i == k)) [
      | inl e ↦
          let h : new ≡ update p.threads i new k = ground (arith, e) in
          let h' : p.threads i ≡ p.threads k = ground (arith, e) in
          subst (λ old. Fits p q old (update p.threads i new k)) h'
            (subst (Fits p q (p.threads i)) h (transfer (p.threads i) new fits))
      | inr e ↦
          let h : p.threads k ≡ update p.threads i new k = ground (arith, e) in
          subst (Fits p q (p.threads k)) h (
            transfer (p.threads k) (p.threads k)
              (same-Fits p p (p.threads k) (λ who e. e) (s.shaped k) (s.restful k)))
    ]

-- After a notification of all threads, none sleeps.
pub notify_all-IsSound : (p : Pool) → ((i : ℕ) → IsShaped (p.threads i)) → IsSound (notify_all p)
unfolding notify_all
notify_all-IsSound p s = record {
  shaped = λ i. wake-IsShaped (p.threads i) (s i);
  restful =
      λ i. awake-IsRestful (notify_all p) (wake (p.threads i)) (wake-is_sleeping (p.threads i));
  watched = λ i some_left e. ground (arith, wake-is_sleeping (p.threads i));
}

-- A step that changes the counters only, and ends nobody's wish.
count-IsSound :
    (p q : Pool)
    → q.threads ≡ p.threads
    → q.queue ≡ p.queue
    → StillWants p q
    → IsSound p
    → IsSound q
count-IsSound p q e f h s =
    each-IsSound p q (λ k. subst (λ l. is_nil l ≡ false) f k)
      (λ i.
        subst (Fits p q (p.threads i)) (ap (λ t. t i) (sym e))
          (same-Fits p q (p.threads i) h (s.shaped i) (s.restful i)))
      s

pub started-StillWants : (g : ℕ) (p : Pool) → StillWants p (do_work_started g p)
unfolding do_work_started
started-StillWants g p worker e = ground (arith, e)
started-StillWants g p (joiner h) e = ground (arith, e)
started-StillWants g p inline e = e

pub do_work_started-IsSound : (g : ℕ) (p : Pool) → IsSound p → IsSound (do_work_started g p)
unfolding do_work_started
do_work_started-IsSound g p s =
    count-IsSound p (do_work_started g p) refl refl (started-StillWants g p) s

pub external-IsSound :
    (p : Pool) (external : ℕ → ℕ) → IsSound p → IsSound (record p { external = external })
external-IsSound p external s = count-IsSound p (record p { external = external }) refl refl same s
  where
    same : StillWants p (record p { external = external })
    same worker e = e
    same (joiner g) e = e
    same inline e = e

pub do_work_finished-IsSound : (g : ℕ) (p : Pool) → IsSound p → IsSound (do_work_finished g p)
unfolding do_work_finished
do_work_finished-IsSound g p s = elim (Bool-cases (p.work_count g - 1 == 0)) [
  | inl e ↦
      subst IsSound (ground (arith, e)) (notify_all-IsSound (fewer_use (fewer_work g p)) s.shaped)
  | inr e ↦
      subst IsSound (ground (arith, e)) (count-IsSound p (fewer_work g p) refl refl (kept e) s)
]
  where
    kept : p.work_count g - 1 == 0 ≡ false → StillWants p (fewer_work g p)
    kept e worker h = h
    kept e (joiner k) h = ground (arith, e, h)
    kept e inline h = h
