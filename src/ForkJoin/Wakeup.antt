-- ===== src/ForkJoin/Wakeup.antt =====
-- The threads that sleep, while there are functions in the queue.
use executors.Base.{
  ℕ, suc, ◌≡◌, refl, sym, subst, ◌∙◌, List, [], ◌∷◌, true, false, ◌==◌, arith, update, is_nil,
  Bool-cases, inl, inr,
}
use executors.ForkJoin.{
  Role, worker, joiner, inline, Pc, checking, sleeping, executing, Frame, Pool, start, wants, wake,
  fewer_use, stop_threads, push, set_thread, frame, resume, is_sleeping, IsFree, Step, begins,
  joins, takes, waits, ends, wakes, completes, posts_to, posts, executes, starts, finishes, stops,
  Reach, here, next,
}
use executors.ForkJoin.Stacks.{
  IsShaped, any_wants, IsRestful, IsAlert, StillWants, wants-any_wants, wants-IsRestful,
  wake-IsShaped, wake-is_sleeping, wake-any_wants, awake-IsRestful, restful-any_wants,
  executing-is_sleeping, executing-IsShaped, free-IsExecuting,
}
use executors.ForkJoin.Sound.{
  IsSound, Fits, one-IsSound, notify_all-IsSound, started-StillWants, do_work_started-IsSound,
  external-IsSound, do_work_finished-IsSound,
}

resume-Fits :
    (p : Pool) (who : Role) (g : ℕ) (fs : List Frame)
    → IsShaped (frame who (executing g) ∷ fs)
    → Fits p p (frame who (executing g) ∷ fs) (resume who fs)
resume-Fits p worker g fs s = record {
  new_shaped = s;
  new_restful = λ e. ground (arith, e);
  not_new = λ e. ground (arith, e);
  alert = λ a. (refl, a.1);
}
resume-Fits p (joiner h) g fs s = record {
  new_shaped = s;
  new_restful = λ e. ground (arith, e);
  not_new = λ e. ground (arith, e);
  alert = λ a. (refl, a.1);
}
resume-Fits p inline g fs s = record {
  new_shaped = executing-IsShaped fs s;
  new_restful = awake-IsRestful p fs (executing-is_sleeping fs s);
  not_new = λ e. ground (arith, e, executing-is_sleeping fs s);
  alert = λ a. (executing-is_sleeping fs s, a.1);
}

-- A call from a function, or the first one.
call-Fits :
    (p : Pool) (who : Role) (pc : Pc) (fs : List Frame)
    → is_sleeping (frame who pc ∷ fs) ≡ false
    → IsFree fs
    → IsShaped fs
    → Fits p p fs (frame who pc ∷ fs)
call-Fits p who pc fs awake free s = record {
  new_shaped = free-IsExecuting fs free s;
  new_restful = awake-IsRestful p (frame who pc ∷ fs) awake;
  not_new = λ e. ground (arith, e, awake);
  alert = λ a. (awake, ground (arith, a.1));
}

wake-Fits : (p : Pool) (fs : List Frame) → IsShaped fs → Fits p p fs (wake fs)
wake-Fits p fs s = record {
  new_shaped = wake-IsShaped fs s;
  new_restful = awake-IsRestful p (wake fs) (wake-is_sleeping fs);
  not_new = λ e. ground (arith, e, wake-is_sleeping fs);
  alert = λ a. (wake-is_sleeping fs, wake-any_wants p fs ∙ a.1);
}

-- What stood at the head of the stack of a thread.
at_thread :
    (p : Pool) (i : ℕ) (old new : List Frame)
    → p.threads i ≡ old
    → (IsShaped old → Fits p p old new)
    → IsSound p
    → Fits p p (p.threads i) new
at_thread p i old new e f s =
    subst (λ fs. Fits p p fs new) (sym e) (f (subst IsShaped e (s.shaped i)))

-- A function comes to the queue when no thread sleeps, or one is alert.
push-IsSound :
    (g : ℕ) (p : Pool)
    → ((i : ℕ) → is_sleeping (p.threads i) ≡ true → (j : ℕ) × IsAlert p (p.threads j))
    → IsSound p
    → IsSound (push g p)
unfolding push
push-IsSound g p h s = record {
  shaped = s.shaped;
  restful = λ i. wants-IsRestful p (push g p) (p.threads i) still (s.restful i);
  watched = λ i some_left e.
      let (j, a) = h i e in (j, (a.0, wants-any_wants p (push g p) (p.threads j) still a.1));
}
  where
    still : StillWants p (push g p)
    still worker e = started-StillWants g p worker e
    still (joiner k) e = started-StillWants g p (joiner k) e
    still inline e = e

wake-IsSound : (i : ℕ) (p : Pool) → IsSound p → IsSound (set_thread i (wake (p.threads i)) p)
wake-IsSound i p s =
    one-IsSound p i p.queue (wake (p.threads i)) (λ e. e) (wake-Fits p (p.threads i) (s.shaped i)) s

posts_to-IsSound :
    (g j : ℕ) (p : Pool)
    → is_sleeping (p.threads j) ≡ true
    → IsSound p
    → IsSound (push g (set_thread j (wake (p.threads j)) p))
posts_to-IsSound g j p asleep s =
    push-IsSound g q
      (λ i e. (
        j,
        (
          subst (λ fs. is_sleeping fs ≡ false) h (wake-is_sleeping (p.threads j)),
          subst (λ fs. any_wants q fs ≡ true) h wanted,
        ),
      ))
      (wake-IsSound j p s)
  where
    q : Pool
    q = set_thread j (wake (p.threads j)) p

    h : wake (p.threads j) ≡ q.threads j
    h = ground arith

    same : StillWants p q
    same worker e = e
    same (joiner g) e = e
    same inline e = e

    wanted : any_wants q (wake (p.threads j)) ≡ true
    wanted =
        wants-any_wants p q (wake (p.threads j)) same
          (wake-any_wants p (p.threads j) ∙ restful-any_wants p (p.threads j) asleep (s.restful j))

waits-IsSound :
    (p : Pool) (i : ℕ) (who : Role) (fs : List Frame)
    → p.threads i ≡ frame who checking ∷ fs
    → wants who p ≡ true
    → p.queue ≡ []
    → IsSound p
    → IsSound (set_thread i (frame who sleeping ∷ fs) p)
waits-IsSound p i who fs e w h s = record {
  shaped = λ k. (both k).0;
  restful = λ k. (both k).1;
  watched = λ k some_left x. ground (arith, h, some_left);
}
  where
    q : Pool
    q = set_thread i (frame who sleeping ∷ fs) p

    same : StillWants p q
    same worker e = e
    same (joiner g) e = e
    same inline e = e

    both : (k : ℕ) → IsShaped (q.threads k) × IsRestful q (q.threads k)
    both k = elim (Bool-cases (i == k)) [
      | inl y ↦
          subst (λ t. IsShaped t × IsRestful q t) {x = frame who sleeping ∷ fs} (ground (arith, y))
            (subst IsShaped e (s.shaped i), λ x. same who w)
      | inr n ↦
          subst (λ t. IsShaped t × IsRestful q t) {x = p.threads k} (ground (arith, n))
            (s.shaped k, wants-IsRestful p q (p.threads k) same (s.restful k))
    ]

pub Step-IsSound :
    {n m thread_count : ℕ} (p q : Pool) → Step n m thread_count p q → IsSound p → IsSound q
unfolding push stop_threads
Step-IsSound p q (begins i lt e) s =
    one-IsSound p i p.queue (frame worker checking ∷ []) (λ h. h)
      (at_thread p i [] (frame worker checking ∷ []) e
        (λ h. call-Fits p worker checking [] refl tt h) s)
      s
Step-IsSound p q (joins i g lt lt' f) s =
    one-IsSound p i p.queue (frame (joiner g) checking ∷ p.threads i) (λ h. h)
      (call-Fits p (joiner g) checking (p.threads i) refl f (s.shaped i)) s
Step-IsSound p q (takes i g {who} {fs} {rest} lt e w h) s =
    one-IsSound p i rest (frame who (executing g) ∷ fs) (λ k. ground (arith, h))
      (at_thread p i (frame who checking ∷ fs) (frame who (executing g) ∷ fs) e
        (λ k. record {
          new_shaped = k;
          new_restful = λ x. ground (arith, x);
          not_new = λ x. ground (arith, x);
          alert = λ a. (refl, a.1);
        })
        s)
      s
Step-IsSound p q (waits i {who} {fs} lt e w h) s = waits-IsSound p i who fs e w h s
Step-IsSound p q (ends i {who} {fs} lt e w) s =
    one-IsSound p i p.queue fs (λ h. h)
      (at_thread p i (frame who checking ∷ fs) fs e
        (λ k. record {
          new_shaped = executing-IsShaped fs k;
          new_restful = awake-IsRestful p fs (executing-is_sleeping fs k);
          not_new = λ x. ground (arith, x, executing-is_sleeping fs k);
          alert = λ a. (executing-is_sleeping fs k, ground (arith, a.1, w));
        })
        s)
      s
Step-IsSound p q (wakes i lt e) s = wake-IsSound i p s
Step-IsSound p q (completes i g {who} {fs} lt e) s =
    do_work_finished-IsSound g (set_thread i (resume who fs) p) (
      one-IsSound p i p.queue (resume who fs) (λ h. h)
        (at_thread p i (frame who (executing g) ∷ fs) (resume who fs) e (resume-Fits p who g fs) s)
        s)
Step-IsSound p q (posts_to i g j lt lt' f lt'' e) s = posts_to-IsSound g j p e s
Step-IsSound p q (posts i g lt lt' f none) s = push-IsSound g p (λ i e. ground (arith, e, none i)) s
Step-IsSound p q (executes i g lt lt' f l) s =
    do_work_started-IsSound g (set_thread i (frame inline (executing g) ∷ p.threads i) p) (
      one-IsSound p i p.queue (frame inline (executing g) ∷ p.threads i) (λ h. h)
        (call-Fits p inline (executing g) (p.threads i) refl f (s.shaped i)) s)
Step-IsSound p q (starts g lt) s =
    do_work_started-IsSound g (record p { external = update p.external g (suc (p.external g)) })
      (external-IsSound p (update p.external g (suc (p.external g))) s)
Step-IsSound p q (finishes g {left} lt e) s =
    do_work_finished-IsSound g (record p { external = update p.external g left })
      (external-IsSound p (update p.external g left) s)
Step-IsSound p q (stops e) s =
    notify_all-IsSound (record (fewer_use p) { is_stopped = true }) s.shaped

start-IsSound : IsSound start
unfolding start
start-IsSound = record {
  shaped = λ i. tt;
  restful = λ i. tt;
  watched = λ i some_left e. ground (arith, some_left);
}

Reach-IsSound : {n m thread_count : ℕ} (p : Pool) → Reach n m thread_count p → IsSound p
Reach-IsSound p here = start-IsSound
Reach-IsSound q (next {p} r s) = Step-IsSound p q s (Reach-IsSound p r)

-- No wake-up is lost, whatever the order of the steps: when there is a function in the queue and a thread
-- waits, some thread does not wait and has a loop that would go on; and the thread that waits has one, too.
pub Reach-IsWatched :
    (n m thread_count i : ℕ) (p : Pool)
    → Reach n m thread_count p
    → is_sleeping (p.threads i) ≡ true
    → is_nil p.queue ≡ false
    → (any_wants p (p.threads i) ≡ true) × ((j : ℕ) × IsAlert p (p.threads j))
Reach-IsWatched n m thread_count i p r e h =
    let s = Reach-IsSound p r in
    (restful-any_wants p (p.threads i) e (s.restful i), s.watched i h e)
