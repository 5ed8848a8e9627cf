-- ===== src/Strand/Invariant.antt =====
-- What holds of a strand between two steps, kept by each step.
use executors.Base.{
  ℕ, suc, ◌<◌, ◌≡◌, refl, ap, ◌⊎◌, inl, inr, List, [], ◌∷◌, ◌++◌, true, arith, if◌then◌else◌, ◌==◌,
  Bool-cases, is_nil-append, update, append-nil, append_assoc,
}
use executors.Base.Family.{sum_of, sum_of-update}
use executors.Strand.{
  accept, push_ready, pop_ready, exit, Pc, outside, owning, handing, running, executing, exiting,
  deferring, System, Step, accepts, pushes, schedules, invokes, pops, completes, throws, drains,
  exits, defers, Reach, here, next,
}
use executors.Strand.Token.{
  token, as_number, Follows, Inv, start-Inv, token-le, has_token, step_alone, none_has_token,
  Follows-append,
}

module _ {n : ℕ} (y : System) (inv : Inv n y) (i : ℕ) (lt : i < n) where
  open y use {strand, pending, accepted, started}
  open strand use {ready_queue, waiting_queue}

  pushes-Inv :
      (op : ℕ)
      → y.pc i ≡ owning op
      → Inv n (record y { strand = push_ready op strand; pc = update y.pc i handing })
  unfolding push_ready
  pushes-Inv op e =
      let h = has_token y i inv lt e refl in
      step_alone y i lt h.is_alone (push_ready op strand) pending accepted started handing
        (ground (arith, h)) (ground (arith, h)) (ground (arith, h))
        (ground (arith, h, is_nil-append ready_queue op []))

  schedules-Inv :
      (p : Pc)
      → y.pc i ≡ p
      → (p ≡ handing) ⊎ (p ≡ deferring)
      → Inv n (record y { pending = suc pending; pc = update y.pc i outside })
  schedules-Inv p e which =
      let h = has_token y i {p = p} inv lt e (ground arith) in
      step_alone y i lt h.is_alone strand (suc pending) accepted started outside (ground (arith, h))
        (ground (arith, h)) (ground (arith, h)) tt

  invokes-Inv :
      (fewer : ℕ)
      → y.pc i ≡ outside
      → pending ≡ suc fewer
      → Inv n (record y { pending = fewer; pc = update y.pc i running })
  invokes-Inv fewer e q =
      let facts : (sum_of token n y.pc ≡ 0) × (fewer ≡ 0) × (as_number strand.ready ≡ 1) =
        omega (arith, inv.one_token, token-le strand.ready) in
      step_alone y i lt (none_has_token y i inv lt e facts.0) strand fewer accepted started running
        (ground (arith, facts)) (ground (arith, facts)) (ground (arith, facts))
        (inv.scheduled (omega arith)).1

  pops-Inv :
      (op : ℕ) (rest : List ℕ)
      → y.pc i ≡ running
      → ready_queue ≡ op ∷ rest
      → Inv n (record y {
        strand = pop_ready strand;
        started = started ++ op ∷ [];
        pc = update y.pc i (executing op);
      })
  unfolding pop_ready
  pops-Inv op rest e q =
      let h = has_token y i inv lt e refl in
      step_alone y i lt h.is_alone (pop_ready strand) pending accepted (started ++ op ∷ [])
        (executing op) (ground (arith, h)) (ground (arith, h)) (ground (arith, h))
        (ground (arith, h, append_assoc started (op ∷ []) (rest ++ waiting_queue)))

  moves-Inv :
      (p q : Pc)
      → y.pc i ≡ p
      → token p ≡ 1
      → token q ≡ 1
      → (Follows strand accepted started p → Follows strand accepted started q)
      → Inv n (record y { pc = update y.pc i q })
  moves-Inv p q e one one' f =
      let h = has_token y i {p = p} inv lt e one in
      step_alone y i lt h.is_alone strand pending accepted started q (ground (arith, h))
        (ground (arith, h)) (ground (arith, h)) (f h.follows)

  exits-Inv :
      y.pc i ≡ exiting
      → Inv n (record y {
        strand = (exit strand).0;
        pc = update y.pc i (if (exit strand).1 then deferring else outside);
      })
  unfolding exit
  exits-Inv e =
      let h = has_token y i inv lt e refl in
      step_alone y i lt h.is_alone (exit strand).0 pending accepted started
        (if (exit strand).1 then deferring else outside) (ground (arith, h))
        (ground (arith, h, append-nil started)) (ground (arith, h))
        (ground (arith, h, append-nil (ready_queue ++ waiting_queue)))

  accepts-Inv :
      (op : ℕ)
      → y.pc i ≡ outside
      → Inv n (record y {
        strand = (accept op strand).0;
        accepted = accepted ++ op ∷ [];
        pc = update y.pc i (if (accept op strand).1 then owning op else outside);
      })
  unfolding accept
  accepts-Inv op e = elim (Bool-cases strand.ready) [
    | inl busy ↦ rw busy (record {
      one_token = omega (
        arith,
        ap token e,
        inv.one_token,
        ap as_number busy,
        sum_of-update token n y.pc i outside lt,
      );
      free = λ h. cc;
      scheduled = λ h. Follows-append op strand accepted started handing (inv.scheduled h);
      held = λ j lt'. elim (Bool-cases (i == j)) [
        | inl same ↦ rw same tt
        | inr other ↦ rw other (Follows-append op strand accepted started (y.pc j) (inv.held j lt'))
      ];
    })
    | inr idle ↦
        let facts : (sum_of token n y.pc ≡ 0) × (pending ≡ 0) =
          omega (arith, inv.one_token, ap as_number idle) in
        let empty = inv.free idle in
        rw idle (
          step_alone y i lt (none_has_token y i inv lt e facts.0) (record strand { ready = true })
            pending (accepted ++ op ∷ []) started (owning op) (omega (arith, facts.1)) (λ h. cc)
            (λ h. absurd (omega (arith, facts.1))) (ground (arith, empty)))
  ]

-- Every step keeps the invariant.
Step-Inv : {n : ℕ} {y z : System} → Step n y z → Inv n y → Inv n z
Step-Inv {y} (accepts i op lt e) inv = accepts-Inv y inv i lt op e
Step-Inv {y} (pushes i {op} lt e) inv = pushes-Inv y inv i lt op e
Step-Inv {y} (schedules i lt e) inv = schedules-Inv y inv i lt handing e (inl refl)
Step-Inv {y} (invokes i {fewer} lt e p) inv = invokes-Inv y inv i lt fewer e p
Step-Inv {y} (pops i {op} {rest} lt e q) inv = pops-Inv y inv i lt op rest e q
Step-Inv {y} (completes i {op} lt e) inv =
    moves-Inv y inv i lt (executing op) running e refl refl (λ h. h)
Step-Inv {y} (throws i {op} lt e) inv =
    moves-Inv y inv i lt (executing op) exiting e refl refl (λ h. h)
Step-Inv {y} (drains i lt e q) inv = moves-Inv y inv i lt running exiting e refl refl (λ h. h)
Step-Inv {y} (exits i lt e) inv = exits-Inv y inv i lt e
Step-Inv {y} (defers i lt e) inv = schedules-Inv y inv i lt deferring e (inr refl)

pub Reach-Inv : {n : ℕ} {y : System} → Reach n y → Inv n y
Reach-Inv {n} here = start-Inv n
Reach-Inv (next r st) = Step-Inv st (Reach-Inv r)
