-- ===== src/Strand/Token.antt =====
-- Who has the strand: an activity that holds its token, or the executor.
use executors.Base.{
  ℕ, ◌+◌, ◌≤◌, ◌<◌, ◌≡◌, refl, sym, ◌∙◌, ap, subst, inl, inr, ◌≢◌, List, [], ◌∷◌, ◌++◌, Bool, true,
  false, arith, ◌==◌, Bool-cases, is_nil, update, append_assoc,
}
use executors.Base.Family.{sum_of, sum_of-update, sum_of-le, sum_of-two, sum_of-zero}
use executors.Strand.{Strand, fresh, Pc, outside, owning, handing, deferring, System, start}

-- Whoever has the strand holds the token.
abbrev pub token : Pc → ℕ
token outside = 0
token _ = 1

abbrev pub as_number : Bool → ℕ
as_number true = 1
as_number false = 0

-- What follows the operations started so far, as seen by who holds the token.
abbrev pub Follows : Strand → List ℕ → List ℕ → Pc → Type 0
Follows s accepted started outside = Unit
Follows s accepted started (owning op) =
    (s.ready_queue ≡ []) × (accepted ≡ started ++ op ∷ s.waiting_queue)
Follows s accepted started handing =
    (is_nil s.ready_queue ≡ false) × (accepted ≡ started ++ (s.ready_queue ++ s.waiting_queue))
Follows s accepted started deferring =
    (is_nil s.ready_queue ≡ false) × (accepted ≡ started ++ (s.ready_queue ++ s.waiting_queue))
Follows s accepted started _ = accepted ≡ started ++ (s.ready_queue ++ s.waiting_queue)

pub record Inv (n : ℕ) (y : System) : Type 0 where
  pub one_token : y.pending + sum_of token n y.pc ≡ as_number y.strand.ready
  pub free :
      y.strand.ready ≡ false
      → (y.strand.waiting_queue ≡ []) × (y.strand.ready_queue ≡ []) × (y.accepted ≡ y.started)
  pub scheduled : 0 < y.pending → Follows y.strand y.accepted y.started handing
  pub held : (i : ℕ) → i < n → Follows y.strand y.accepted y.started (y.pc i)

-- Beside a holder of the token there is no other.
outside_of_none : (p : Pc) → token p ≡ 0 → p ≡ outside
outside_of_none p h = ground arith

pub start-Inv : (n : ℕ) → Inv n start
unfolding fresh
start-Inv n = record {
  one_token = omega (arith, sum_of-zero token n (λ _. outside) (λ i. refl));
  free = λ e. (refl, refl, refl);
  scheduled = λ h. absurd (omega arith);
  held = λ i lt. tt;
}

-- The activities other than `i` are outside, and the invoker is with `i`, if with any.
pub record IsAlone (n : ℕ) (y : System) (i : ℕ) : Type 0 where
  pub total : sum_of token n y.pc ≡ token (y.pc i)
  pub others : (j : ℕ) → j < n → i ≢ j → y.pc j ≡ outside

alone :
    {n : ℕ} (y : System) (i : ℕ)
    → Inv n y
    → i < n
    → sum_of token n y.pc ≡ token (y.pc i)
    → IsAlone n y i
alone {n} y i inv lt e = record {
  total = e;
  others =
      λ j lt' d. outside_of_none (y.pc j) (omega (arith, sum_of-two token n y.pc i j lt lt' d));
}

pub token-le : (b : Bool) → as_number b ≤ 1
token-le b = ground arith

-- What is known where the activity `i` has the token, at `p`.
pub record HasToken (n : ℕ) (y : System) (i : ℕ) (p : Pc) : Type 0 where
  pub is_alone : IsAlone n y i
  pub none_pending : y.pending ≡ 0
  pub is_ready : y.strand.ready ≡ true
  pub follows : Follows y.strand y.accepted y.started p

pub has_token :
    {n : ℕ} (y : System) (i : ℕ) {p : Pc}
    → Inv n y
    → i < n
    → y.pc i ≡ p
    → token p ≡ 1
    → HasToken n y i p
has_token {n} y i {p} inv lt e one = record {
  is_alone = alone y i inv lt facts.0;
  none_pending = facts.1;
  is_ready = ready_of y.strand.ready facts.2;
  follows = subst (Follows y.strand y.accepted y.started) e (inv.held i lt);
}
  where
    mine : token (y.pc i) ≡ 1
    mine = ap token e ∙ one

    facts :
        (sum_of token n y.pc ≡ token (y.pc i)) × (y.pending ≡ 0) × (as_number y.strand.ready ≡ 1)
    facts = omega (arith, mine, inv.one_token, token-le y.strand.ready, sum_of-le token n y.pc i lt)

    ready_of : (b : Bool) → as_number b ≡ 1 → b ≡ true
    ready_of b h = ground arith

-- A step of the activity that is alone.
pub step_alone :
    {n : ℕ} (y : System) (i : ℕ)
    → i < n
    → IsAlone n y i
    → (s : Strand) (pending : ℕ) (accepted started : List ℕ) (p : Pc)
    → pending + token p ≡ as_number s.ready
    → (s.ready ≡ false → (s.waiting_queue ≡ []) × (s.ready_queue ≡ []) × (accepted ≡ started))
    → (0 < pending → Follows s accepted started handing)
    → Follows s accepted started p
    → Inv n (record {
      strand = s;
      pending = pending;
      accepted = accepted;
      started = started;
      pc = update y.pc i p;
    })
step_alone {n} y i lt a s pending accepted started p e f g h = record {
  one_token = omega (arith, e, a.total, sum_of-update token n y.pc i p lt);
  free = f;
  scheduled = g;
  held = λ j lt'. elim (Bool-cases (i == j)) [
    | inl same ↦ rw same h
    | inr other ↦ rw other (rw (a.others j lt' (ground arith)) tt)
  ];
}

-- While nobody has the token, an activity that is outside may take it.
pub none_has_token :
    {n : ℕ} (y : System) (i : ℕ)
    → Inv n y
    → i < n
    → y.pc i ≡ outside
    → sum_of token n y.pc ≡ 0
    → IsAlone n y i
none_has_token y i inv lt e none = alone y i inv lt (none ∙ sym (ap token e))

-- An operation that waits comes last.
pub Follows-append :
    (op : ℕ) (s : Strand) (accepted started : List ℕ) (p : Pc)
    → Follows s accepted started p
    → Follows
        (record s { ready = true; waiting_queue = s.waiting_queue ++ op ∷ [] })
        (accepted ++ op ∷ [])
        started
        p
Follows-append op s accepted started outside h = tt
Follows-append op s accepted started (owning a) h =
    ground (arith, append_assoc started (a ∷ s.waiting_queue) (op ∷ []))
Follows-append op s accepted started _ h = ground (
  arith,
  append_assoc started (s.ready_queue ++ s.waiting_queue) (op ∷ []),
  append_assoc s.ready_queue s.waiting_queue (op ∷ []),
)
