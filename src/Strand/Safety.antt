-- ===== src/Strand/Safety.antt =====
-- What a strand promises: who is inside it, and the order in which its handlers start.
use executors.Base.{
  ℕ, ◌≤◌, ◌<◌, ◌≡◌, refl, sym, ◌∙◌, ap, ◌⊎◌, inl, inr, List, [], ◌∷◌, ◌++◌, Bool, true, false,
  arith, ◌==◌, Bool-cases, append-nil,
}
use native.Mathlib.Decide.{dec_lt}
use executors.Base.Family.{sum_of-find, sum_of-two, sum_of-zero}
use executors.Strand.{
  Strand, Pc, outside, owning, handing, running, executing, exiting, deferring, System, Reach,
}
use executors.Strand.Token.{token, as_number, Follows, Inv}
use executors.Strand.Invariant.{Reach-Inv}

-- Inside the invoker, up to the lock of `_On_exit`.
abbrev pub in_strand : Pc → Bool
in_strand running = true
in_strand (executing op) = true
in_strand exiting = true
in_strand _ = false

token_of_in_strand : (p : Pc) → in_strand p ≡ true → token p ≡ 1
token_of_in_strand p h = ground arith

as_number-le : (b : Bool) → as_number b ≤ 1
as_number-le b = ground arith

-- Two activities are never inside the strand together, whatever the order of the steps: the handlers
-- of a strand do not overlap.
pub mutual_exclusion :
    {n : ℕ} (y : System) (i j : ℕ)
    → Reach n y
    → i < n
    → j < n
    → in_strand (y.pc i) ≡ true
    → in_strand (y.pc j) ≡ true
    → i ≡ j
mutual_exclusion {n} y i j r lt lt' h k = elim (Bool-cases (i == j)) [
  | inl same ↦ ground arith
  | inr other ↦ absurd (
      omega (
        arith,
        (Reach-Inv r).one_token,
        as_number-le y.strand.ready,
        token_of_in_strand (y.pc i) h,
        token_of_in_strand (y.pc j) k,
        sum_of-two token n y.pc i j lt lt' (ground arith),
      ))
]

-- In the invoker, up to the deferral of the next one.
abbrev pub at_work : Pc → Bool
at_work deferring = true
at_work p = in_strand p

-- Between the lock that a call has set `_M_ready` under and the call that schedules the invoker.
abbrev pub on_its_way : Pc → Bool
on_its_way (owning op) = true
on_its_way handing = true
on_its_way _ = false

-- Who will see to the operations of the queues: an invoker that the executor has yet to call, an activity in
-- the invoker, or a call of `dispatch`, `post` or `defer` that is about to schedule one.
pub data IsServed (n : ℕ) (y : System) : Type 0 where
  scheduled : 0 < y.pending → IsServed n y
  served_at_work : (i : ℕ) → i < n → at_work (y.pc i) ≡ true → IsServed n y
  served_on_its_way : (i : ℕ) → i < n → on_its_way (y.pc i) ≡ true → IsServed n y

served_by : {n : ℕ} {y : System} (i : ℕ) → i < n → token (y.pc i) ≡ 1 → IsServed n y
served_by {n} {y} i lt has = elim (Bool-cases (at_work (y.pc i))) [
  | inl w ↦ served_at_work i lt w
  | inr w ↦ served_on_its_way i lt (left_over (y.pc i) has w)
]
  where
    left_over : (p : Pc) → token p ≡ 1 → at_work p ≡ false → on_its_way p ≡ true
    left_over p h w = ground arith

-- The operations that were accepted and have not been started.
pub rest_of : Strand → Pc → List ℕ
rest_of s (owning op) = op ∷ s.waiting_queue
rest_of s _ = s.ready_queue ++ s.waiting_queue

remaining :
    (s : Strand) (accepted started : List ℕ) (p : Pc)
    → token p ≡ 1
    → Follows s accepted started p
    → accepted ≡ started ++ rest_of s p
unfolding rest_of
remaining s accepted started p e f = ground arith

pub record IsOrdered (n : ℕ) (y : System) : Type 0 where
  pub rest : List ℕ
  pub in_order : y.accepted ≡ y.started ++ rest
  pub served : (rest ≡ []) ⊎ IsServed n y

-- At every moment the operations started so far are the first of those accepted, in the order in
-- which they were accepted, each once; and if one is left, an invoker is scheduled, or one is at work, or
-- a call that has set `_M_ready` is about to schedule one, so that none is forgotten.
pub Reach-IsOrdered : {n : ℕ} (y : System) → Reach n y → IsOrdered n y
Reach-IsOrdered {n} y r = elim (Bool-cases y.strand.ready) [
  | inr idle ↦ record {
    rest = [];
    in_order = (inv.free idle).2 ∙ sym (append-nil y.started);
    served = inl refl;
  }
  | inl busy ↦ elim (dec_lt 0 y.pending) [
    | yes p ↦ record {
      rest = y.strand.ready_queue ++ y.strand.waiting_queue;
      in_order = (inv.scheduled p).1;
      served = inr (scheduled p);
    }
    | no p ↦
        let (i, lt, has) =
          sum_of-find token n y.pc (omega (arith, inv.one_token, ap as_number busy)) in
        record {
          rest = rest_of y.strand (y.pc i);
          in_order =
              remaining y.strand y.accepted y.started (y.pc i) (ground arith) (inv.held i lt);
          served = inr (served_by i lt (ground arith));
        }
  ]
]
  where
    inv : Inv n y
    inv = Reach-Inv r

-- Once no invoker is scheduled and no activity is under way, every accepted operation has been
-- started, in order.
pub quiet_all_started :
    {n : ℕ} (y : System)
    → Reach n y
    → y.pending ≡ 0
    → ((i : ℕ) → y.pc i ≡ outside)
    → y.accepted ≡ y.started
quiet_all_started {n} y r p q =
    (inv.free (
      unready y.strand.ready
        (omega (arith, inv.one_token, sum_of-zero token n y.pc (λ i. ap token (q i)))))).2
  where
    inv : Inv n y
    inv = Reach-Inv r

    unready : (b : Bool) → as_number b ≡ 0 → b ≡ false
    unready b h = ground arith
