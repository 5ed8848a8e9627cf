-- ===== src/Executor/Lifetime.antt =====
-- The operations on executors that construct, assign and destroy them, in any order.
use executors.Base.{
  ℕ, ◌+◌, ◌^◌, ◌<◌, ◌≡◌, refl, sym, ap, subst, ◌∙◌, Option, some, ◌==◌, arith, update, ◌>>=◌,
  Ensures, Ensures-map, Ensures-bind, Bool-cases, inl, inr,
}
use executors.Base.Family.{sum_of, sum_of-zero}
use executors.Executor.{
  Cell, deleted, counted, World, bad, system, start, set_holds, set_cell, clone, destroy, on,
  on_new, construct, construct_copy, construct_move, construct_from, construct_system, destruct,
  assign_copy, assign_move, assign_null, assign_from, assign_system,
}
use executors.Executor.Counts.{
  refs, at, IsLive, Balanced, update-Balanced, move-Balanced, static-Balanced, create-Balanced,
  Leaves, clone_lem, destroy_lem,
}
use executors.Executor.Ops.{
  Op, none_op, copy_op, move_op, from_op, system_op, destruct_op, assign_copy_op, assign_move_op,
  assign_null_op, assign_from_op, assign_system_op, run, IsRaw, Allowed, IsCounted,
}

on-Ensures :
    (P : World → Type 0) (i : ℕ) (w : World) (o : Option World)
    → 0 < w.holds i
    → Ensures P o
    → Ensures P (on i w o)
on-Ensures P i w o h e = elim (Bool-cases (w.holds i == 0)) [
  | inl t ↦ absurd (ground arith)
  | inr f ↦ rw (f, Ensures) e
]

on_new-Ensures :
    (P : World → Type 0) (i : ℕ) (w : World) (o : Option World)
    → w.holds i ≡ 0
    → Ensures P o
    → Ensures P (on_new i w o)
on_new-Ensures P i w o h e = rw (h, Ensures) e

-- The object `i`, whose memory was raw, takes the pointer that is left beside the objects.
take-IsCounted :
    (n i q : ℕ) (w : World)
    → IsRaw n i w
    → Balanced n q w.cell w.holds
    → IsCounted n (set_holds i q w)
take-IsCounted n i q w (lt, raw) b =
    subst (λ x. Balanced n x w.cell (update w.holds i q)) raw
      (update-Balanced n i q w.cell w.holds lt b)

-- A pointer is written to the objects, and what was there is destroyed.
drop-IsCounted :
    (n b : ℕ) (f : ℕ → ℕ) (w : World)
    → n < 2 ^ 63
    → Balanced n b w.cell f
    → w.holds ≡ f
    → Ensures (IsCounted n) (destroy b w)
drop-IsCounted n b f w small l e =
    Ensures-map (Leaves n 0 f w) (IsCounted n) (destroy b w)
      (λ v k. subst (λ g. Balanced n 0 v.cell g) (sym (k.same_holds ∙ e)) k.balanced)
      (destroy_lem n b f w small l)

-- What the object `i` held is destroyed, and then a pointer is written to it.
replace-IsCounted :
    (n i b q : ℕ) (f : ℕ → ℕ) (w : World)
    → n < 2 ^ 63
    → Balanced n b w.cell (update f i q)
    → w.holds ≡ f
    → Ensures (IsCounted n) (destroy b w >>= λ v. some (set_holds i q v))
replace-IsCounted n i b q f w small l e =
    Ensures-bind (Leaves n 0 (update f i q) w) (IsCounted n) (destroy b w)
      (λ v. some (set_holds i q v)) (destroy_lem n b (update f i q) w small l)
      (λ v k. subst (λ g. Balanced n 0 v.cell (update g i q)) (sym (k.same_holds ∙ e)) k.balanced)

-- A copy of the pointer of the object `j`.
copied :
    (n j : ℕ) (w : World) (f : World → Option World)
    → n < 2 ^ 63
    → j < n
    → IsCounted n w
    → ((v : World)
        → Balanced n (w.holds j) v.cell v.holds
        → v.holds ≡ w.holds
        → Ensures (IsCounted n) (f v))
    → Ensures (IsCounted n) (clone (w.holds j) w >>= f)
copied n j w f small lt l k =
    Ensures-bind (Leaves n (w.holds j) w.holds w) (IsCounted n) (clone (w.holds j) w) f
      (clone_lem n (w.holds j) j w small lt refl l)
      (λ v a.
        k v (subst (λ g. Balanced n (w.holds j) v.cell g) (sym a.same_holds) a.balanced)
          a.same_holds)

-- An operation that the language allows is defined, so it does not use an implementation that has been
-- deleted, and it leaves the count of each implementation at the number of executors that hold it.
pub run-IsCounted :
    (n : ℕ) (op : Op) (w : World)
    → n < 2 ^ 63
    → Allowed n w op
    → IsCounted n w
    → Ensures (IsCounted n) (run op w)
unfolding run construct construct_copy construct_move construct_from construct_system destruct
    assign_copy assign_move assign_null assign_from assign_system
run-IsCounted n (none_op i) w small (lt, raw) l =
    on_new-Ensures (IsCounted n) i w (some (set_holds i bad w)) raw (
      take-IsCounted n i bad w (lt, raw)
        (static-Balanced n 0 bad w.cell w.holds (omega arith) (omega arith) l))
run-IsCounted n (copy_op i j) w small (r, (lt, built)) l =
    let f : World → Option World = λ v. some (set_holds i (w.holds j) v) in
    on-Ensures (IsCounted n) j w (on_new i w (clone (w.holds j) w >>= f)) built (
      on_new-Ensures (IsCounted n) i w (clone (w.holds j) w >>= f) (r.1) (
        copied n j w f small lt l
          (λ v b e. take-IsCounted n i (w.holds j) v (r.0, ap (λ g. g i) e ∙ r.1) b)))
run-IsCounted n (move_op i j) w small ((lt, raw), (lt', built)) l =
    let v = set_holds j bad (set_holds i (w.holds j) w) in
    on-Ensures (IsCounted n) j w (on_new i w (some v)) built (
      on_new-Ensures (IsCounted n) i w (some v) raw (
        subst (λ x. Balanced n x w.cell v.holds) raw (move-Balanced n i j w.cell w.holds lt lt' l)))
run-IsCounted n (from_op i p t) w small (r, (far, e)) l =
    on_new-Ensures (IsCounted n) i w (some (set_holds i p (set_cell p (counted t 1) w))) (r.1) (
      take-IsCounted n i p (set_cell p (counted t 1) w) r
        (create-Balanced n p t w.cell w.holds far e l))
run-IsCounted n (system_op i) w small (lt, raw) l =
    on_new-Ensures (IsCounted n) i w (some (set_holds i system w)) raw (
      take-IsCounted n i system w (lt, raw)
        (static-Balanced n 0 system w.cell w.holds (omega arith) (omega arith) l))
run-IsCounted n (destruct_op i) w small (lt, built) l =
    on-Ensures (IsCounted n) i w (destroy (w.holds i) w >>= λ v. some (set_holds i 0 v)) built (
      replace-IsCounted n i (w.holds i) 0 w.holds w small
        (update-Balanced n i 0 w.cell w.holds lt l) refl)
run-IsCounted n (assign_copy_op i j) w small ((lt, built), (lt', built')) l =
    let f : World → Option World = λ v. destroy (w.holds i) (set_holds i (w.holds j) v) in
    on-Ensures (IsCounted n) i w (on j w (clone (w.holds j) w >>= f)) built (
      on-Ensures (IsCounted n) j w (clone (w.holds j) w >>= f) built' (
        copied n j w f small lt' l (λ v b e.
          drop-IsCounted n (w.holds i) (update v.holds i (w.holds j)) (set_holds i (w.holds j) v)
            small
            (subst (λ x. Balanced n x v.cell (update v.holds i (w.holds j))) (ap (λ g. g i) e)
              (update-Balanced n i (w.holds j) v.cell v.holds lt b))
            refl)))
run-IsCounted n (assign_move_op i j) w small ((lt, built), (lt', built')) l =
    let v = set_holds i (w.holds j) w in
    let o = destroy (w.holds i) v >>= λ u. some (set_holds j bad u) in
    on-Ensures (IsCounted n) i w (on j w o) built (
      on-Ensures (IsCounted n) j w o built' (
        replace-IsCounted n j (w.holds i) bad v.holds v small
          (move-Balanced n i j w.cell w.holds lt lt' l) refl))
run-IsCounted n (assign_null_op i) w small (lt, built) l =
    on-Ensures (IsCounted n) i w (destroy (w.holds i) w >>= λ v. some (set_holds i bad v)) built (
      replace-IsCounted n i (w.holds i) bad w.holds w small
        (update-Balanced n i bad w.cell w.holds lt
          (static-Balanced n 0 bad w.cell w.holds (omega arith) (omega arith) l))
        refl)
run-IsCounted n (assign_from_op i p t) w small ((lt, built), (far, e)) l =
    let v = set_holds i p (set_cell p (counted t 1) w) in
    on-Ensures (IsCounted n) i w (destroy (w.holds i) v) built (
      drop-IsCounted n (w.holds i) v.holds v small
        (update-Balanced n i p v.cell w.holds lt (create-Balanced n p t w.cell w.holds far e l))
        refl)
run-IsCounted n (assign_system_op i) w small (lt, built) l =
    let v = set_holds i system w in
    on-Ensures (IsCounted n) i w (destroy (w.holds i) v) built (
      drop-IsCounted n (w.holds i) v.holds v small
        (update-Balanced n i system w.cell w.holds lt
          (static-Balanced n 0 system w.cell w.holds (omega arith) (omega arith) l))
        refl)

-- The states that allowed operations lead to from the start of the program.
pub data Reach (n : ℕ) : World → Type 0 where
  begin : Reach n start
  after : (w v : World) (op : Op) → Reach n w → Allowed n w op → run op w ≡ some v → Reach n v

pub Reach-IsCounted : (n : ℕ) (w : World) → n < 2 ^ 63 → Reach n w → IsCounted n w
unfolding start
Reach-IsCounted n w small begin = record {
  counts = λ p h. ground (arith, sum_of-zero (at p) n (λ i. 0) (λ i. ground arith));
  live = λ p. tt;
}
Reach-IsCounted n u small (after w v op r a e) =
    subst (Ensures (IsCounted n)) e (run-IsCounted n op w small a (Reach-IsCounted n w small r))

-- A deleted implementation has no holder, and the count of any other is the number of its holders, of which
-- there is one at least.
abbrev pub IsExact : Cell → ℕ → Type 0
IsExact deleted holders = holders ≡ 0
IsExact (counted t k) holders = (k ≡ holders) × (0 < holders)

-- The holders are the objects, of the first `n`, with a pointer to `p`.
abbrev pub IsExactAt : ℕ → ℕ → World → Type 0
IsExactAt n p w = IsExact (w.cell p) (sum_of (at p) n w.holds)

exact : (c : Cell) (holders q : ℕ) → IsLive c → refs c ≡ holders + q → q ≡ 0 → IsExact c holders
exact deleted holders q l e z = omega arith
exact (counted t k) holders q l e z = (omega arith, omega arith)

IsCounted-IsExactAt : (n p : ℕ) (w : World) → 2 < p → IsCounted n w → IsExactAt n p w
IsCounted-IsExactAt n p w far l =
    exact (w.cell p) (sum_of (at p) n w.holds) (at p 0) (l.live p) (l.counts p far) (ground arith)

-- In every state that the operations lead to, and in the one after an operation that the language allows,
-- which is defined, with fewer objects than `2 ^ 63`: an implementation other than the two static ones is
-- deleted exactly if none of the `n` objects holds it, so that none is used after its end and none is leaked,
-- and otherwise its count is the number of objects that hold it.
pub Reach-IsSafe :
    (n p : ℕ) (op : Op) (w : World)
    → n < 2 ^ 63
    → 2 < p
    → Reach n w
    → Allowed n w op
    → IsExactAt n p w × Ensures (IsExactAt n p) (run op w)
Reach-IsSafe n p op w small far r a =
    let l = Reach-IsCounted n w small r in
    (
      IsCounted-IsExactAt n p w far l,
      Ensures-map (IsCounted n) (IsExactAt n p) (run op w) (λ v. IsCounted-IsExactAt n p v far)
          (run-IsCounted n op w small a l),
    )
