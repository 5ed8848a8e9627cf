-- ===== src/Executor/Counts.antt =====
-- The counts of the implementations of executors.
use executors.Base.{
  ℕ, ◌+◌, ◌-◌, ◌%◌, ◌^◌, ◌<◌, ◌≤◌, ◌≡◌, refl, ap, ◌==◌, if◌then◌else◌, arith, update, Ensures,
  Bool-cases, inl, inr,
}
use executors.Base.Family.{sum_of, sum_of-update, sum_of-le, sum_of-bound}
use executors.Executor.{
  Target, Cell, deleted, counted, World, bad, is_static, set_cell, clone_cell, clone, destroy_cell,
  destroy,
}

abbrev pub refs : Cell → ℕ
refs deleted = 0
refs (counted t k) = k

-- One for a pointer to `p`.
abbrev pub at : ℕ → ℕ → ℕ
at p q = if p == q then 1 else 0

-- An implementation that exists has a count other than 0.
abbrev pub IsLive : Cell → Type 0
IsLive deleted = Unit
IsLive (counted t k) = 0 < k

-- Every count is the number of executors, of the first `n` objects, that hold the implementation, and one
-- more for the implementation at `q`, to which there is a pointer beside them; 0 for none.
pub record Balanced (n q : ℕ) (cell : ℕ → Cell) (holds : ℕ → ℕ) : Type 0 where
  pub counts : (p : ℕ) → 2 < p → refs (cell p) ≡ sum_of (at p) n holds + at p q
  pub live : (p : ℕ) → IsLive (cell p)

sum_of-le_at : (p n : ℕ) (f : ℕ → ℕ) → sum_of (at p) n f ≤ n
sum_of-le_at p n f = sum_of-bound (at p) n f (λ q. ground arith)

at_self : (p : ℕ) → at p p ≡ 1
at_self p = ground arith

pub holder : (p n j : ℕ) (f : ℕ → ℕ) → j < n → f j ≡ p → 1 ≤ sum_of (at p) n f
holder p n j f lt e = omega (arith, sum_of-le (at p) n f j lt, ap (at p) e, at_self p)

-- The pointer goes to the object `i`, and what that held is left beside.
pub update-Balanced :
    (n i q : ℕ) (c : ℕ → Cell) (f : ℕ → ℕ)
    → i < n
    → Balanced n q c f
    → Balanced n (f i) c (update f i q)
update-Balanced n i q c f lt b = record {
  counts = λ p h. omega (arith, b.counts p h, sum_of-update (at p) n f i q lt);
  live = b.live;
}

-- The pointer of the object `j` goes to the object `i`.
pub move-Balanced :
    (n i j : ℕ) (c : ℕ → Cell) (f : ℕ → ℕ)
    → i < n
    → j < n
    → Balanced n 0 c f
    → Balanced n (f i) c (update (update f i (f j)) j bad)
move-Balanced n i j c f lt lt' b = record {
  counts = λ p h.
      let g = update f i (f j) in
      let same : g j ≡ f j = ground arith in
      ground (
        arith,
        b.counts p h,
        sum_of-update (at p) n f i (f j) lt,
        sum_of-update (at p) n g j bad lt',
        same,
        ap (at p) same,
      );
  live = b.live;
}

-- A pointer to an implementation that is never deleted does not count.
pub static-Balanced :
    (n q r : ℕ) (c : ℕ → Cell) (f : ℕ → ℕ) → q < 3 → r < 3 → Balanced n q c f → Balanced n r c f
static-Balanced n q r c f lt lt' b = record {
  counts = λ p h. ground (arith, b.counts p h);
  live = b.live;
}

-- An implementation at a new address, with a pointer to it.
pub create-Balanced :
    (n p : ℕ) (t : Target) (c : ℕ → Cell) (f : ℕ → ℕ)
    → 2 < p
    → c p ≡ deleted
    → Balanced n 0 c f
    → Balanced n p (update c p (counted t 1)) f
create-Balanced n p t c f far e b = record {
  counts = λ p h. ground (arith, b.counts p h, ap refs e);
  live = λ p. ground (arith, b.live p);
}

-- What a call leaves besides the objects' own pointers, when these become `f`.
pub record Leaves (n q : ℕ) (f : ℕ → ℕ) (w v : World) : Type 0 where
  pub balanced : Balanced n q v.cell f
  pub same_holds : v.holds ≡ w.holds

clone_of :
    (n b k : ℕ) (t : Target) (w : World)
    → k + 1 < 2 ^ 64
    → w.cell b ≡ counted t k
    → Balanced n 0 w.cell w.holds
    → Leaves n b w.holds w (set_cell b (counted t ((k + 1) % 2 ^ 64)) w)
clone_of n b k t w small e l = record {
  balanced = record {
    counts = λ p h. ground (arith, l.counts p h, ap refs e);
    live = λ p. ground (arith, l.live p);
  };
  same_holds = refl;
}

destroy_of :
    (n b k : ℕ) (t : Target) (f : ℕ → ℕ) (w : World)
    → k < 2 ^ 64
    → 2 < b
    → w.cell b ≡ counted t k
    → Balanced n b w.cell f
    → let left = (k + 2 ^ 64 - 1) % 2 ^ 64 in
      Leaves n 0 f w (set_cell b (if left == 0 then deleted else counted t left) w)
destroy_of n b k t f w small far e l =
    let pos_k : 0 < k = omega (arith, l.counts b far, at_self b, ap refs e) in
    record {
      balanced = record {
        counts = λ p h. ground (arith, l.counts p h, ap refs e, pos_k);
        live = λ p. ground (arith, l.live p);
      };
      same_holds = refl;
    }

-- An executor's implementation exists while it is held, so cloning it is defined.
pub clone_lem :
    (n b j : ℕ) (w : World)
    → n < 2 ^ 63
    → j < n
    → w.holds j ≡ b
    → Balanced n 0 w.cell w.holds
    → Ensures (Leaves n b w.holds w) (clone b w)
unfolding clone
clone_lem n b j w small lt e l = elim (Bool-cases (is_static b)) [
  | inl static ↦
      rw (static, Ensures)
        (record {
          balanced = static-Balanced n 0 b w.cell w.holds (omega arith) (ground arith) l;
          same_holds = refl;
        })
  | inr far ↦ rw (far, Ensures) (go (ground arith) (w.cell b) refl)
]
  where
    go : 2 < b → (c : Cell) → w.cell b ≡ c → Ensures (Leaves n b w.holds w) (clone_cell b c w)
    go far deleted f = absurd (omega (arith, l.counts b far, holder b n j w.holds lt e, ap refs f))
    go far (counted t k) f =
        let small_k : k ≤ n + 1 =
          ground (arith, l.counts b far, sum_of-le_at b n w.holds, ap refs f) in
        clone_of n b k t w (omega arith) f l

pub destroy_lem :
    (n b : ℕ) (f : ℕ → ℕ) (w : World)
    → n < 2 ^ 63
    → Balanced n b w.cell f
    → Ensures (Leaves n 0 f w) (destroy b w)
unfolding destroy
destroy_lem n b f w small l = elim (Bool-cases (is_static b)) [
  | inl static ↦
      rw (static, Ensures)
        (record {
          balanced = static-Balanced n b 0 w.cell f (ground arith) (omega arith) l;
          same_holds = refl;
        })
  | inr far ↦ rw (far, Ensures) (go (ground arith) (w.cell b) refl)
]
  where
    go : 2 < b → (c : Cell) → w.cell b ≡ c → Ensures (Leaves n 0 f w) (destroy_cell b c w)
    go far deleted e = absurd (omega (arith, l.counts b far, at_self b, ap refs e))
    go far (counted t k) e =
        let small_k : k ≤ n + 1 =
          omega (arith, l.counts b far, at_self b, sum_of-le_at b n f, ap refs e) in
        destroy_of n b k t f w (omega arith) far e l
