-- ===== src/Executor/Kept.antt =====
-- What the operations of executors do to the pointers, and which targets they keep.
use executors.Base.{
  ℕ, ◌≡◌, refl, ◌∙◌, Option, none, some, ◌==◌, arith, update, ◌>>=◌, Bool-cases, inl, inr,
}
use executors.Executor.{
  Cell, deleted, counted, World, bad, system, set_holds, set_cell, clone, clone_cell, destroy,
  destroy_cell, on, on_new, is_static, construct, construct_copy, construct_move, construct_from,
  construct_system, destruct, assign_copy, assign_move, assign_null, assign_from, assign_system,
}
use executors.Executor.Ops.{
  Op, none_op, copy_op, move_op, from_op, system_op, destruct_op, assign_copy_op, assign_move_op,
  assign_null_op, assign_from_op, assign_system_op, run,
}

-- The pointers after an operation.
abbrev pub holds_after : Op → (ℕ → ℕ) → ℕ → ℕ
holds_after (none_op i) h = update h i bad
holds_after (copy_op i j) h = update h i (h j)
holds_after (move_op i j) h = update (update h i (h j)) j bad
holds_after (from_op i p t) h = update h i p
holds_after (system_op i) h = update h i system
holds_after (destruct_op i) h = update h i 0
holds_after (assign_copy_op i j) h = update h i (h j)
holds_after (assign_move_op i j) h = update (update h i (h j)) j bad
holds_after (assign_null_op i) h = update h i bad
holds_after (assign_from_op i p t) h = update h i p
holds_after (assign_system_op i) h = update h i system

-- The implementations after an operation, without what it deletes.
abbrev pub cells_after : Op → (ℕ → Cell) → ℕ → Cell
cells_after (from_op i p t) c = update c p (counted t 1)
cells_after (assign_from_op i p t) c = update c p (counted t 1)
cells_after op c = c

abbrev pub IsSame : Cell → Cell → Type 0
IsSame c deleted = Unit
IsSame deleted (counted u l) = ⊥
IsSame (counted t k) (counted u l) = t ≡ u

-- If the call is defined, what it gives has the property.
abbrev pub Gives : (World → Type 0) → Option World → Type 0
Gives P none = Unit
Gives P (some w) = P w

abbrev pub Keeps : (ℕ → ℕ) → (ℕ → Cell) → World → Type 0
Keeps f c v = ((i : ℕ) → v.holds i ≡ f i) × ((p : ℕ) → IsSame (c p) (v.cell p))

Gives-bind :
    (P Q : World → Type 0) (o : Option World) (g : World → Option World)
    → Gives P o
    → ((w : World) → P w → Gives Q (g w))
    → Gives Q (o >>= g)
Gives-bind P Q none g h k = tt
Gives-bind P Q (some w) g h k = k w h

on-Gives :
    (P : World → Type 0) (i : ℕ) (w : World) (o : Option World) → Gives P o → Gives P (on i w o)
on-Gives P i w o h = elim (Bool-cases (w.holds i == 0)) [
  | inl t ↦ rw (t, Gives) tt
  | inr f ↦ rw (f, Gives) h
]

on_new-Gives :
    (P : World → Type 0) (i : ℕ) (w : World) (o : Option World) → Gives P o → Gives P (on_new i w o)
on_new-Gives P i w o h = elim (Bool-cases (w.holds i == 0)) [
  | inl t ↦ rw (t, Gives) h
  | inr f ↦ rw (f, Gives) tt
]

same : (c : Cell) → IsSame c c
same deleted = tt
same (counted t k) = refl

clone-Keeps : (b : ℕ) (w : World) → Gives (Keeps w.holds w.cell) (clone b w)
unfolding clone
clone-Keeps b w = elim (Bool-cases (is_static b)) [
  | inl static ↦ rw (static, Gives) (λ i. refl, λ p. same (w.cell p))
  | inr far ↦ rw (far, Gives) (go (w.cell b) refl)
]
  where
    go : (c : Cell) → w.cell b ≡ c → Gives (Keeps w.holds w.cell) (clone_cell b c w)
    go deleted e = tt
    go (counted t k) e = (λ i. refl, λ p. ground (arith, same (w.cell p)))

destroy-Keeps : (b : ℕ) (w : World) → Gives (Keeps w.holds w.cell) (destroy b w)
unfolding destroy
destroy-Keeps b w = elim (Bool-cases (is_static b)) [
  | inl static ↦ rw (static, Gives) (λ i. refl, λ p. same (w.cell p))
  | inr far ↦ rw (far, Gives) (go (w.cell b) refl)
]
  where
    go : (c : Cell) → w.cell b ≡ c → Gives (Keeps w.holds w.cell) (destroy_cell b c w)
    go deleted e = tt
    go (counted t k) e = (λ i. refl, λ p. ground (arith, same (w.cell p)))

IsSame-trans : (c d e : Cell) → IsSame c d → IsSame d e → IsSame c e
IsSame-trans c d deleted h k = tt
IsSame-trans deleted deleted (counted s m) h g = absurd g
IsSame-trans deleted (counted u l) (counted s m) h g = absurd h
IsSame-trans (counted t k) deleted (counted s m) h g = absurd g
IsSame-trans (counted t k) (counted u l) (counted s m) h g = h ∙ g

Keeps-trans :
    (f : ℕ → ℕ) (c : ℕ → Cell) (w v : World) → Keeps f c w → Keeps w.holds w.cell v → Keeps f c v
Keeps-trans f c w v (a, b) (a', b') =
    (λ i. a' i ∙ a i, λ p. IsSame-trans (c p) (w.cell p) (v.cell p) (b p) (b' p))

dropped :
    (b : ℕ) (f : ℕ → ℕ) (c : ℕ → Cell) (w : World) → Keeps f c w → Gives (Keeps f c) (destroy b w)
dropped b f c w h = go (destroy b w) (destroy-Keeps b w)
  where
    go : (o : Option World) → Gives (Keeps w.holds w.cell) o → Gives (Keeps f c) o
    go none k = tt
    go (some v) k = Keeps-trans f c w v h k

-- A pointer is written last.
written :
    (i q : ℕ) (f : ℕ → ℕ) (c : ℕ → Cell) (o : Option World)
    → Gives (Keeps f c) o
    → Gives (Keeps (update f i q) c) (o >>= λ v. some (set_holds i q v))
written i q f c none h = tt
written i q f c (some v) (a, b) = (λ k. ground (arith, a k), b)

all_same : (c : ℕ → Cell) (p : ℕ) → IsSame (c p) (c p)
all_same c p = same (c p)

pub run-Keeps :
    (op : Op) (w : World)
    → Gives (Keeps (holds_after op w.holds) (cells_after op w.cell)) (run op w)
unfolding run construct construct_copy construct_move construct_from construct_system destruct
    assign_copy assign_move assign_null assign_from assign_system
run-Keeps (none_op i) w =
    on_new-Gives (Keeps (update w.holds i bad) w.cell) i w (some (set_holds i bad w))
      (λ k. refl, all_same w.cell)
run-Keeps (copy_op i j) w =
    let P = Keeps (update w.holds i (w.holds j)) w.cell in
    let o = clone (w.holds j) w >>= λ v. some (set_holds i (w.holds j) v) in
    on-Gives P j w (on_new i w o) (
      on_new-Gives P i w o
        (written i (w.holds j) w.holds w.cell (clone (w.holds j) w) (clone-Keeps (w.holds j) w)))
run-Keeps (move_op i j) w =
    let P = Keeps (update (update w.holds i (w.holds j)) j bad) w.cell in
    let o = some (set_holds j bad (set_holds i (w.holds j) w)) in
    on-Gives P j w (on_new i w o) (on_new-Gives P i w o (λ k. refl, all_same w.cell))
run-Keeps (from_op i p t) w =
    let v = set_holds i p (set_cell p (counted t 1) w) in
    on_new-Gives (Keeps v.holds v.cell) i w (some v) (λ k. refl, all_same v.cell)
run-Keeps (system_op i) w =
    on_new-Gives (Keeps (update w.holds i system) w.cell) i w (some (set_holds i system w))
      (λ k. refl, all_same w.cell)
run-Keeps (destruct_op i) w =
    on-Gives (Keeps (update w.holds i 0) w.cell) i w
      (destroy (w.holds i) w >>= λ v. some (set_holds i 0 v))
      (written i 0 w.holds w.cell (destroy (w.holds i) w) (destroy-Keeps (w.holds i) w))
run-Keeps (assign_copy_op i j) w =
    let P = Keeps (update w.holds i (w.holds j)) w.cell in
    let g : World → Option World = λ v. destroy (w.holds i) (set_holds i (w.holds j) v) in
    let o = clone (w.holds j) w >>= g in
    on-Gives P i w (on j w o) (
      on-Gives P j w o (
        Gives-bind (Keeps w.holds w.cell) P (clone (w.holds j) w) g (clone-Keeps (w.holds j) w)
          (λ v (a, b).
            dropped (w.holds i) (update w.holds i (w.holds j)) w.cell (set_holds i (w.holds j) v)
              (λ k. ground (arith, a k), b))))
run-Keeps (assign_move_op i j) w =
    let v = set_holds i (w.holds j) w in
    let o = destroy (w.holds i) v >>= λ u. some (set_holds j bad u) in
    let P = Keeps (update v.holds j bad) w.cell in
    on-Gives P i w (on j w o) (
      on-Gives P j w o
        (written j bad v.holds w.cell (destroy (w.holds i) v) (destroy-Keeps (w.holds i) v)))
run-Keeps (assign_null_op i) w =
    on-Gives (Keeps (update w.holds i bad) w.cell) i w
      (destroy (w.holds i) w >>= λ v. some (set_holds i bad v))
      (written i bad w.holds w.cell (destroy (w.holds i) w) (destroy-Keeps (w.holds i) w))
run-Keeps (assign_from_op i p t) w =
    let v = set_holds i p (set_cell p (counted t 1) w) in
    on-Gives (Keeps v.holds v.cell) i w (destroy (w.holds i) v) (destroy-Keeps (w.holds i) v)
run-Keeps (assign_system_op i) w =
    let v = set_holds i system w in
    on-Gives (Keeps v.holds v.cell) i w (destroy (w.holds i) v) (destroy-Keeps (w.holds i) v)
