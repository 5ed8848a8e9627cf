-- ===== src/Base/Chain.antt =====
-- Doubly linked lists, intrusive, as pointers: an element is its address, and 0 is the null pointer.
use executors.Base.{
  ℕ, ◌≡◌, ◌≢◌, sym, ◌∙◌, ap, subst, List, [], ◌∷◌, ◌++◌, arith, ◌==◌, NotIn, if◌then◌else◌,
}

pub record Node : Type 0 where
  pub prev : ℕ
  pub next : ℕ

-- From the pointer `first` on, the `next` pointers lead through these elements and no others, and each
-- `prev` pointer leads back, that of the first to `before`.
abbrev pub Linked : (ℕ → Node) → ℕ → ℕ → List ℕ → Type 0
Linked d before first [] = first ≡ 0
Linked d before first (t ∷ ts) =
    (first ≡ t) × (t ≢ 0) × ((d t).prev ≡ before) × Linked d t (d t).next ts

abbrev pub Distinct : List ℕ → Type 0
Distinct [] = Unit
Distinct (t ∷ ts) = NotIn t ts × Distinct ts

abbrev pub SameLinks : (ℕ → Node) → (ℕ → Node) → ℕ → Type 0
SameLinks d e s = ((e s).prev ≡ (d s).prev) × ((e s).next ≡ (d s).next)

-- A change of three timers that are not in the list does not matter to it.
pub others-Linked :
    (d e : ℕ → Node) (a b c before first : ℕ) (ts : List ℕ)
    → ((s : ℕ) → a ≢ s → b ≢ s → c ≢ s → SameLinks d e s)
    → NotIn a ts
    → NotIn b ts
    → NotIn c ts
    → Linked d before first ts
    → Linked e before first ts
others-Linked d e a b c before first [] same l m n h = h
others-Linked d e a b c before first (t ∷ ts) same l m n h =
    let k = same t l.0 m.0 n.0 in
    (
      h.0,
      h.1,
      k.0 ∙ h.2,
      others-Linked d e a b c t (e t).next ts same l.1 m.1 n.1
          (subst (λ f. Linked d t f ts) (sym k.1) h.3),
    )

abbrev pub last_or : ℕ → List ℕ → ℕ
last_or before [] = before
last_or before (x ∷ xs) = last_or x xs

pub prev-Linked :
    (d : ℕ → Node) (before first : ℕ) (xs : List ℕ) (t : ℕ) (ys : List ℕ)
    → Linked d before first (xs ++ t ∷ ys)
    → (d t).prev ≡ last_or before xs
prev-Linked d before first [] t ys c = c.2
prev-Linked d before first (x ∷ xs) t ys c = prev-Linked d x (d x).next xs t ys c.3

last_or-≢ :
    (x y : ℕ) (xs : List ℕ) (t : ℕ) (ys : List ℕ)
    → x ≢ y
    → NotIn x (xs ++ t ∷ ys)
    → last_or y xs ≢ x
last_or-≢ x y [] t ys d n = ground arith
last_or-≢ x y (z ∷ xs) t ys d n = last_or-≢ x z xs t ys n.0 n.1

pub next-Linked :
    (d : ℕ → Node) (before first : ℕ) (xs : List ℕ) (t : ℕ) (ys : List ℕ)
    → Linked d before first (xs ++ t ∷ ys)
    → Linked d t (d t).next ys
next-Linked d before first [] t ys c = c.3
next-Linked d before first (x ∷ xs) t ys c = next-Linked d x (d x).next xs t ys c.3

NotIn-next :
    (d : ℕ → Node) (x t : ℕ) (xs ys : List ℕ)
    → x ≢ 0
    → Linked d t (d t).next ys
    → NotIn x (xs ++ t ∷ ys)
    → (x ≢ t) × (x ≢ (d t).next)
NotIn-next d x t [] [] z c n = (n.0, ground arith)
NotIn-next d x t [] (y ∷ ys) z c n = (n.0, ground (arith, n.1.0, c.0))
NotIn-next d x t (a ∷ xs) ys z c n = NotIn-next d x t xs ys z c n.1

pub NotIn-nil :
    (d : ℕ → Node) (before first : ℕ) (ts : List ℕ) → Linked d before first ts → NotIn 0 ts
NotIn-nil d before first [] c = tt
NotIn-nil d before first (t ∷ ts) c = (ground (arith, c.1), NotIn-nil d t (d t).next ts c.3)

-- The pointers after `t` is taken out from between `p` and `n`.
pub record IsUnlinked (d e : ℕ → Node) (t p n : ℕ) : Type 0 where
  pub elsewhere : (s : ℕ) → t ≢ s → p ≢ s → n ≢ s → SameLinks d e s
  pub at_prev : p ≢ 0 → p ≢ t → p ≢ n → ((e p).next ≡ n) × ((e p).prev ≡ (d p).prev)
  pub at_next : n ≢ 0 → n ≢ t → p ≢ n → ((e n).prev ≡ p) × ((e n).next ≡ (d n).next)

-- Those after `t`.
unlinked_rest :
    (d e : ℕ → Node) (t p n : ℕ) (ys : List ℕ)
    → IsUnlinked d e t p n
    → NotIn p ys
    → NotIn t ys
    → Distinct ys
    → Linked d t n ys
    → Linked e p n ys
unlinked_rest d e t p n [] u a b c h = h
unlinked_rest d e t p n (y ∷ ys) u a b c h =
    let at =
      u.at_next (ground (arith, h.0, h.1)) (ground (arith, h.0, b.0)) (ground (arith, h.0, a.0)) in
    (
      h.0,
      h.1,
      ap (λ j. (e j).prev) (sym h.0) ∙ at.0,
      others-Linked d e t p n y (e y).next ys u.elsewhere b.1 a.1
          (subst (λ j. NotIn j ys) (sym h.0) c.0)
          (subst (λ f. Linked d y f ys)
            (ap (λ j. (d j).next) (sym h.0) ∙ sym at.1 ∙ ap (λ j. (e j).next) h.0) h.3),
    )

-- Where the pointers of one before `t` lead, after.
record Leads (d e : ℕ → Node) (t n x : ℕ) : Type 0 where
  same_prev : (e x).prev ≡ (d x).prev
  new_next : (e x).next ≡ (if (d x).next == t then n else (d x).next)

leads :
    (d e : ℕ → Node) (t p n x : ℕ) (xs ys : List ℕ)
    → IsUnlinked d e t p n
    → p ≡ last_or x xs
    → x ≢ 0
    → x ≢ t
    → x ≢ n
    → NotIn x (xs ++ t ∷ ys)
    → Distinct (xs ++ t ∷ ys)
    → Linked d x (d x).next (xs ++ t ∷ ys)
    → Leads d e t n x
leads d e t p n x [] ys u h z a b c k l =
    let at = u.at_prev (ground (arith, h)) (ground (arith, h)) (ground (arith, h)) in
    record {
      same_prev = ap (λ j. (e j).prev) (sym h) ∙ at.1 ∙ ap (λ j. (d j).prev) h;
      new_next = ap (λ j. (e j).next) (sym h) ∙ at.0 ∙ ground (arith, l.0);
    }
leads d e t p n x (y ∷ xs) ys u h z a b c k l =
    let far : last_or y xs ≢ x = last_or-≢ x y xs t ys c.0 c.1 in
    let same = u.elsewhere x (ground arith) (ground (arith, h, far)) (ground arith) in
    record { same_prev = same.0; new_next = same.1 ∙ ground (arith, l.0, NotIn-self y xs t ys k.0) }
  where
    NotIn-self : (y : ℕ) (xs : List ℕ) (t : ℕ) (ys : List ℕ) → NotIn y (xs ++ t ∷ ys) → y ≢ t
    NotIn-self y [] t ys n = n.0
    NotIn-self y (x ∷ xs) t ys n = NotIn-self y xs t ys n.1

-- The whole list.
pub unlinked-Linked :
    (d e : ℕ → Node) (t p n before first : ℕ) (xs ys : List ℕ)
    → IsUnlinked d e t p n
    → (d t).prev ≡ p
    → (d t).next ≡ n
    → NotIn before (xs ++ t ∷ ys)
    → Distinct (xs ++ t ∷ ys)
    → Linked d before first (xs ++ t ∷ ys)
    → Linked e before (if first == t then n else first) (xs ++ ys)
unlinked-Linked d e t p n before first [] ys u hp hn a b c =
    let before_p : p ≡ before = sym hp ∙ c.2 in
    let first_n : n ≡ (if first == t then n else first) = ground (arith, c.0) in
    subst (λ f. Linked e before f ys) first_n
      (subst (λ q. Linked e q n ys) before_p
        (unlinked_rest d e t p n ys u (subst (λ q. NotIn q ys) (sym before_p) a.1) b.0 b.1
          (subst (λ f. Linked d t f ys) hn c.3)))
unlinked-Linked d e t p n before first (x ∷ xs) ys u hp hn a b c =
    let rest : Linked d x (d x).next (xs ++ t ∷ ys) = c.3 in
    let apart = NotIn-next d x t xs ys c.1 (next-Linked d x (d x).next xs t ys rest) b.0 in
    let l =
      leads d e t p n x xs ys u (sym hp ∙ prev-Linked d x (d x).next xs t ys rest) c.1 apart.0
        (ground (arith, apart.1, hn)) b.0 b.1 rest in
    (
      ground (arith, c.0, apart.0),
      c.1,
      l.same_prev ∙ c.2,
      subst (λ f. Linked e x f (xs ++ ys)) (sym l.new_next)
          (unlinked-Linked d e t p n x (d x).next xs ys u hp hn b.0 b.1 rest),
    )

pub Distinct-remove :
    (xs : List ℕ) (t : ℕ) (ys : List ℕ) → Distinct (xs ++ t ∷ ys) → Distinct (xs ++ ys)
Distinct-remove [] t ys h = h.1
Distinct-remove (x ∷ xs) t ys h = (go xs h.0, Distinct-remove xs t ys h.1)
  where
    go : (zs : List ℕ) → NotIn x (zs ++ t ∷ ys) → NotIn x (zs ++ ys)
    go [] n = n.1
    go (z ∷ zs) n = (n.0, go zs n.1)

pub same-Linked :
    (d e : ℕ → Node) (before first : ℕ) (ts : List ℕ)
    → ((s : ℕ) → SameLinks d e s)
    → Linked d before first ts
    → Linked e before first ts
same-Linked d e before first [] same h = h
same-Linked d e before first (t ∷ ts) same h = (
  h.0,
  h.1,
  (same t).0 ∙ h.2,
  same-Linked d e t (e t).next ts same (subst (λ f. Linked d t f ts) (sym (same t).1) h.3),
)

NotIn-append-right : (x : ℕ) (xs : List ℕ) (t : ℕ) (ys : List ℕ) → NotIn x (xs ++ t ∷ ys) → x ≢ t
NotIn-append-right x [] t ys n = n.0
NotIn-append-right x (y ∷ xs) t ys n = NotIn-append-right x xs t ys n.1

-- An element of a list without repetitions is not among the others, and one of a linked list is not null.
pub Distinct-middle :
    (xs : List ℕ) (t : ℕ) (ys : List ℕ) → Distinct (xs ++ t ∷ ys) → NotIn t (xs ++ ys)
Distinct-middle [] t ys h = h.0
Distinct-middle (x ∷ xs) t ys h =
    (λ e. NotIn-append-right x xs t ys h.0 (sym e), Distinct-middle xs t ys h.1)

pub Linked-nonzero :
    (d : ℕ → Node) (before first : ℕ) (xs : List ℕ) (t : ℕ) (ys : List ℕ)
    → Linked d before first (xs ++ t ∷ ys)
    → t ≢ 0
Linked-nonzero d before first xs t ys c e =
    NotIn-append-right 0 xs t ys (NotIn-nil d before first (xs ++ t ∷ ys) c) (sym e)
