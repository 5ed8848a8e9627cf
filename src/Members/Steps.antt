-- ===== src/Members/Steps.antt =====
-- What the pointers of one list become when an object comes or goes: of its own list, and of another.
use executors.Base.{
  ℕ, ◌≡◌, refl, ◌≢◌, sym, ◌∙◌, ap, subst, List, [], ◌∷◌, ◌++◌, arith, NotIn, update, ◌⊎◌, inl, inr,
}
use executors.Base.Chain.{
  Node, Linked, Distinct, IsUnlinked, unlinked-Linked, NotIn-nil, Distinct-remove, others-Linked,
  last_or, prev-Linked, next-Linked,
}
use executors.Members.{Members, join, leave}

abbrev pub AllIn : (ℕ → ℕ) → ℕ → List ℕ → Type 0
AllIn service s [] = Unit
AllIn service s (a ∷ xs) = (service a ≡ s) × AllIn service s xs

-- The list of the service `s` from `first` on: its objects, in order.
abbrev pub IsListOf : (ℕ → ℕ) → (ℕ → Node) → ℕ → ℕ → List ℕ → Type 0
IsListOf service node s first xs = Linked node 0 first xs × Distinct xs × AllIn service s xs

-- The objects of each service, in the order of its list.
abbrev pub IsMembers : (ℕ → List ℕ) → Members → Type 0
IsMembers lists m = (s : ℕ) → IsListOf m.service m.node s (m.first s) (lists s)

pub AllIn-NotIn :
    (service : ℕ → ℕ) (a s : ℕ) (xs : List ℕ) → service a ≢ s → AllIn service s xs → NotIn a xs
AllIn-NotIn service a s [] d h = tt
AllIn-NotIn service a s (x ∷ xs) d h =
    (λ e. d (ap service e ∙ h.0), AllIn-NotIn service a s xs d h.1)

-- A pointer from the list of a service is null or to an object of the service.
IsOf : (ℕ → ℕ) → ℕ → ℕ → Type 0
IsOf service s a = (a ≡ 0) ⊎ (service a ≡ s)

IsOf-nil : (service : ℕ → ℕ) (s : ℕ) → IsOf service s 0
unfolding IsOf
IsOf-nil service s = inl refl

last_of :
    (service : ℕ → ℕ) (s before : ℕ) (xs ys : List ℕ)
    → IsOf service s before
    → AllIn service s (xs ++ ys)
    → IsOf service s (last_or before xs)
unfolding IsOf
last_of service s before [] ys b h = b
last_of service s before (x ∷ xs) ys b h = last_of service s x xs ys (inr h.0) h.1

first_of :
    (service : ℕ → ℕ) (d : ℕ → Node) (s before first : ℕ) (xs : List ℕ)
    → Linked d before first xs
    → AllIn service s xs
    → IsOf service s first
unfolding IsOf
first_of service d s before first [] c h = inl c
first_of service d s before first (x ∷ xs) c h = inr (ap service c.0 ∙ h.0)

AllIn-right :
    (service : ℕ → ℕ) (s : ℕ) (xs ys : List ℕ) → AllIn service s (xs ++ ys) → AllIn service s ys
AllIn-right service s [] ys h = h
AllIn-right service s (x ∷ xs) ys h = AllIn-right service s xs ys h.1

AllIn-remove :
    (service : ℕ → ℕ) (s a : ℕ) (xs ys : List ℕ)
    → AllIn service s (xs ++ a ∷ ys)
    → AllIn service s (xs ++ ys)
AllIn-remove service s a [] ys h = h.1
AllIn-remove service s a (x ∷ xs) ys h = (h.0, AllIn-remove service s a xs ys h.1)

AllIn-update :
    (service : ℕ → ℕ) (s t a : ℕ) (xs : List ℕ)
    → NotIn a xs
    → AllIn service s xs
    → AllIn (update service a t) s xs
AllIn-update service s t a [] n h = tt
AllIn-update service s t a (x ∷ xs) n h =
    (ground (arith, n.0, h.0), AllIn-update service s t a xs n.1 h.1)

IsOf-NotIn :
    (service : ℕ → ℕ) (d : ℕ → Node) (a s t first : ℕ) (xs : List ℕ)
    → s ≢ t
    → IsOf service s a
    → Linked d 0 first xs
    → AllIn service t xs
    → NotIn a xs
unfolding IsOf
IsOf-NotIn service d a s t first xs apart h c o = elim h [
  | inl e ↦ subst (λ x. NotIn x xs) (sym e) (NotIn-nil d 0 first xs c)
  | inr e ↦ AllIn-NotIn service a t xs (ground arith) o
]

leave-IsUnlinked :
    (a : ℕ) (m : Members) → IsUnlinked m.node (leave a m).node a (m.node a).prev (m.node a).next
unfolding leave
leave-IsUnlinked a m = record {
  elsewhere = λ s x y z. (ground arith, ground arith);
  at_prev = λ x y z. (ground arith, ground arith);
  at_next = λ x y z. (ground arith, ground arith);
}

-- The list that the object leaves, and another.
pub leave-own :
    (a s : ℕ) (xs ys : List ℕ) (m : Members)
    → m.service a ≡ s
    → IsListOf m.service m.node s (m.first s) (xs ++ a ∷ ys)
    → IsListOf m.service (leave a m).node s ((leave a m).first s) (xs ++ ys)
unfolding leave
leave-own a s xs ys m e (c, d, o) = (
  subst (λ f. Linked (leave a m).node 0 f (xs ++ ys)) (ground (arith, e))
      (unlinked-Linked m.node (leave a m).node a (m.node a).prev (m.node a).next 0 (m.first s) xs ys
        (leave-IsUnlinked a m) refl refl (NotIn-nil m.node 0 (m.first s) (xs ++ a ∷ ys) c) d c),
  Distinct-remove xs a ys d,
  AllIn-remove m.service s a xs ys o,
)

pub leave-other :
    (a t : ℕ) (xs ys zs : List ℕ) (m : Members)
    → m.service a ≢ t
    → IsListOf m.service m.node (m.service a) (m.first (m.service a)) (xs ++ a ∷ ys)
    → IsListOf m.service m.node t (m.first t) zs
    → IsListOf m.service (leave a m).node t ((leave a m).first t) zs
unfolding leave
leave-other a t xs ys zs m apart (c, d, o) (c', d', o') = (
  subst (λ f. Linked (leave a m).node 0 f zs) (ground (arith, apart))
      (others-Linked m.node (leave a m).node a (m.node a).prev (m.node a).next 0 (m.first t) zs
        (leave-IsUnlinked a m).elsewhere (AllIn-NotIn m.service a t zs apart o')
        (IsOf-NotIn m.service m.node (m.node a).prev s t (m.first t) zs apart before c' o')
        (IsOf-NotIn m.service m.node (m.node a).next s t (m.first t) zs apart behind c' o') c'),
  d',
  o',
)
  where
    s : ℕ
    s = m.service a

    before : IsOf m.service s (m.node a).prev
    before =
        subst (λ p. IsOf m.service s p) (sym (prev-Linked m.node 0 (m.first s) xs a ys c))
          (last_of m.service s 0 xs (a ∷ ys) (IsOf-nil m.service s) o)

    behind : IsOf m.service s (m.node a).next
    behind =
        first_of m.service m.node s a (m.node a).next ys
          (next-Linked m.node 0 (m.first s) xs a ys c) (AllIn-right m.service s xs (a ∷ ys) o).1

-- The list that the object joins, and another.
pub join-own :
    (s a : ℕ) (xs : List ℕ) (m : Members)
    → a ≢ 0
    → NotIn a xs
    → IsListOf m.service m.node s (m.first s) xs
    → IsListOf (join s a m).service (join s a m).node s ((join s a m).first s) (a ∷ xs)
unfolding join
join-own s a [] m nonzero n (c, d, o) = (ground (arith, c, nonzero), (tt, tt), (ground arith, tt))
join-own s a (x ∷ xs) m nonzero n (c, d, o) = (
  (
    ground arith,
    nonzero,
    ground (arith, n.0, c.0),
    (
      ground (arith, c.0, n.0),
      c.1,
      ground (arith, c.0, c.1),
      subst (λ f. Linked (join s a m).node x f xs) (sym next_same)
          (others-Linked m.node (join s a m).node a x x x (m.node x).next xs
            (λ y d e f. (ground (arith, c.0), ground (arith, c.0))) n.1 d.0 d.0 c.3),
    ),
  ),
  (n, d),
  (ground arith, (ground (arith, o.0), AllIn-update m.service s s a xs n.1 o.1)),
)
  where
    next_same : ((join s a m).node x).next ≡ (m.node x).next
    next_same = ground (arith, n.0, c.0)

pub join-other :
    (s a t : ℕ) (xs zs : List ℕ) (m : Members)
    → s ≢ t
    → NotIn a zs
    → IsListOf m.service m.node s (m.first s) xs
    → IsListOf m.service m.node t (m.first t) zs
    → IsListOf (join s a m).service (join s a m).node t ((join s a m).first t) zs
unfolding join
join-other s a t xs zs m apart n (c, d, o) (c', d', o') = (
  subst (λ f. Linked (join s a m).node 0 f zs) (ground (arith, apart))
      (others-Linked m.node (join s a m).node a f f 0 (m.first t) zs
        (λ y d e f. (ground arith, ground arith)) n away away c'),
  d',
  AllIn-update m.service t s a zs n o',
)
  where
    f : ℕ
    f = m.first s

    away : NotIn f zs
    away =
        IsOf-NotIn m.service m.node f s t (m.first t) zs apart
          (first_of m.service m.node s 0 f xs c o) c' o'
