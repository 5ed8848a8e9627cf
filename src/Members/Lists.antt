-- ===== src/Members/Lists.antt =====
-- The pointers of the lists of the services, as objects come and go.
use executors.Base.{
  ℕ, ◌≡◌, refl, ◌≢◌, subst, List, ◌∷◌, ◌++◌, arith, ◌==◌, NotIn, update, inl, inr, Bool-cases,
}
use executors.Base.Chain.{Distinct-middle, Linked-nonzero}
use executors.Members.{Members, join, leave, move_to}
use executors.Members.Steps.{
  IsListOf, IsMembers, AllIn-NotIn, leave-own, leave-other, join-own, join-other,
}

-- An object that leaves its service goes from the list, in which the others stay, in order.
pub leave-IsMembers :
    (a : ℕ) (xs ys : List ℕ) (lists : ℕ → List ℕ) (m : Members)
    → lists (m.service a) ≡ xs ++ a ∷ ys
    → IsMembers lists m
    → IsMembers (update lists (m.service a) (xs ++ ys)) (leave a m)
unfolding leave
leave-IsMembers a xs ys lists m e h t = elim (Bool-cases (m.service a == t)) [
  | inl y ↦
      subst
        (λ x. IsListOf (leave a m).service (leave a m).node x ((leave a m).first x) (new_lists x))
        (ground (arith, y))
        (subst (IsListOf m.service (leave a m).node (m.service a) ((leave a m).first (m.service a)))
          (ground arith) (leave-own a (m.service a) xs ys m refl here))
  | inr n ↦
      subst (IsListOf (leave a m).service (leave a m).node t ((leave a m).first t))
        (ground (arith, n)) (leave-other a t xs ys (lists t) m (ground (arith, n)) here (h t))
]
  where
    new_lists : ℕ → List ℕ
    new_lists = update lists (m.service a) (xs ++ ys)

    here : IsListOf m.service m.node (m.service a) (m.first (m.service a)) (xs ++ a ∷ ys)
    here =
        subst (IsListOf m.service m.node (m.service a) (m.first (m.service a))) e (h (m.service a))

-- An object that is new to all lists, and not null, comes to the front of the list of its service.
pub join-IsMembers :
    (s a : ℕ) (lists : ℕ → List ℕ) (m : Members)
    → a ≢ 0
    → ((t : ℕ) → NotIn a (lists t))
    → IsMembers lists m
    → IsMembers (update lists s (a ∷ lists s)) (join s a m)
join-IsMembers s a lists m nonzero away h t = elim (Bool-cases (s == t)) [
  | inl y ↦
      subst
        (λ x.
          IsListOf (join s a m).service (join s a m).node x ((join s a m).first x) (new_lists x))
        (ground (arith, y))
        (subst (IsListOf (join s a m).service (join s a m).node s ((join s a m).first s))
          {x = a ∷ lists s} (ground arith) (join-own s a (lists s) m nonzero (away s) (h s)))
  | inr n ↦
      subst (IsListOf (join s a m).service (join s a m).node t ((join s a m).first t))
        (ground (arith, n))
        (join-other s a t (lists s) (lists t) m (ground (arith, n)) (away t) (h s) (h t))
]
  where
    new_lists : ℕ → List ℕ
    new_lists = update lists s (a ∷ lists s)

-- An object that `_Move_from` takes to another service goes from the list of its own service, in which the
-- others stay, in order, to the front of the other list.
pub move_to-IsMembers :
    (s a : ℕ) (xs ys : List ℕ) (lists : ℕ → List ℕ) (m : Members)
    → m.service a ≢ s
    → lists (m.service a) ≡ xs ++ a ∷ ys
    → IsMembers lists m
    → IsMembers (update (update lists (m.service a) (xs ++ ys)) s (a ∷ lists s)) (move_to s a m)
unfolding move_to
move_to-IsMembers s a xs ys lists m q e h = subst (IsMembers new_lists) (ground (arith, q)) (
    subst (λ l. IsMembers (update left s (a ∷ l)) (join s a (leave a m))) (ground (arith, q))
      (join-IsMembers s a left (leave a m)
        (Linked-nonzero m.node 0 (m.first (m.service a)) xs a ys here.0) away
        (leave-IsMembers a xs ys lists m e h)))
  where
    left : ℕ → List ℕ
    left = update lists (m.service a) (xs ++ ys)

    new_lists : ℕ → List ℕ
    new_lists = update left s (a ∷ lists s)

    here : IsListOf m.service m.node (m.service a) (m.first (m.service a)) (xs ++ a ∷ ys)
    here =
        subst (IsListOf m.service m.node (m.service a) (m.first (m.service a))) e (h (m.service a))

    away : (t : ℕ) → NotIn a (left t)
    away t = elim (Bool-cases (m.service a == t)) [
      | inl y ↦ subst (NotIn a) (ground (arith, y)) (Distinct-middle xs a ys here.1)
      | inr n ↦
          subst (NotIn a) (ground (arith, n))
            (AllIn-NotIn m.service a t (lists t) (ground (arith, n)) (h t).2)
    ]
