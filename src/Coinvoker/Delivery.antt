-- ===== src/Coinvoker/Delivery.antt =====
-- What the function object that takes the results of the heads gets, and when its tail is deleted.
use executors.Base.{
  ℕ, zero, suc, ◌+◌, ◌<◌, ◌≡◌, refl, List, [], ◌∷◌, true, Option, none, some, inl, inr, ◌≢◌, arith,
  ap, Ensures, Option-cases, ◌++◌,
}
use executors.Base.Family.{sum_of-empty, sum_of-two}
use native.Mathlib.Decide.{dec_lt}
use executors.Coinvoker.{
  Head, holding, storing, completed, released, Machine, Reach, gather, dispatch, set_result,
  complete, release,
}
use executors.Coinvoker.Account.{
  share, result_of, IsCounted, share-IsLive, joined, gather-missing, gather_lem, Reach-IsCounted,
}

-- When the pointers of all `n` heads have been called and every call is over, the invoker has been called
-- exactly once, with the arguments of all heads one after the other, and the tail has been deleted.
pub Reach-IsDelivered :
    (n : ℕ) (m : Machine) (args : ℕ → List ℕ)
    → Reach n m
    → ((i : ℕ) → i < n → m.heads i ≡ completed (args i))
    → (m.tail.invoked ≡ joined n args ∷ []) × (m.tail.is_deleted ≡ true)
Reach-IsDelivered n m args r h =
    let c = Reach-IsCounted m r in
    let z : m.tail.pending ≡ 0 =
      omega (arith, c.counted, sum_of-empty share n m.heads (λ i lt. ground (arith, h i lt))) in
    let g = gather_lem n m.tail.results args (λ i lt. ground (arith, c.kept i, h i lt)) in
    (
      elim (c.ended z) [
        | inl (i, lt, e, v) ↦ absurd (ground (arith, e, h i lt))
        | inr (vs, e, v) ↦ ground (arith, e, v, g)
      ],
      ground (arith, c.deleted, z),
    )

-- The call of the pointer of a head that holds the tail stores its arguments, and the destructor of that
-- pointer releases the tail: neither meets a tail that is deleted, nor a result that is set.
pub holding-IsSafe :
    (n : ℕ) (m : Machine) (i : ℕ) (args : List ℕ)
    → Reach n m
    → i < n
    → m.heads i ≡ holding
    → Ensures (λ t. t.results i ≡ some args) (set_result i args m.tail)
      × Ensures (λ t. t.results ≡ m.tail.results) (release m.tail)
unfolding set_result release
holding-IsSafe n m i args r lt h =
    let c = Reach-IsCounted m r in
    let l = share-IsLive m i c lt (ground (arith, h)) in
    let k = c.kept i in (ground (arith, l, k, h), ground (arith, l, h))

gather-defined :
    (n : ℕ) (results : ℕ → Option (List ℕ))
    → ((i : ℕ) → i < n → results i ≢ none)
    → (args : List ℕ) × (gather n results ≡ some args)
unfolding gather
gather-defined zero results h = ([], refl)
gather-defined (suc n) results h =
    let (before, e) = gather-defined n results (λ i lt. h i (omega arith)) in
    elim (Option-cases (results n)) [
      | inl missing ↦ absurd (h n (omega arith) missing)
      | inr (args, e') ↦ (before ++ args, ground (arith, e, e'))
    ]

missing-IsHolding : (h : Head) → result_of h ≡ none → h ≢ released → h ≡ holding
missing-IsHolding holding e never = refl
missing-IsHolding released e never = absurd (never refl)
missing-IsHolding h e never = absurd (ground (arith, e))

-- When one head is counted, all others have set their results, unless they were released.
last-IsSet :
    (n : ℕ) (m : Machine) (i j : ℕ) (args : List ℕ)
    → IsCounted n m
    → i < n
    → j < n
    → m.heads i ≡ storing args
    → m.heads j ≢ released
    → m.tail.pending ≡ 1
    → m.tail.results j ≢ none
last-IsSet n m i j args c lt lt' h never p missing =
    let e = missing-IsHolding (m.heads j) (ground (arith, c.kept j, missing)) never in
    let d : i ≢ j = λ q. ground (arith, q, h, e) in
    absurd
      (omega (arith, c.counted, p, ap share h, ap share e, sum_of-two share n m.heads i j lt lt' d))

-- As long as no head has released the tail, the end of the call of a pointer is defined: the tail is not
-- deleted, and if the invoker is called then every result is set.
pub storing-IsSafe :
    (n : ℕ) (m : Machine) (i : ℕ) (args : List ℕ)
    → Reach n m
    → i < n
    → m.heads i ≡ storing args
    → ((j : ℕ) → j < n → m.heads j ≢ released)
    → Ensures (λ t. t.pending + 1 ≡ m.tail.pending) (complete n m.tail)
unfolding complete dispatch
storing-IsSafe n m i args r lt h never =
    let c = Reach-IsCounted m r in
    let l = share-IsLive m i c lt (ground (arith, h)) in
    elim (dec_lt 1 m.tail.pending) [
      | yes more ↦ ground (arith, l, more)
      | no last ↦
          let p : m.tail.pending ≡ 1 = omega (arith, l, last) in
          let (vs, g) =
            gather-defined n m.tail.results
              (λ j lt'. last-IsSet n m i j args c lt lt' h (never j lt') p) in
          ground (arith, l, p, g)
    ]

-- When a head has released the tail, and the call of the pointer of another head is the last to end, the
-- tail calls the invoker although a result is not set, which is undefined.
pub complete-released :
    (n : ℕ) (m : Machine) (i j : ℕ) (args : List ℕ)
    → Reach n m
    → i < n
    → j < n
    → m.heads i ≡ storing args
    → m.heads j ≡ released
    → m.tail.pending ≡ 1
    → complete n m.tail ≡ none
unfolding complete dispatch
complete-released n m i j args r lt lt' h h' p =
    let c = Reach-IsCounted m r in
    let g = gather-missing n j m.tail.results lt' (ground (arith, c.kept j, h')) in
    ground (arith, c.deleted, p, g)
