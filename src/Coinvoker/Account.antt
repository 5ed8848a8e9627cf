-- ===== src/Coinvoker/Account.antt =====
-- What the counter and the results of a tail say about its heads.
use executors.Base.{
  ℕ, zero, suc, ◌-◌, ◌<◌, ◌≡◌, refl, ap, subst, List, [], ◌∷◌, ◌++◌, Bool, true, false, Option,
  none, some, Option-cases, ◌==◌, ◌⊎◌, inl, inr, arith,
}
use executors.Base.Family.{sum_of, sum_of-update, sum_of-le, sum_of-one}
use native.Mathlib.Decide.{dec_lt}
use executors.Coinvoker.{
  Head, holding, storing, completed, released, Tail, Machine, set_head, Step, stores, completes,
  releases, Reach, here, next, gather, dispatch, prime, set_result, complete, release, new_tail,
}

-- A head that the counter counts.
abbrev pub share : Head → ℕ
share holding = 1
share (storing args) = 1
share (completed args) = 0
share released = 0

abbrev pub result_of : Head → Option (List ℕ)
result_of holding = none
result_of (storing args) = some args
result_of (completed args) = some args
result_of released = none

abbrev pub is_last : Tail → Bool
is_last t = t.pending == 0

-- What is left of the tail when no head is counted: a head was released and the invoker was not called,
-- or it was called with all results.
abbrev pub HasEnded : ℕ → Machine → Type 0
HasEnded n m =
    ((i : ℕ) × (i < n) × (m.heads i ≡ released) × (m.tail.invoked ≡ []))
    ⊎ ((args : List ℕ) × (gather n m.tail.results ≡ some args) × (m.tail.invoked ≡ args ∷ []))

pub record IsCounted (n : ℕ) (m : Machine) : Type 0 where
  pub counted : m.tail.pending ≡ sum_of share n m.heads
  pub kept : (i : ℕ) → m.tail.results i ≡ result_of (m.heads i)
  pub deleted : m.tail.is_deleted ≡ is_last m.tail
  pub quiet : 0 < m.tail.pending → m.tail.invoked ≡ []
  pub ended : m.tail.pending ≡ 0 → HasEnded n m

-- With a head that is counted the tail is there.
pub share-IsLive :
    {n : ℕ} (m : Machine) (i : ℕ)
    → IsCounted n m
    → i < n
    → share (m.heads i) ≡ 1
    → (0 < m.tail.pending) × (m.tail.is_deleted ≡ false)
share-IsLive {n} m i c lt o =
    let le = sum_of-le share n m.heads i lt in
    let p : 0 < m.tail.pending = omega (arith, c.counted, le, o) in
    (p, ground (arith, c.deleted, p))

-- The arguments of the heads, one after the other.
unfoldable pub joined : ℕ → (ℕ → List ℕ) → List ℕ
joined zero args = []
joined (suc n) args = joined n args ++ args n

pub gather-missing :
    (n j : ℕ) (results : ℕ → Option (List ℕ)) → j < n → results j ≡ none → gather n results ≡ none
unfolding gather
gather-missing zero j results lt e = absurd (omega arith)
gather-missing (suc n) j results lt e = elim (dec_lt j n) [
  | yes lt' ↦ ground (arith, gather-missing n j results lt' e)
  | no ge ↦
      let e' : results n ≡ none = subst (λ k. results k ≡ none) (ground arith) e in
      ground (arith, e')
]

pub gather_lem :
    (n : ℕ) (results : ℕ → Option (List ℕ)) (args : ℕ → List ℕ)
    → ((i : ℕ) → i < n → results i ≡ some (args i))
    → gather n results ≡ some (joined n args)
unfolding gather joined
gather_lem zero results args h = refl
gather_lem (suc n) results args h =
    ground (arith, h n (omega arith), gather_lem n results args (λ i lt. h i (omega arith)))

prime-IsCounted :
    (n : ℕ) (t : Tail)
    → prime n new_tail ≡ some t
    → IsCounted n (record { tail = t; heads = λ i. holding })
unfolding prime dispatch gather
prime-IsCounted zero t e = record {
  counted = ground (arith, sum_of-one share zero (λ i. holding) (λ i. refl), e);
  kept = λ i. ground (arith, e);
  deleted = ground (arith, e);
  quiet = λ p. ground (arith, e, p);
  ended = λ z. inr ([], refl, ground (arith, e));
}
prime-IsCounted (suc n) t e = record {
  counted = ground (arith, sum_of-one share (suc n) (λ i. holding) (λ i. refl), e);
  kept = λ i. ground (arith, e);
  deleted = ground (arith, e);
  quiet = λ p. ground (arith, e);
  ended = λ z. absurd (ground (arith, e, z));
}

-- The call that ends the tail has called the invoker with all results.
complete-IsLast :
    (n : ℕ) (t u : Tail)
    → t.is_deleted ≡ false
    → t.pending ≡ 1
    → complete n t ≡ some u
    → (args : List ℕ) × (gather n t.results ≡ some args)
      × (u.results ≡ t.results)
      × (u.invoked ≡ args ∷ t.invoked)
      × (u.pending ≡ 0)
      × (u.is_deleted ≡ true)
unfolding complete dispatch
complete-IsLast n t u d p e = elim (Option-cases (gather n t.results)) [
  | inl h ↦ absurd (ground (arith, e, h, d, p))
  | inr (args, h) ↦ (
    args,
    h,
    ground (arith, e, h, d, p),
    ground (arith, e, h, d, p),
    ground (arith, e, h, d, p),
    ground (arith, e, h, d, p),
  )
]

complete-IsEarly :
    (n : ℕ) (t u : Tail) {left : ℕ}
    → t.is_deleted ≡ false
    → t.pending ≡ suc (suc left)
    → complete n t ≡ some u
    → u ≡ record t { pending = suc left }
unfolding complete
complete-IsEarly n t u d p e = ground (arith, e, d, p)

completes-IsCounted :
    {n : ℕ} (m : Machine) (i : ℕ) (args : List ℕ) (t : Tail) (left : ℕ)
    → i < n
    → m.heads i ≡ storing args
    → m.tail.pending ≡ suc left
    → m.tail.is_deleted ≡ false
    → complete n m.tail ≡ some t
    → IsCounted n m
    → IsCounted n (set_head i (completed args) t m)
completes-IsCounted {n} m i args t zero lt h p d e c =
    let (vs, g, r, v, z, x) = complete-IsLast n m.tail t d p e in
    let quiet = c.quiet (omega (arith, p)) in
    record {
      counted =
          omega (
            arith,
            c.counted,
            p,
            z,
            sum_of-update share n m.heads i (completed args) lt,
            ap share h,
          );
      kept = λ j. ground (arith, r, c.kept i, c.kept j, h);
      deleted = ground (arith, x, z);
      quiet = λ q. absurd (omega (arith, z));
      ended = λ q. inr (vs, ground (arith, r, g), ground (arith, v, quiet));
    }
completes-IsCounted {n} m i args t (suc left) lt h p d e c =
    let same = complete-IsEarly n m.tail t d p e in
    record {
      counted = omega (
        arith,
        c.counted,
        p,
        ap (λ u. u.pending) same,
        sum_of-update share n m.heads i (completed args) lt,
        ap share h,
      );
      kept = λ j. ground (arith, same, c.kept i, c.kept j, h);
      deleted = ground (arith, same, d);
      quiet = λ q. ground (arith, same, c.quiet, p);
      ended = λ q. absurd (ground (arith, same, q));
    }

Step-IsCounted : {n : ℕ} (m k : Machine) → Step n m k → IsCounted n m → IsCounted n k
unfolding set_result release
Step-IsCounted {n} m k (stores i args {t} lt h e) c =
    let l = share-IsLive m i c lt (ground (arith, h)) in
    record {
      counted =
          let same : t.pending ≡ m.tail.pending = ground (arith, e, l) in
          omega
            (arith, c.counted, same, sum_of-update share n m.heads i (storing args) lt, ap share h);
      kept = λ j. ground (arith, e, l, c.kept i, c.kept j, h);
      deleted = ground (arith, e, l, c.deleted);
      quiet = λ p. ground (arith, e, l, c.quiet);
      ended = λ z. absurd (ground (arith, e, l, z));
    }
Step-IsCounted {n} m k (completes i {args} {t} lt h e) c =
    let l = share-IsLive m i c lt (ground (arith, h)) in
    completes-IsCounted m i args t (m.tail.pending - 1) lt h (omega (arith, l)) l.1 e c
Step-IsCounted {n} m k (releases i {t} lt h e) c =
    let l = share-IsLive m i c lt (ground (arith, h)) in
    record {
      counted =
          ground (arith, c.counted, e, l, sum_of-update share n m.heads i released lt, ap share h);
      kept = λ j. ground (arith, e, l, c.kept i, c.kept j, h);
      deleted = ground (arith, e, l, c.deleted);
      quiet = λ p. ground (arith, e, l, c.quiet);
      ended = λ z. inl (i, lt, ground (arith), ground (arith, e, l, c.quiet));
    }

pub Reach-IsCounted : {n : ℕ} (m : Machine) → Reach n m → IsCounted n m
Reach-IsCounted {n} m (here {t} e) = prime-IsCounted n t e
Reach-IsCounted k (next {m} r s) = Step-IsCounted m k s (Reach-IsCounted m r)
