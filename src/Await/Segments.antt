-- ===== src/Await/Segments.antt =====
-- The order in which the resumptions of a coroutine execute its segments.
use executors.Base.{
  ℕ, zero, suc, ◌+◌, ◌<◌, ◌≡◌, refl, ap, ◌∙◌, List, [], ◌∷◌, Option, none, some, Option-cases,
  length, arith, inl, inr,
}
use executors.Await.Coroutine.{
  CoroutineValue, at, complete, position, nth, entry, segment, reenter, run, next_position, enter,
}

-- The compiler accepts a `switch` whose cases are different, and lines are counted from 1.
pub record IsBody (labels : List ℕ) : Type 0 where
  pub distinct : (i j l : ℕ) → nth labels i ≡ some l → nth labels j ≡ some l → i ≡ j
  pub positive : (i : ℕ) → ¬ nth labels i ≡ some 0

position_sound :
    (l : ℕ) (labels : List ℕ) (i : ℕ) → position l labels ≡ some i → nth labels i ≡ some l
unfolding position nth
position_sound l [] i e = absurd (ground (arith, e))
position_sound l (x ∷ xs) zero e = elim (Option-cases (position l xs)) [
  | inl n ↦ ground (arith, e, n)
  | inr (j, h) ↦ ground (arith, e, h)
]
position_sound l (x ∷ xs) (suc i) e = elim (Option-cases (position l xs)) [
  | inl n ↦ absurd (ground (arith, e, n))
  | inr (j, h) ↦ ground (arith, e, h, position_sound l xs j h)
]

position_found :
    (l : ℕ) (labels : List ℕ) (i : ℕ) → nth labels i ≡ some l → ¬ position l labels ≡ none
unfolding position nth
position_found l [] i e n = absurd (ground (arith, e))
position_found l (x ∷ xs) zero e n = absurd (ground (arith, e, n))
position_found l (x ∷ xs) (suc i) e n = position_found l xs i e (ground (arith, n))

position_lem :
    (l : ℕ) (labels : List ℕ) (i : ℕ)
    → IsBody labels
    → nth labels i ≡ some l
    → position l labels ≡ some i
position_lem l labels i b e = elim (Option-cases (position l labels)) [
  | inl n ↦ absurd (position_found l labels i e n)
  | inr (j, h) ↦ h ∙ ap some (b.distinct j i l (position_sound l labels j h) e)
]

nth-inside : (labels : List ℕ) (i : ℕ) → i < length labels → (l : ℕ) × (nth labels i ≡ some l)
unfolding nth
nth-inside [] i lt = absurd (omega arith)
nth-inside (x ∷ xs) zero lt = (x, refl)
nth-inside (x ∷ xs) (suc i) lt = nth-inside xs i (omega arith)

nth-outside : (labels : List ℕ) (i : ℕ) → length labels ≡ i → nth labels i ≡ none
unfolding nth
nth-outside [] i e = refl
nth-outside (x ∷ xs) zero e = absurd (omega (arith, e))
nth-outside (x ∷ xs) (suc i) e = nth-outside xs i (omega (arith, e))

-- The segments from `s` on.
unfoldable pub counted_from : ℕ → ℕ → List ℕ
counted_from s zero = []
counted_from s (suc k) = s ∷ counted_from (suc s) k

-- The case of the `await` number `i` is the start of the segment after it.
entry_lem :
    (labels : List ℕ) (i l : ℕ)
    → IsBody labels
    → nth labels i ≡ some l
    → entry labels (at l) ≡ some (suc i)
unfolding entry
entry_lem labels i zero b e = absurd (b.positive i e)
entry_lem labels i (suc l) b e = ap next_position (position_lem (suc l) labels i b e)

-- A segment leaves the number of its `await`, or the end.
abbrev value_of : Option ℕ → CoroutineValue
value_of none = complete
value_of (some l) = at l

enter_lem :
    (labels : List ℕ) (v : CoroutineValue) (s : ℕ)
    → enter labels v (some s) ≡ value_of (nth labels s)
unfolding segment
enter_lem labels v s = elim (Option-cases (nth labels s)) [
  | inl n ↦ ground (arith, n)
  | inr (l, h) ↦ ground (arith, h)
]

reenter_lem :
    (labels : List ℕ) (l s : ℕ) (v : CoroutineValue)
    → entry labels (at l) ≡ some s
    → value_of (nth labels s) ≡ v
    → reenter labels (at l) ≡ (some s, v)
unfolding reenter
reenter_lem labels l s v e e' = rw (e, enter_lem labels (at l) s, e') refl

run-once :
    (k : ℕ) (labels : List ℕ) (v v' w : CoroutineValue) (s : ℕ) (segments : List ℕ)
    → reenter labels v ≡ (some s, v')
    → run k labels v' ≡ (segments, w)
    → run (suc k) labels v ≡ (s ∷ segments, w)
unfolding run
run-once k labels v v' w s segments e e' = rw (e, e') refl

later-run :
    (k i l : ℕ) (labels : List ℕ)
    → IsBody labels
    → nth labels i ≡ some l
    → length labels ≡ suc i + k
    → run (suc k) labels (at l) ≡ (counted_from (suc i) (suc k), complete)
unfolding counted_from run
later-run zero i l labels b e le =
    run-once 0 labels (at l) complete complete (suc i) []
      (reenter_lem labels l (suc i) complete (entry_lem labels i l b e)
        (ap value_of (nth-outside labels (suc i) (omega (arith, le)))))
      refl
later-run (suc k) i l labels b e le =
    let (m, h) = nth-inside labels (suc i) (omega (arith, le)) in
    run-once (suc k) labels (at l) (at m) complete (suc i) (counted_from (suc (suc i)) (suc k))
      (reenter_lem labels l (suc i) (at m) (entry_lem labels i l b e) (ap value_of h))
      (later-run k (suc i) m labels b h (omega (arith, le)))

-- A body with distinct `await`s is executed from its start to its end: as many resumptions as it has
-- segments execute each of them once, in order, and leave the coroutine complete.
pub run-counted_from :
    (labels : List ℕ)
    → IsBody labels
    → run (suc (length labels)) labels (at 0) ≡ (counted_from 0 (suc (length labels)), complete)
unfolding run reenter entry segment nth counted_from
run-counted_from [] b = refl
run-counted_from (l ∷ labels) b =
    run-once (suc (length labels)) (l ∷ labels) (at 0) (at l) complete 0
      (counted_from 1 (suc (length labels))) refl
      (later-run (length labels) 0 l (l ∷ labels) b refl (omega arith))

-- A coroutine that is complete stays so, and a resumption of it executes nothing.
pub run-complete : (k : ℕ) (labels : List ℕ) → run k labels complete ≡ ([], complete)
unfolding run reenter
run-complete zero labels = refl
run-complete (suc k) labels = ground (arith, run-complete k labels)
