-- ===== src/Await/Coroutine.antt =====
-- The classes `__coroutine` and `__coroutine_ref`, and the macros `reenter` and `await`. A body is the list
-- of the numbers of its `await`s, the lines in which they stand; they part it into segments. A resumption
-- executes one segment: from the case of the last `await`, up to the expression of the next one, after
-- which it leaves the body.
use executors.Base.{
  ℕ, zero, suc, List, [], ◌∷◌, Bool, true, false, Option, none, some, ◌==◌, if◌then◌else◌,
}

-- `_M_value`, of which -1 is `complete`.
pub data CoroutineValue : Type 0 where
  at : ℕ → CoroutineValue
  complete : CoroutineValue

pub record CoroutineRef : Type 0 where
  pub value : CoroutineValue
  pub is_modified : Bool

abbrev pub new_ref : CoroutineValue → CoroutineRef
new_ref v = record { value = v; is_modified = false }

abbrev pub assign : CoroutineValue → CoroutineRef → CoroutineRef
assign v ref = record { value = v; is_modified = true }

-- The destructor, and the value that it leaves.
abbrev pub destroy : CoroutineRef → CoroutineValue
destroy ref = if ref.is_modified then ref.value else complete

abbrev pub next_position : Option ℕ → Option ℕ
next_position none = none
next_position (some i) = some (suc i)

unfoldable pub position : ℕ → List ℕ → Option ℕ
position l [] = none
position l (x ∷ xs) = if l == x then some 0 else next_position (position l xs)

unfoldable pub nth : List ℕ → ℕ → Option ℕ
nth [] i = none
nth (x ∷ xs) zero = some x
nth (x ∷ xs) (suc i) = nth xs i

-- The `switch`: the segment at which the body is entered.
unfoldable pub entry : List ℕ → CoroutineValue → Option ℕ
unfolding position
entry labels complete = none
entry labels (at zero) = some 0
entry labels (at (suc l)) = next_position (position (suc l) labels)

-- The segment `s`: at its end it assigns the number of its `await`, if it has one.
unfoldable pub segment : List ℕ → ℕ → CoroutineRef → CoroutineRef
unfolding nth
segment labels s ref = elim (nth labels s) [ none ↦ ref | some l ↦ assign (at l) ref ]

-- A resumption: the segment that it executes, if any, and the value that it leaves.
abbrev pub enter : List ℕ → CoroutineValue → Option ℕ → CoroutineValue
enter labels v none = destroy (new_ref v)
enter labels v (some s) = destroy (segment labels s (new_ref v))

unfoldable pub reenter : List ℕ → CoroutineValue → Option ℕ × CoroutineValue
unfolding entry segment
reenter labels complete = (none, destroy (assign complete (new_ref complete)))
reenter labels (at l) = (entry labels (at l), enter labels (at l) (entry labels (at l)))

abbrev pub executed : Option ℕ → List ℕ → List ℕ
executed none segments = segments
executed (some s) segments = s ∷ segments

-- The segments that `k` resumptions execute, in order.
unfoldable pub run : ℕ → List ℕ → CoroutineValue → List ℕ × CoroutineValue
unfolding reenter
run zero labels v = ([], v)
run (suc k) labels v =
    let once = reenter labels v in
    let others = run k labels once.1 in (executed once.0 others.0, others.1)
