-- ===== src/OpQueue/Refine.antt =====
-- `__op_queue` as a list of distinct operations, for each operation of operation.h.
use mathlib.Core.Path.{subst₂}
use executors.Base.{
  ℕ, zero, suc, ◌<◌, ◌≡◌, refl, sym, ◌∙◌, subst, ◌≢◌, some, List, [], ◌∷◌, ◌++◌, arith, ◌==◌,
  if◌then◌else◌, update, length, tail, NotIn, append-nil,
}
use executors.OpQueue.{Links, OpQueue, null, pop, push, push_queue, destroy_all}

abbrev pub first : List ℕ → ℕ
first [] = null
first (x ∷ xs) = x

abbrev pub last_of : ℕ → List ℕ → ℕ
last_of x [] = x
last_of x (y ∷ ys) = last_of y ys

abbrev pub last : List ℕ → ℕ
last [] = null
last (x ∷ xs) = last_of x xs

-- The `next` pointers lead through the distinct operations of the list to null.
abbrev pub Chain : Links → List ℕ → Type 0
Chain next [] = Unit
Chain next (x ∷ xs) = (0 < x) × (next x ≡ first xs) × NotIn x xs × Chain next xs

-- The queue holds these operations, in this order.
pub record Holds (next : Links) (q : OpQueue) (xs : List ℕ) : Type 0 where
  pub front_first : q.front ≡ first xs
  pub back_last : q.back ≡ last xs
  pub chain : Chain next xs

abbrev pub Apart : List ℕ → List ℕ → Type 0
Apart [] ys = Unit
Apart (x ∷ xs) ys = NotIn x ys × Apart xs ys

Chain-frame :
    (next : Links) (a b : ℕ) (xs : List ℕ) → NotIn a xs → Chain next xs → Chain (update next a b) xs
Chain-frame next a b [] out c = tt
Chain-frame next a b (x ∷ xs) out (pos, e, new, c) =
    (pos, ground arith, new, Chain-frame next a b xs out.1 c)

last-pos : (next : Links) (x : ℕ) (xs : List ℕ) → Chain next (x ∷ xs) → 0 < last_of x xs
last-pos next x [] c = c.0
last-pos next x (y ∷ ys) c = last-pos next y ys c.3

NotIn-last : (a x : ℕ) (xs : List ℕ) → NotIn a (x ∷ xs) → a ≢ last_of x xs
NotIn-last a x [] h = h.0
NotIn-last a x (y ∷ ys) h = NotIn-last a y ys h.1

NotIn-append : (a : ℕ) (xs ys : List ℕ) → NotIn a xs → NotIn a ys → NotIn a (xs ++ ys)
NotIn-append a [] ys hx hy = hy
NotIn-append a (x ∷ xs) ys hx hy = (hx.0, NotIn-append a xs ys hx.1 hy)

last-append : (x : ℕ) (xs : List ℕ) (y : ℕ) (ys : List ℕ) → last_of x (xs ++ y ∷ ys) ≡ last_of y ys
last-append x [] y ys = refl
last-append x (z ∷ zs) y ys = last-append z zs y ys

-- Linking the last operation to another chain joins the two.
Chain-join :
    (next : Links) (x : ℕ) (xs : List ℕ) (y : ℕ) (ys : List ℕ)
    → Chain next (x ∷ xs)
    → Chain next (y ∷ ys)
    → Apart (x ∷ xs) (y ∷ ys)
    → Chain (update next (last_of x xs) y) (x ∷ (xs ++ y ∷ ys))
Chain-join next x [] y ys c d apart =
    (c.0, ground arith, apart.0, Chain-frame next x y (y ∷ ys) apart.0 d)
Chain-join next x (z ∷ zs) y ys c d apart = (
  c.0,
  ground (arith, NotIn-last x z zs c.2),
  NotIn-append x (z ∷ zs) (y ∷ ys) c.2 apart.0,
  Chain-join next z zs y ys c.3 d apart.1,
)

Apart-single : (xs : List ℕ) (a : ℕ) → NotIn a xs → Apart xs (a ∷ [])
Apart-single [] a h = tt
Apart-single (x ∷ xs) a h = ((λ e. h.0 (sym e), tt), Apart-single xs a h.1)

Chain-front_pos : (next : Links) (x : ℕ) (xs : List ℕ) → Chain next (x ∷ xs) → x ≢ 0
Chain-front_pos next x xs c = omega (arith, c.0)

push_of_some :
    (next : Links) (q : OpQueue) (op : ℕ)
    → q.back ≢ 0
    → push next q op ≡ (record { front = q.front; back = op }, update (update next op 0) q.back op)
unfolding push
push_of_some next q op h = ground arith

-- `_Push` puts an operation that is not null and not in the queue at the end.
pub push-Holds :
    (next : Links) (q : OpQueue) (op : ℕ) (xs : List ℕ)
    → Holds next q xs
    → 0 < op
    → NotIn op xs
    → Holds (push next q op).1 (push next q op).0 (xs ++ op ∷ [])
unfolding push
push-Holds next q op [] h pos out = record {
  front_first = ground arith;
  back_last = ground arith;
  chain = ground arith;
}
push-Holds next q op (x ∷ xs) h pos out =
    let full : q.back ≢ 0 = omega (arith, h.back_last, last-pos next x xs h.chain) in
    rw (push_of_some next q op full) (record {
      front_first = h.front_first;
      back_last = sym (last-append x xs op []);
      chain =
          subst (λ b. Chain (update (update next op 0) b op) (x ∷ (xs ++ op ∷ [])))
            (sym h.back_last)
            (Chain-join (update next op 0) x xs op [] (Chain-frame next op 0 (x ∷ xs) out h.chain)
              (pos, ground arith, tt, tt) (Apart-single (x ∷ xs) op out));
    })

pop_of_some :
    (next : Links) (q : OpQueue)
    → q.front ≢ 0
    → pop next q ≡ (
      record { front = next q.front; back = if next q.front == 0 then 0 else q.back },
      update next q.front 0,
    )
unfolding pop
pop_of_some next q h = ground arith

unless_null : (y b : ℕ) → 0 < y → (if y == 0 then 0 else b) ≡ b
unless_null y b h = ground arith

-- `_Pop` takes the first operation off the queue, and does nothing to an empty one.
pub pop-Holds :
    (next : Links) (q : OpQueue) (xs : List ℕ)
    → Holds next q xs
    → Holds (pop next q).1 (pop next q).0 (tail xs)
unfolding pop
pop-Holds next q [] h = ground arith
pop-Holds next q (x ∷ []) h =
    rw (pop_of_some next q (omega (arith, h.front_first, h.chain.0)))
      (record { front_first = ground arith; back_last = ground arith; chain = tt })
pop-Holds next q (x ∷ y ∷ ys) h =
    rw (pop_of_some next q (omega (arith, h.front_first, h.chain.0)), h.front_first)
      (record {
        front_first = h.chain.1;
        back_last = rw h.chain.1 (unless_null y q.back h.chain.3.0 ∙ h.back_last);
        chain = Chain-frame next x 0 (y ∷ ys) h.chain.2 h.chain.3;
      })

module _ (next : Links) (q r : OpQueue) where
  joined_none : r.front ≡ 0 → push_queue next q r ≡ (q, r, next)
  unfolding push_queue
  joined_none h = ground arith

  joined_nil :
      r.front ≢ 0
      → q.back ≡ 0
      → push_queue next q r
        ≡ (record { front = r.front; back = r.back }, record { front = 0; back = 0 }, next)
  unfolding push_queue
  joined_nil h e = ground arith

  joined_some :
      r.front ≢ 0
      → q.back ≢ 0
      → push_queue next q r ≡ (
        record { front = q.front; back = r.back },
        record { front = 0; back = 0 },
        update next q.back r.front,
      )
  unfolding push_queue
  joined_some h e = ground arith

nothing : (next : Links) → Holds next (record { front = 0; back = 0 }) []
nothing next = record { front_first = refl; back_last = refl; chain = tt }

-- `_Push` of a queue moves all of its operations to the end, in order, and leaves it empty.
pub push_queue-Holds :
    (next : Links) (q r : OpQueue) (xs ys : List ℕ)
    → Holds next q xs
    → Holds next r ys
    → Apart xs ys
    → Holds (push_queue next q r).2 (push_queue next q r).0 (xs ++ ys)
      × Holds (push_queue next q r).2 (push_queue next q r).1 []
push_queue-Holds next q r xs [] hq hr apart =
    rw (joined_none next q r hr.front_first, append-nil) (hq, hr)
push_queue-Holds next q r [] (y ∷ ys) hq hr apart =
    rw (joined_nil next q r (omega (arith, hr.front_first, hr.chain.0)) hq.back_last) (
      record { front_first = hr.front_first; back_last = hr.back_last; chain = hr.chain },
      nothing next,
    )
push_queue-Holds next q r (x ∷ xs) (y ∷ ys) hq hr apart =
    let full : q.back ≢ 0 = omega (arith, hq.back_last, last-pos next x xs hq.chain) in
    rw (joined_some next q r (omega (arith, hr.front_first, hr.chain.0)) full) (
      record {
        front_first = hq.front_first;
        back_last = hr.back_last ∙ sym (last-append x xs y ys);
        chain =
            subst₂ (λ b f. Chain (update next b f) (x ∷ (xs ++ y ∷ ys))) (sym hq.back_last)
              (sym hr.front_first) (Chain-join next x xs y ys hq.chain hr.chain apart);
      },
      nothing _,
    )

-- The destructor destroys every operation once, in order; fuel above their number is enough.
pub destroy_all-Holds :
    (fuel : ℕ) (next : Links) (q : OpQueue) (xs : List ℕ)
    → Holds next q xs
    → length xs < fuel
    → destroy_all fuel next q ≡ some xs
unfolding destroy_all
destroy_all-Holds zero next q xs h lt = elim lt [ ]
destroy_all-Holds (suc fuel) next q [] h lt = ground arith
destroy_all-Holds (suc fuel) next q (x ∷ xs) h lt =
    ground
      (arith, destroy_all-Holds fuel (pop next q).1 (pop next q).0 xs (pop-Holds next q (x ∷ xs) h))
