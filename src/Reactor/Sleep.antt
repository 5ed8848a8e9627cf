-- ===== src/Reactor/Sleep.antt =====
-- `_Wait_duration`, `_Get_ready_timers` and `_Erase` of a set of timer queues.
use executors.Base.{
  ℕ, ◌<◌, ◌≤◌, ◌≡◌, refl, ◌≢◌, sym, ◌∙◌, subst, Option, none, some, List, [], ◌∷◌, ◌++◌, arith,
  update, Ensures, inl, inr, ◌⊎◌, NotIn, append_assoc,
}
use executors.Base.Int.{ℤ}
use executors.TimerQueue.{WaitOp, Entry, TimerQueue}
use executors.TimerQueue.Calls.{wait_duration, get_ready_timers}
use executors.TimerQueue.Heap.{IsOrdered, IsIndexed, Contains}
use executors.Base.Chain.{Distinct}
use executors.TimerQueue.Expiry.{Expired, get_ready_timers_lem}
use executors.TimerQueue.Wait.{IsAtMost, wait_duration_lem}
use executors.Reactor.Queues.{least_duration, get_ready}

-- The queue is in the set.
abbrev pub Mem : ℕ → List ℕ → Type 0
Mem q [] = ⊥
Mem q (p ∷ qs) = (p ≡ q) ⊎ Mem q qs

trans_IsAtMost : (a b c : ℤ) → IsAtMost a b → IsAtMost b c → IsAtMost a c
trans_IsAtMost a b c h k = ground arith

-- A time to sleep that is within the maximum, and over before any timer of the set expires.
pub record IsSleep (to_duration : ℕ → ℕ → ℤ) (queue_at : ℕ → TimerQueue) (d_max : ℤ) (qs : List ℕ)
    (d : ℤ) : Type 0 where
  pub at_most : IsAtMost d d_max
  pub in_time :
      (q : ℕ) (e : Entry) → Mem q qs → Contains (queue_at q) e → IsAtMost d (to_duration q e.expiry)

-- `_Wait_duration` of a set whose queues are in order is at most the maximum, and at most the duration
-- until any entry of any queue of the set expires, if the traits keep the order of time points.
pub least_duration_lem :
    (to_duration : ℕ → ℕ → ℤ) (queue_at : ℕ → TimerQueue) (d_max : ℤ) (qs : List ℕ)
    → ((q a b : ℕ) → a ≤ b → IsAtMost (to_duration q a) (to_duration q b))
    → ((q : ℕ) → IsOrdered (queue_at q))
    → IsSleep to_duration queue_at d_max qs (least_duration to_duration queue_at d_max qs)
unfolding least_duration
least_duration_lem to_duration queue_at d_max [] mono o = record {
  at_most = ground arith;
  in_time = λ q e m. absurd m;
}
least_duration_lem to_duration queue_at d_max (q ∷ qs) mono o =
    let d : ℤ = wait_duration (to_duration q) d_max (queue_at q) in
    let w = wait_duration_lem (to_duration q) d_max (queue_at q) (mono q) (o q) in
    let rest = least_duration_lem to_duration queue_at d qs mono o in
    record {
      at_most = trans_IsAtMost _ d d_max rest.at_most w.at_most;
      in_time = λ p e m c. elim m [
        | inl same ↦ trans_IsAtMost _ d (to_duration p e.expiry) rest.at_most (
            subst (λ j. IsAtMost d (to_duration j e.expiry)) same
              (w.in_time e (subst (λ j. Contains (queue_at j) e) (sym same) c)))
        | inr there ↦ rest.in_time p e there c
      ];
    }

-- The list `xs` stands in `ys`.
abbrev pub IsPart : List WaitOp → List WaitOp → Type 0
IsPart xs ys = (before after : List WaitOp) × (ys ≡ before ++ (xs ++ after))

IsPart-append : (front xs : List WaitOp) {ys : List WaitOp} → IsPart xs ys → IsPart xs (front ++ ys)
IsPart-append front xs (before, after, h) =
    (front ++ before, after, cc (h, append_assoc front before (xs ++ after)))

-- The queue and its clock, before and after, with operations that are among those given out.
abbrev pub IsExpiredIn : ℕ → TimerQueue → TimerQueue → List WaitOp → Type 0
IsExpiredIn now q r all = (ops : List WaitOp) × Expired now q (r, ops) × IsPart ops all

-- What is left of the queues of a set, with the operations given out.
pub record AreExpired (now : ℕ → ℕ) (queue_at : ℕ → TimerQueue) (qs : List ℕ)
    (r : (ℕ → TimerQueue) × List WaitOp) : Type 0 where
  pub expired : (q : ℕ) → Mem q qs → IsExpiredIn (now q) (queue_at q) (r.0 q) r.1
  pub others : (q : ℕ) → NotIn q qs → r.0 q ≡ queue_at q

Mem-NotIn : (p q : ℕ) (qs : List ℕ) → Mem p qs → NotIn q qs → q ≢ p
Mem-NotIn p q [] m n = absurd m
Mem-NotIn p q (x ∷ qs) (inl e) n = λ h. n.0 (h ∙ sym e)
Mem-NotIn p q (x ∷ qs) (inr m) n = Mem-NotIn p q qs m n.1

AreExpired-cons :
    (now : ℕ → ℕ) (queue_at : ℕ → TimerQueue) (q : ℕ) (qs : List ℕ) (t : TimerQueue)
    (ops : List WaitOp) (r : (ℕ → TimerQueue) × List WaitOp)
    → NotIn q qs
    → Expired (now q) (queue_at q) (t, ops)
    → AreExpired now (update queue_at q t) qs r
    → AreExpired now queue_at (q ∷ qs) (r.0, ops ++ r.1)
AreExpired-cons now queue_at q qs t ops r n x a = record {
  expired = λ p m. elim m [
    | inl same ↦
        let here : t ≡ r.0 q = sym (a.others q n ∙ ground arith) in
        subst (λ j. IsExpiredIn (now j) (queue_at j) (r.0 j) (ops ++ r.1)) same
          (ops, subst (λ u. Expired (now q) (queue_at q) (u, ops)) here x, ([], r.1, refl))
    | inr there ↦
        let apart : q ≢ p = Mem-NotIn p q qs there n in
        let same : update queue_at q t p ≡ queue_at p = ground arith in
        let (mine, x', part) = a.expired p there in
        (mine, subst (λ u. Expired (now p) u (r.0 p, mine)) same x', IsPart-append ops mine part)
  ];
  others = λ p m. a.others p m.1 ∙ ground arith;
}

-- `_Get_ready_timers` of a set of distinct queues, each with fuel for its entries: every queue loses the
-- timers that are due by its own clock, whose operations are given out, and keeps the others; queues
-- outside the set stay as they are.
pub get_ready_lem :
    (fuel now : ℕ → ℕ) (queue_at : ℕ → TimerQueue) (qs : List ℕ)
    → Distinct qs
    → ((q : ℕ) → Mem q qs → (queue_at q).size < fuel q)
    → ((q : ℕ) → Mem q qs → IsOrdered (queue_at q) × IsIndexed (queue_at q))
    → Ensures (AreExpired now queue_at qs) (get_ready fuel now queue_at qs)
unfolding get_ready
get_ready_lem fuel now queue_at [] d f v = record {
  expired = λ q m. absurd m;
  others = λ q n. refl;
}
get_ready_lem fuel now queue_at (q ∷ qs) d f v =
    go (get_ready_timers (fuel q) (now q) (queue_at q))
      (get_ready_timers_lem (fuel q) (now q) (queue_at q) (f q (inl refl)) (v q (inl refl)).0
        (v q (inl refl)).1)
      (λ t g w. get_ready_lem fuel now (update queue_at q t) qs d.1 g w)
  where
    same : (t : TimerQueue) (p : ℕ) → Mem p qs → queue_at p ≡ update queue_at q t p
    same t p m = let apart : q ≢ p = Mem-NotIn p q qs m d.0 in ground arith

    rest :
        TimerQueue
        → List WaitOp
        → Option ((ℕ → TimerQueue) × List WaitOp)
        → Option ((ℕ → TimerQueue) × List WaitOp)
    rest t ops o = elim o [ none ↦ none | some (left, more) ↦ some (left, ops ++ more) ]

    join :
        (t : TimerQueue) (ops : List WaitOp) (o : Option ((ℕ → TimerQueue) × List WaitOp))
        → Expired (now q) (queue_at q) (t, ops)
        → Ensures (AreExpired now (update queue_at q t) qs) o
        → Ensures (AreExpired now queue_at (q ∷ qs)) (rest t ops o)
    join t ops none x a = a
    join t ops (some r) x a = AreExpired-cons now queue_at q qs t ops r d.0 x a

    go :
        (o : Option (TimerQueue × List WaitOp))
        → Ensures (Expired (now q) (queue_at q)) o
        → ((t : TimerQueue)
            → ((p : ℕ) → Mem p qs → (update queue_at q t p).size < fuel p)
            → ((p : ℕ)
                → Mem p qs
                → IsOrdered (update queue_at q t p) × IsIndexed (update queue_at q t p))
            → Ensures
                (AreExpired now (update queue_at q t) qs)
                (get_ready fuel now (update queue_at q t) qs))
        → Ensures (AreExpired now queue_at (q ∷ qs)) (elim o [
          | none ↦ none
          | some (r, ops) ↦ elim (get_ready fuel now (update queue_at q r) qs) [
            | none ↦ none
            | some (left, more) ↦ some (left, ops ++ more)
          ]
        ])
    go none x ih = x
    go (some (t, ops)) x ih = join t ops (get_ready fuel now (update queue_at q t) qs) x (
        ih t (λ p m. subst (λ u. u.size < fuel p) (same t p m) (f p (inr m)))
          (λ p m. subst (λ u. IsOrdered u × IsIndexed u) (same t p m) (v p (inr m))))
