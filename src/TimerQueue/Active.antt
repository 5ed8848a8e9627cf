-- ===== src/TimerQueue/Active.antt =====
-- The list of active timers, and `_Get_all_timers`.
use executors.Base.{
  ℕ, zero, suc, ◌<◌, ◌≡◌, refl, sym, ◌∙◌, ap, subst, Option, none, some, List, [], ◌∷◌, ◌++◌, arith,
  length, NotIn, update, Ensures,
}
use executors.TimerQueue.{WaitOp, TimerData, TimerQueue}
use executors.TimerQueue.Calls.{get_all_timers}
use executors.Base.Chain.{Node, Linked, Distinct}

abbrev pub nodes : (ℕ → TimerData) → ℕ → Node
nodes data_of t = record { prev = (data_of t).prev; next = (data_of t).next }

-- The list from `first` on, by the pointers of the timers.
abbrev pub Chain : (ℕ → TimerData) → ℕ → ℕ → List ℕ → Type 0
Chain data_of = Linked (nodes data_of)

-- The active timers of a queue, in the order of its list.
pub record IsActiveList (ts : List ℕ) (q : TimerQueue) : Type 0 where
  pub linked : Chain q.data_of 0 q.timers ts
  pub distinct : Distinct ts

-- A change of a timer that is not in the list does not matter to it.
pub update-Chain :
    (data_of : ℕ → TimerData) (x : ℕ) (d : TimerData) (before first : ℕ) (ts : List ℕ)
    → NotIn x ts
    → Chain data_of before first ts
    → Chain (update data_of x d) before first ts
update-Chain data_of x d before first [] n c = c
update-Chain data_of x d before first (t ∷ ts) n c =
    ground (arith, update-Chain data_of x d t (data_of t).next ts n.1 c.3)

-- The operations of the timers, in the order of the list.
abbrev pub all_ops : (ℕ → TimerData) → List ℕ → List WaitOp
all_ops data_of [] = []
all_ops data_of (t ∷ ts) = (data_of t).ops ++ all_ops data_of ts

update-all_ops :
    (data_of : ℕ → TimerData) (x : ℕ) (d : TimerData) (ts : List ℕ)
    → NotIn x ts
    → all_ops (update data_of x d) ts ≡ all_ops data_of ts
update-all_ops data_of x d [] n = refl
update-all_ops data_of x d (t ∷ ts) n = ground (arith, update-all_ops data_of x d ts n.1)

-- What `_Get_all_timers` leaves and gives.
pub record Emptied (ts : List ℕ) (q : TimerQueue) (r : TimerQueue × List WaitOp) : Type 0 where
  pub no_timers : r.0.timers ≡ 0
  pub no_entries : r.0.size ≡ 0
  pub given : r.1 ≡ all_ops q.data_of ts

get_all_of :
    (before fuel : ℕ) (ts : List ℕ) (q : TimerQueue)
    → length ts < fuel
    → Chain q.data_of before q.timers ts
    → Distinct ts
    → Ensures (Emptied ts q) (get_all_timers fuel q)
unfolding get_all_timers
get_all_of before zero ts q f c d = absurd (omega arith)
get_all_of before (suc fuel) [] q f c d =
    let e : get_all_timers (suc fuel) q ≡ some (record q { size = 0 }, []) = ground arith in
    subst (Ensures (Emptied [] q)) (sym e)
      (record { no_timers = c; no_entries = refl; given = refl })
get_all_of before (suc fuel) (t ∷ ts) q f c d =
    let r : TimerQueue = record q { timers = (q.data_of t).next; data_of = cleared } in
    let chain = update-Chain q.data_of t none_left t (q.data_of t).next ts d.0 c.3 in
    let e : get_all_timers (suc fuel) q ≡ rest (get_all_timers fuel r) = ground (arith, c.0, c.1) in
    subst (Ensures (Emptied (t ∷ ts) q)) (sym e) (
      go r (get_all_timers fuel r) (update-all_ops q.data_of t none_left ts d.0)
        (get_all_of t fuel ts r (omega arith) chain d.1))
  where
    none_left : TimerData
    none_left = record (q.data_of t) { ops = []; next = 0; prev = 0 }

    cleared : ℕ → TimerData
    cleared = update q.data_of t none_left

    rest : Option (TimerQueue × List WaitOp) → Option (TimerQueue × List WaitOp)
    rest o = elim o [ none ↦ none | some (s, ops) ↦ some (s, (q.data_of t).ops ++ ops) ]

    go :
        (r : TimerQueue) (o : Option (TimerQueue × List WaitOp))
        → all_ops r.data_of ts ≡ all_ops q.data_of ts
        → Ensures (Emptied ts r) o
        → Ensures (Emptied (t ∷ ts) q) (rest o)
    go r none same h = h
    go r (some p) same h = record {
      no_timers = h.no_timers;
      no_entries = h.no_entries;
      given = ap (λ ops. (q.data_of t).ops ++ ops) (h.given ∙ same);
    }

-- `_Get_all_timers` terminates, with more fuel than there are active timers; it leaves neither timers
-- nor entries, and gives out the operations of all active timers, in the order of their list.
pub get_all_timers_lem :
    (fuel : ℕ) (ts : List ℕ) (q : TimerQueue)
    → length ts < fuel
    → IsActiveList ts q
    → Ensures (Emptied ts q) (get_all_timers fuel q)
get_all_timers_lem fuel ts q f a = get_all_of 0 fuel ts q f a.linked a.distinct
