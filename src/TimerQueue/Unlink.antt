-- ===== src/TimerQueue/Unlink.antt =====
-- The pointers of the list of active timers, when a timer is taken out of it.
use executors.Base.{ℕ, ◌≡◌, refl, sym, subst, List, ◌∷◌, ◌++◌, arith, ◌==◌, if◌then◌else◌}
use executors.TimerQueue.{TimerQueue, unlink}
use executors.TimerQueue.Active.{nodes, Chain, IsActiveList}
use executors.Base.Chain.{IsUnlinked, unlinked-Linked, NotIn-nil, Distinct-remove}

unlink-IsUnlinked :
    (t : ℕ) (q : TimerQueue)
    → IsUnlinked
        (nodes q.data_of)
        (nodes (unlink t q).data_of)
        t
        (q.data_of t).prev
        (q.data_of t).next
unfolding unlink
unlink-IsUnlinked t q = record {
  elsewhere = λ s a b c. (ground arith, ground arith);
  at_prev = λ a b c. (ground arith, ground arith);
  at_next = λ a b c. (ground arith, ground arith);
}

timers-unlink :
    (t : ℕ) (q : TimerQueue)
    → (unlink t q).timers ≡ (if q.timers == t then (q.data_of t).next else q.timers)
unfolding unlink
timers-unlink t q = refl

pub unlink-IsActiveList :
    (t : ℕ) (xs ys : List ℕ) (q : TimerQueue)
    → IsActiveList (xs ++ t ∷ ys) q
    → IsActiveList (xs ++ ys) (unlink t q)
unlink-IsActiveList t xs ys q a = record {
  linked =
      subst (λ f. Chain (unlink t q).data_of 0 f (xs ++ ys)) (sym (timers-unlink t q))
        (unlinked-Linked (nodes q.data_of) (nodes (unlink t q).data_of) t (q.data_of t).prev
          (q.data_of t).next 0 q.timers xs ys (unlink-IsUnlinked t q) refl refl
          (NotIn-nil (nodes q.data_of) 0 q.timers (xs ++ t ∷ ys) a.linked) a.distinct a.linked);
  distinct = Distinct-remove xs t ys a.distinct;
}
