-- ===== src/OpQueue.antt =====
-- include/experimental/bits/operation.h: the intrusive queue of operations, `__op_queue`.
-- An operation is its address, and 0 is the null pointer. The `_M_next` fields of all operations
-- are one store, which the queues share. `_Destroy` is a virtual call into the operation: the
-- destructor of a queue gives the operations that it destroys, in order.
use executors.Base.{
  ℕ, zero, suc, ◌≡◌, Option, none, some, List, [], ◌∷◌, ◌==◌, if◌then◌else◌, update,
}
pub mod Refine
pub mod Calls

abbrev pub Links : Type 0
Links = ℕ → ℕ

pub record OpQueue : Type 0 where
  pub front : ℕ
  pub back : ℕ

abbrev pub null : ℕ
null = 0

pub empty_queue : OpQueue
empty_queue = record { front = null; back = null }

-- `_Front`, with the null pointer for an empty queue.
pub front_of : OpQueue → ℕ
front_of q = q.front

pub pop : Links → OpQueue → OpQueue × Links
pop next q =
    let rest = next q.front in
    if q.front == null then (q, next) else (
      record { front = rest; back = if rest == null then null else q.back },
      update next q.front null,
    )

pub push : Links → OpQueue → ℕ → OpQueue × Links
push next q op =
    let cleared = update next op null in
    if q.back == null
    then (record { front = op; back = op }, cleared)
    else (record { front = q.front; back = op }, update cleared q.back op)

-- `_Push` of a queue: the operations of `r` move to the end of `q`.
pub push_queue : Links → OpQueue → OpQueue → OpQueue × OpQueue × Links
push_queue next q r = if r.front == null then (q, r, next) else (
  record { front = if q.back == null then r.front else q.front; back = r.back },
  record { front = null; back = null },
  if q.back == null then next else update next q.back r.front,
)

abbrev destroyed : ℕ → Option (List ℕ) → Option (List ℕ)
destroyed op none = none
destroyed op (some ops) = some (op ∷ ops)

-- The loop of the destructor; `none` means that the fuel ran out.
pub destroy_all : ℕ → Links → OpQueue → Option (List ℕ)
destroy_all zero next q = none
destroy_all (suc fuel) next q =
    let popped = pop next q in
    let rest = destroy_all fuel popped.1 popped.0 in
    if q.front == null then some [] else destroyed q.front rest
