-- ===== src/Strand.antt =====
-- include/experimental/bits/strand.h: the state that the copies of a strand share
-- (`__strand_impl`), the sections under its lock, and the activities that use it, interleaved.
-- An activity is one call of `dispatch`, `post` or `defer`, or one call of the `__strand_invoker`; an
-- operation is a number. The inner executor calls each invoker that it is given, once and on any
-- thread, at a moment that is left open.
pub mod Token
pub mod Invariant
pub mod Safety
pub mod Calls
use executors.Base.{
  ℕ, suc, ◌<◌, ◌≡◌, List, [], ◌∷◌, ◌++◌, Bool, true, false, not, if◌then◌else◌, is_nil, tail,
  update,
}

pub record Strand : Type 0 where
  pub ready : Bool
  pub waiting_queue : List ℕ
  pub ready_queue : List ℕ

unfoldable pub fresh : Strand
fresh = record { ready = false; waiting_queue = []; ready_queue = [] }

-- The section of `dispatch`, `post` and `defer` under the lock, and whether the caller goes on to
-- schedule the invoker.
unfoldable pub accept : ℕ → Strand → Strand × Bool
accept op s =
    if s.ready
    then (record s { waiting_queue = s.waiting_queue ++ op ∷ [] }, false)
    else (record s { ready = true }, true)

unfoldable pub push_ready : ℕ → Strand → Strand
push_ready op s = record s { ready_queue = s.ready_queue ++ op ∷ [] }

unfoldable pub pop_ready : Strand → Strand
pop_ready s = record s { ready_queue = tail s.ready_queue }

-- The section of `_On_exit` under the lock, and whether the invoker is deferred once more.
unfoldable pub exit : Strand → Strand × Bool
exit s =
    let queue = s.ready_queue ++ s.waiting_queue in
    let more = not (is_nil queue) in
    (record { ready = more; waiting_queue = []; ready_queue = queue }, more)

-- Where an activity stands.
pub data Pc : Type 0 where
  outside : Pc  -- it has not begun, or it is over
  owning : ℕ → Pc  -- it has set `_M_ready`, and has its operation to push
  handing : Pc  -- it has pushed the operation, and has the invoker to schedule
  running : Pc  -- the loop of the invoker
  executing : ℕ → Pc  -- in `_Complete` of an operation
  exiting : Pc  -- in `_On_exit`, before the lock
  deferring : Pc  -- there, before the invoker is deferred

-- The strand, the invokers that the executor has yet to call, and two histories: the operations in
-- the order in which the lock was taken for them, and those that were started, in order.
pub record System : Type 0 where
  pub strand : Strand
  pub pending : ℕ
  pub accepted : List ℕ
  pub started : List ℕ
  pub pc : ℕ → Pc

pub data Step (n : ℕ) (y : System) : System → Type 0 where
  accepts :
      (i op : ℕ)
      → i < n
      → y.pc i ≡ outside
      → Step n y (record y {
        strand = (accept op y.strand).0;
        accepted = y.accepted ++ op ∷ [];
        pc = update y.pc i (if (accept op y.strand).1 then owning op else outside);
      })
  pushes :
      (i : ℕ) {op : ℕ}
      → i < n
      → y.pc i ≡ owning op
      → Step n y (record y { strand = push_ready op y.strand; pc = update y.pc i handing })
  schedules :
      (i : ℕ)
      → i < n
      → y.pc i ≡ handing
      → Step n y (record y { pending = suc y.pending; pc = update y.pc i outside })
  invokes :
      (i : ℕ) {fewer : ℕ}
      → i < n
      → y.pc i ≡ outside
      → y.pending ≡ suc fewer
      → Step n y (record y { pending = fewer; pc = update y.pc i running })
  pops :
      (i : ℕ) {op : ℕ} {rest : List ℕ}
      → i < n
      → y.pc i ≡ running
      → y.strand.ready_queue ≡ op ∷ rest
      → Step n y (record y {
        strand = pop_ready y.strand;
        started = y.started ++ op ∷ [];
        pc = update y.pc i (executing op);
      })
  completes :
      (i : ℕ) {op : ℕ}
      → i < n
      → y.pc i ≡ executing op
      → Step n y (record y { pc = update y.pc i running })
  -- The handler throws: the destructor of `_On_exit` runs all the same.
  throws :
      (i : ℕ) {op : ℕ}
      → i < n
      → y.pc i ≡ executing op
      → Step n y (record y { pc = update y.pc i exiting })
  drains :
      (i : ℕ)
      → i < n
      → y.pc i ≡ running
      → y.strand.ready_queue ≡ []
      → Step n y (record y { pc = update y.pc i exiting })
  exits :
      (i : ℕ)
      → i < n
      → y.pc i ≡ exiting
      → Step n y (record y {
        strand = (exit y.strand).0;
        pc = update y.pc i (if (exit y.strand).1 then deferring else outside);
      })
  defers :
      (i : ℕ)
      → i < n
      → y.pc i ≡ deferring
      → Step n y (record y { pending = suc y.pending; pc = update y.pc i outside })

abbrev pub start : System
start = record { strand = fresh; pending = 0; accepted = []; started = []; pc = λ _. outside }

-- What `n` activities can bring about of a new strand.
pub data Reach (n : ℕ) : System → Type 0 where
  here : Reach n start
  next : {y z : System} → Reach n y → Step n y z → Reach n z
