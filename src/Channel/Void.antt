-- ===== src/Channel/Void.antt =====
-- channel_void.h: `channel<void>`, which counts values in place of storing them. `none` is an
-- operation read through the null pointer. `_M_buffered` is a `size_t`, whose arithmetic wraps.
pub mod Refine
use executors.Base.{
  ℕ, ◌+◌, ◌-◌, ◌%◌, ◌^◌, Option, none, some, List, [], ◌∷◌, ◌++◌, Bool, not, ◌==◌, if◌then◌else◌,
  is_nil,
}
use executors.Channel.Types.{
  ChannelState, buffer, waiter, block, closed, OpResult, success, canceled, broken, ErrorCode,
  no_error, operation_would_block, broken_pipe, is_closed, is_block, is_waiter, error_of,
}
use executors.Channel.Base.{idle_put_state}
use executors.Channel.Values.{Thrown, throw_if}

abbrev pub size_mod : ℕ
size_mod = 2 ^ 64

-- `channel<void>::_Op`, for puts and gets alike.
pub record Op : Type 0 where
  pub handler : ℕ
  pub result : OpResult

pub record Channel : Type 0 where
  pub get_state : ChannelState
  pub put_state : ChannelState
  pub waiters : List Op
  pub capacity : ℕ
  pub buffered : ℕ

-- A completion is a handler with an error code.
pub record Done {κ} (R : Type κ) : Type κ where
  pub chan : Channel
  pub posts : List (ℕ × ErrorCode)
  pub ret : R

abbrev pub done {κ} : {R : Type κ} → Channel → List (ℕ × ErrorCode) → R → Option (Done R)
done c posts r = some (record { chan = c; posts = posts; ret = r })

unfoldable pub construct : ℕ → Channel
unfolding idle_put_state
construct capacity = record {
  get_state = block;
  put_state = idle_put_state capacity;
  waiters = [];
  capacity = capacity;
  buffered = 0;
}

-- `_Complete`, and `_Cancel` and `_Close` of `__channel_op`
pub complete : Op → ℕ × ErrorCode
unfolding error_of
complete op = (op.handler, error_of op.result)

pub cancel_all : List Op → List (ℕ × ErrorCode)
unfolding complete
cancel_all [] = []
cancel_all (op ∷ ops) = complete (record op { result = canceled }) ∷ cancel_all ops

pub close_all : List Op → List (ℕ × ErrorCode)
unfolding complete
close_all [] = []
close_all (op ∷ ops) = complete (record op { result = broken }) ∷ close_all ops

-- `_Cancel`, `_Close` and `_Reset` of `__channel_base`
pub cancel : Channel → Done (Unit {0})
unfolding cancel_all
cancel c = record {
  chan = record c {
    waiters = [];
    get_state = if is_waiter c.get_state then block else c.get_state;
    put_state = if is_waiter c.put_state then block else c.put_state;
  };
  posts = cancel_all c.waiters;
  ret = tt;
}

close_in : ChannelState → Channel → Done (Unit {0})
unfolding close_all
close_in block c = record {
  chan = record c { put_state = closed; get_state = closed; waiters = [] };
  posts = close_all c.waiters;
  ret = tt;
}
close_in _ c = record { chan = record c { put_state = closed }; posts = []; ret = tt }

pub close : Channel → Done (Unit {0})
unfolding close_in
close c = close_in c.get_state c

reopened : Channel → Channel
unfolding idle_put_state
reopened c = record c {
  get_state = if is_closed c.get_state then block else c.get_state;
  put_state = if is_closed c.put_state then idle_put_state c.capacity else c.put_state;
}

pub reset : Channel → Done (Unit {0})
unfolding cancel reopened
reset c = let base = cancel c in record base { chan = record (reopened base.chan) { buffered = 0 } }

-- A value more in the buffer.
stored : Channel → Channel
stored c =
    let buffered = (c.buffered + 1) % size_mod in
    record c {
      buffered = buffered;
      get_state = buffer;
      put_state = if buffered == c.capacity then block else c.put_state;
    }

drained : Channel → ChannelState
drained c = if is_closed c.put_state then closed else block

-- The first of the waiting getters is served.
hand_over : List Op → Channel → Option (Channel × (ℕ × ErrorCode))
unfolding idle_put_state complete
hand_over [] c = none
hand_over (getter ∷ rest) c = some (
  record c {
    waiters = rest;
    put_state = if is_nil rest then idle_put_state c.capacity else c.put_state;
  },
  complete getter,
)

put_in : ChannelState → Channel → Option (Done ErrorCode)
unfolding stored hand_over
put_in block c = done c [] operation_would_block
put_in buffer c = done (stored c) [] no_error
put_in waiter c = elim (hand_over c.waiters c) [
  | none ↦ none
  | some (d, post) ↦ done d (post ∷ []) no_error
]
put_in closed c = done c [] broken_pipe

-- `put(ec)`
pub put : Channel → Option (Done ErrorCode)
unfolding put_in
put c = put_in c.put_state c

start_put_in : ChannelState → Op → Channel → Option (Done (Unit {0}))
unfolding stored hand_over complete
start_put_in block putter c =
    done
      (record c {
        waiters = c.waiters ++ putter ∷ [];
        get_state = if is_block c.get_state then waiter else c.get_state;
      })
      [] tt
start_put_in buffer putter c = done (stored c) (complete putter ∷ []) tt
start_put_in waiter putter c = elim (hand_over c.waiters c) [
  | none ↦ none
  | some (d, post) ↦ done d (post ∷ complete putter ∷ []) tt
]
start_put_in closed putter c = done c (complete (record putter { result = broken }) ∷ []) tt

-- `_Start_put`
pub start_put : ℕ → Channel → Option (Done (Unit {0}))
unfolding start_put_in
start_put handler c = start_put_in c.put_state (record { handler = handler; result = success }) c

-- A value of the buffer is taken, and the first of the waiting putters fills the place.
refill : List Op → Channel → Channel × List (ℕ × ErrorCode)
unfolding drained complete
refill [] c =
    let buffered = (c.buffered + size_mod - 1) % size_mod in
    (
      record c {
        buffered = buffered;
        get_state = if buffered == 0 then drained c else c.get_state;
        put_state = if is_closed c.put_state then closed else buffer;
      },
      [],
    )
refill (putter ∷ putters) c = (record c { waiters = putters }, complete putter ∷ [])

-- The first of the waiting putters is served.
take_over : List Op → Channel → Option (Channel × (ℕ × ErrorCode))
unfolding drained complete
take_over [] c = none
take_over (putter ∷ putters) c = some (
  record c { waiters = putters; get_state = if is_nil putters then drained c else c.get_state },
  complete putter,
)

get_in : ChannelState → Channel → Option (Done ErrorCode)
unfolding refill take_over
get_in block c = done c [] operation_would_block
get_in buffer c = let filled = refill c.waiters c in done filled.0 filled.1 no_error
get_in waiter c = elim (take_over c.waiters c) [
  | none ↦ none
  | some (d, post) ↦ done d (post ∷ []) no_error
]
get_in closed c = done c [] broken_pipe

-- `get(ec)`
pub get : Channel → Option (Done ErrorCode)
unfolding get_in
get c = get_in c.get_state c

start_get_in : ChannelState → Op → Channel → Option (Done (Unit {0}))
unfolding refill take_over complete
start_get_in block getter c =
    done
      (record c {
        waiters = c.waiters ++ getter ∷ [];
        put_state = if is_closed c.put_state then c.put_state else waiter;
      })
      [] tt
start_get_in buffer getter c =
    let filled = refill c.waiters c in done filled.0 (filled.1 ++ complete getter ∷ []) tt
start_get_in waiter getter c = elim (take_over c.waiters c) [
  | none ↦ none
  | some (d, post) ↦ done d (post ∷ complete getter ∷ []) tt
]
start_get_in closed getter c = done c (complete (record getter { result = broken }) ∷ []) tt

-- `_Start_get`
pub start_get : ℕ → Channel → Option (Done (Unit {0}))
unfolding start_get_in
start_get handler c = start_get_in c.get_state (record { handler = handler; result = success }) c

-- `put()` and `get()`, which throw what the calls above report.
pub put_throwing : Channel → Option (Done (Thrown (Unit {0})))
unfolding put throw_if
put_throwing c = elim (put c) [ none ↦ none | some d ↦ done d.chan d.posts (throw_if d.ret tt) ]

pub get_throwing : Channel → Option (Done (Thrown (Unit {0})))
unfolding get throw_if
get_throwing c = elim (get c) [ none ↦ none | some d ↦ done d.chan d.posts (throw_if d.ret tt) ]

-- The move constructor, and what is left of the old channel.
pub move_construct : Channel → Channel × Channel
move_construct c = (c, record c { waiters = []; buffered = 0 })

-- The move assignment `target = source`: the target, which is reset first, what is left of the source, and
-- the completions posted. The reset is that of `__channel_base`.
pub move_assign : Channel → Channel → Channel × Channel × List (ℕ × ErrorCode)
unfolding cancel reopened
move_assign target source =
    let base = cancel target in
    let old = reopened base.chan in
    (
      record source { waiters = old.waiters ++ source.waiters },
      record old { waiters = []; buffered = 0 },
      base.posts,
    )
