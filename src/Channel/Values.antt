-- ===== src/Channel/Values.antt =====
-- channel.h: the calls of `channel<T>`. `none` is undefined behaviour: the front of an empty buffer,
-- or an operation read through the null pointer.
use executors.Base.{ℕ, Option, none, some, List, [], ◌∷◌, ◌++◌, ◌==◌, if◌then◌else◌, length, is_nil}
use executors.Channel.Types.{
  ChannelState, buffer, waiter, block, closed, success, ErrorCode, no_error, operation_would_block,
  broken_pipe, put_op, get_op, Op, Completion, Channel, Done, is_closed, is_block,
}
use executors.Channel.Base.{idle_put_state, set_value, get_value, complete, close_op, reset_base}

abbrev pub Fallible {ℓ κ} : Type ℓ → Type κ → Type (ℓ ⊔ κ)
Fallible T R = Option (Done T R)

module _ {ℓ} {T : Type ℓ} where
  -- The constructors of `_PutOp` and `_GetOp`.
  abbrev pub put_operation : ℕ → T → Op T
  put_operation handler u = record {
    kind = put_op;
    handler = handler;
    value = some u;
    result = success;
  }

  abbrev pub get_operation : ℕ → Op T
  get_operation handler = record {
    kind = get_op;
    handler = handler;
    value = none;
    result = success;
  }

  abbrev pub done {κ} : {R : Type κ} → Channel T → List (Completion T) → R → Fallible T R
  done c posts r = some (record { chan = c; posts = posts; ret = r })

  -- `put_state` after the first of the waiting getters has been served.
  served : List (Op T) → Channel T → ChannelState
  unfolding idle_put_state
  served rest c = if is_nil rest then idle_put_state c.capacity else c.put_state

  -- A value goes to the end of the buffer.
  stored : T → Channel T → Channel T
  stored u c =
      let items = c.items ++ u ∷ [] in
      record c {
        items = items;
        get_state = buffer;
        put_state = if length items == c.capacity then block else c.put_state;
      }

  -- `get_state` once nothing is left to get.
  drained : Channel T → ChannelState
  drained c = if is_closed c.put_state then closed else block

module _ {ℓ} {T : Type ℓ} (default : T) where
  -- The value goes to the first of the waiting getters.
  hand_over : T → List (Op T) → Channel T → Option (Channel T × Completion T)
  unfolding served set_value complete
  hand_over u [] c = none
  hand_over u (getter ∷ rest) c = some (
    record c { waiters = rest; put_state = served rest c },
    complete default (set_value u getter),
  )

  put_in : ChannelState → T → Channel T → Fallible T ErrorCode
  unfolding stored hand_over
  put_in block u c = done c [] operation_would_block
  put_in buffer u c = done (stored u c) [] no_error
  put_in waiter u c = elim (hand_over u c.waiters c) [
    | none ↦ none
    | some (d, post) ↦ done d (post ∷ []) no_error
  ]
  put_in closed u c = done c [] broken_pipe

  -- `put(u, ec)`
  unfoldable pub put : T → Channel T → Fallible T ErrorCode
  unfolding put_in
  put u c = put_in c.put_state u c

  start_put_in : ChannelState → Op T → Channel T → Fallible T (Unit {0})
  unfolding stored hand_over complete close_op get_value
  start_put_in block putter c =
      done
        (record c {
          waiters = c.waiters ++ putter ∷ [];
          get_state = if is_block c.get_state then waiter else c.get_state;
        })
        [] tt
  start_put_in buffer putter c =
      done (stored (get_value default putter) c) (complete default putter ∷ []) tt
  start_put_in waiter putter c = elim (hand_over (get_value default putter) c.waiters c) [
    | none ↦ none
    | some (d, post) ↦ done d (post ∷ complete default putter ∷ []) tt
  ]
  start_put_in closed putter c = done c (close_op default putter ∷ []) tt

  -- `_Start_put`, from the asynchronous `put(u, token)`
  unfoldable pub start_put : ℕ → T → Channel T → Fallible T (Unit {0})
  unfolding start_put_in
  start_put handler u c = start_put_in c.put_state (put_operation handler u) c

  -- The front of the buffer is taken, and the first of the waiting putters fills the place.
  refill : List T → List (Op T) → Channel T → Channel T × List (Completion T)
  unfolding drained complete get_value
  refill rest [] c = (
    record c {
      items = rest;
      get_state = if is_nil rest then drained c else c.get_state;
      put_state = if is_closed c.put_state then closed else buffer;
    },
    [],
  )
  refill rest (putter ∷ putters) c = (
    record c { items = rest ++ get_value default putter ∷ []; waiters = putters },
    complete default putter ∷ [],
  )

  -- A value is taken straight from the first of the waiting putters.
  take_over : List (Op T) → Channel T → Option (Channel T × T × Completion T)
  unfolding drained complete get_value
  take_over [] c = none
  take_over (putter ∷ putters) c = some (
    record c { waiters = putters; get_state = if is_nil putters then drained c else c.get_state },
    get_value default putter,
    complete default putter,
  )

  get_in : ChannelState → Channel T → Fallible T (ErrorCode × T)
  unfolding refill take_over
  get_in block c = done c [] (operation_would_block, default)
  get_in buffer c = elim c.items [
    | [] ↦ none
    | x ∷ rest ↦ let filled = refill rest c.waiters c in done filled.0 filled.1 (no_error, x)
  ]
  get_in waiter c = elim (take_over c.waiters c) [
    | none ↦ none
    | some (d, x, post) ↦ done d (post ∷ []) (no_error, x)
  ]
  get_in closed c = done c [] (broken_pipe, default)

  -- `get(ec)`
  unfoldable pub get : Channel T → Fallible T (ErrorCode × T)
  unfolding get_in
  get c = get_in c.get_state c

  start_get_in : ChannelState → Op T → Channel T → Fallible T (Unit {0})
  unfolding refill take_over set_value complete close_op
  start_get_in block getter c =
      done
        (record c {
          waiters = c.waiters ++ getter ∷ [];
          put_state = if is_closed c.put_state then c.put_state else waiter;
        })
        [] tt
  start_get_in buffer getter c = elim c.items [
    | [] ↦ none
    | x ∷ rest ↦
        let filled = refill rest c.waiters c in
        done filled.0 (filled.1 ++ complete default (set_value x getter) ∷ []) tt
  ]
  start_get_in waiter getter c = elim (take_over c.waiters c) [
    | none ↦ none
    | some (d, x, post) ↦ done d (post ∷ complete default (set_value x getter) ∷ []) tt
  ]
  start_get_in closed getter c = done c (close_op default getter ∷ []) tt

  -- `_Start_get`, from the asynchronous `get(token)`
  unfoldable pub start_get : ℕ → Channel T → Fallible T (Unit {0})
  unfolding start_get_in
  start_get handler c = start_get_in c.get_state (get_operation handler) c

  -- `reset`
  unfoldable pub reset : Channel T → Done T (Unit {0})
  unfolding reset_base
  reset c =
      let base = reset_base default c in record base { chan = record (base.chan) { items = [] } }

-- What a call that may throw gives: a result, or the `system_error` that it throws.
pub data Thrown {κ} (R : Type κ) : Type κ where
  returned : R → Thrown R
  system_error : ErrorCode → Thrown R

unfoldable pub throw_if {κ} : {R : Type κ} → ErrorCode → R → Thrown R
throw_if no_error r = returned r
throw_if e r = system_error e

module _ {ℓ} {T : Type ℓ} (default : T) where
  -- `put(u)` and `get()`, which throw what the calls above report.
  unfoldable pub put_throwing : T → Channel T → Fallible T (Thrown (Unit {0}))
  unfolding throw_if
  put_throwing u c = elim (put default u c) [
    | none ↦ none
    | some d ↦ done d.chan d.posts (throw_if d.ret tt)
  ]

  unfoldable pub get_throwing : Channel T → Fallible T (Thrown T)
  unfolding throw_if
  get_throwing c = elim (get default c) [
    | none ↦ none
    | some d ↦ done d.chan d.posts (throw_if d.ret.0 d.ret.1)
  ]

  -- The move constructor: the new channel, and what is left of the old one. Its waiting operations
  -- move; `_M_buffer` is copied.
  unfoldable pub move_construct : Channel T → Channel T × Channel T
  move_construct c = (c, record c { waiters = [] })

  -- The move assignment `target = source`: the target, which is reset first, what is left of the
  -- source, and the completions posted. `emptied` is the state in which the container's own move
  -- assignment leaves its source, which the standard does not specify.
  unfoldable pub move_assign :
      (List T → List T) → Channel T → Channel T → Channel T × Channel T × List (Completion T)
  unfolding reset_base
  move_assign emptied target source =
      let base = reset_base default target in
      let old = base.chan in
      (
        record source { waiters = old.waiters ++ source.waiters },
        record old { waiters = []; items = emptied source.items },
        base.posts,
      )
