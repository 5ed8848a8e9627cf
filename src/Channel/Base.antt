-- ===== src/Channel/Base.antt =====
-- channel_base.h, and the operations of `_Op`, `_PutOp` and `_GetOp` in channel.h. `default` is the
-- value-initialised `value_type()`.
use executors.Base.{ℕ, none, some, List, [], ◌∷◌, Bool, not, ◌==◌, if◌then◌else◌}
use executors.Channel.Types.{
  ChannelState, buffer, block, closed, canceled, broken, OpKind, put_op, get_op, Op, Completion,
  put_done, get_done, Channel, Done, is_closed, is_block, is_waiter, error_of,
}

-- Where a channel returns to when nobody waits: to its buffer, if it has one.
unfoldable pub idle_put_state : ℕ → ChannelState
idle_put_state capacity = if capacity == 0 then block else buffer

-- The constructor; `Values.construct` adds the empty buffer.
unfoldable pub construct {ℓ} : {T : Type ℓ} → ℕ → Channel T
unfolding idle_put_state
construct capacity = record {
  get_state = block;
  put_state = idle_put_state capacity;
  waiters = [];
  capacity = capacity;
  items = [];
}

unfoldable pub is_open {ℓ} : {T : Type ℓ} → Channel T → Bool
is_open c = not (is_closed c.put_state)

unfoldable pub ready {ℓ} : {T : Type ℓ} → Channel T → Bool
ready c = not (is_block c.get_state)

module _ {ℓ} {T : Type ℓ} where
  -- `_Set_value`
  unfoldable pub set_value : T → Op T → Op T
  set_value v op = record op { value = some v }

module _ {ℓ} {T : Type ℓ} (default : T) where
  -- `_Get_value`
  unfoldable pub get_value : Op T → T
  get_value op = elim op.value [ none ↦ default | some v ↦ v ]

  complete_kind : OpKind → Op T → Completion T
  unfolding get_value error_of
  complete_kind put_op op = put_done op.handler (error_of op.result)
  complete_kind get_op op = get_done op.handler (error_of op.result) (get_value op)

  -- `_Complete`, of `_PutOp` and of `_GetOp`
  unfoldable pub complete : Op T → Completion T
  unfolding complete_kind
  complete op = complete_kind op.kind op

  -- `__channel_op::_Cancel` and `__channel_op::_Close`
  unfoldable pub cancel_op : Op T → Completion T
  unfolding complete
  cancel_op op = complete (record op { result = canceled })

  unfoldable pub close_op : Op T → Completion T
  unfolding complete
  close_op op = complete (record op { result = broken })

  -- The loops of `_Cancel` and `_Close` over the waiting operations.
  unfoldable pub cancel_all : List (Op T) → List (Completion T)
  unfolding cancel_op
  cancel_all [] = []
  cancel_all (op ∷ ops) = cancel_op op ∷ cancel_all ops

  unfoldable pub close_all : List (Op T) → List (Completion T)
  unfolding close_op
  close_all [] = []
  close_all (op ∷ ops) = close_op op ∷ close_all ops

  -- `_Cancel`
  unfoldable pub cancel : Channel T → Done T (Unit {0})
  unfolding cancel_all
  cancel c = record {
    chan = record c {
      waiters = [];
      get_state = if is_waiter c.get_state then block else c.get_state;
      put_state = if is_waiter c.put_state then block else c.put_state;
    };
    posts = cancel_all c.waiters;
    ret = tt;
  }

  close_in : ChannelState → Channel T → Done T (Unit {0})
  unfolding close_all
  close_in block c = record {
    chan = record c { put_state = closed; get_state = closed; waiters = [] };
    posts = close_all c.waiters;
    ret = tt;
  }
  close_in _ c = record { chan = record c { put_state = closed }; posts = []; ret = tt }

  -- `_Close`
  unfoldable pub close : Channel T → Done T (Unit {0})
  unfolding close_in
  close c = close_in c.get_state c

  reopened : Channel T → Channel T
  unfolding idle_put_state
  reopened c = record c {
    get_state = if is_closed c.get_state then block else c.get_state;
    put_state = if is_closed c.put_state then idle_put_state c.capacity else c.put_state;
  }

  -- `_Reset`
  unfoldable pub reset_base : Channel T → Done T (Unit {0})
  unfolding cancel reopened
  reset_base c = let canceled = cancel c in record canceled { chan = reopened canceled.chan }
