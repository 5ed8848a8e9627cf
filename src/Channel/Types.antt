-- ===== src/Channel/Types.antt =====
-- The data of a channel of values: the operations that wait in it (`__channel_op` and its
-- subclasses), and the members of `__channel_base` and `channel<T>` that carry its behaviour.
-- A handler is a number, and what `_Complete` posts to the handler's executor is a `Completion`.
-- The queue of waiting operations is a list (OpQueue/Refine.antt).
use executors.Base.{ℕ, Option, List, Bool, true, false}

-- `__channel_state`
pub data ChannelState : Type 0 where
  buffer waiter block closed : ChannelState

-- `__channel_op::_Result`
pub data OpResult : Type 0 where
  success canceled broken : OpResult

-- The values of `error_code` that channels produce; `no_error` is the cleared one.
pub data ErrorCode : Type 0 where
  no_error operation_would_block operation_canceled broken_pipe : ErrorCode

-- Which of `_PutOp` and `_GetOp` an operation is.
pub data OpKind : Type 0 where
  put_op get_op : OpKind

-- The value is there exactly when the source's `_M_has_value` is set.
pub record Op {ℓ} (T : Type ℓ) : Type ℓ where
  pub kind : OpKind
  pub handler : ℕ
  pub value : Option T
  pub result : OpResult

-- What is posted to the executor of a handler: an error code and, for a get, a value.
pub data Completion {ℓ} (T : Type ℓ) : Type ℓ where
  put_done : ℕ → ErrorCode → Completion T
  get_done : ℕ → ErrorCode → T → Completion T

pub record Channel {ℓ} (T : Type ℓ) : Type ℓ where
  pub get_state : ChannelState
  pub put_state : ChannelState
  pub waiters : List (Op T)
  pub capacity : ℕ
  pub items : List T  -- `_M_buffer`

-- What a call leaves: the channel, the completions that it posted, in order, and what it returns.
pub record Done {ℓ κ} (T : Type ℓ) (R : Type κ) : Type (ℓ ⊔ κ) where
  pub chan : Channel T
  pub posts : List (Completion T)
  pub ret : R

abbrev pub is_closed : ChannelState → Bool
is_closed closed = true
is_closed _ = false

abbrev pub is_block : ChannelState → Bool
is_block block = true
is_block _ = false

abbrev pub is_waiter : ChannelState → Bool
is_waiter waiter = true
is_waiter _ = false

-- The error code that `_Complete` makes of `_M_result`.
unfoldable pub error_of : OpResult → ErrorCode
error_of success = no_error
error_of canceled = operation_canceled
error_of broken = broken_pipe
