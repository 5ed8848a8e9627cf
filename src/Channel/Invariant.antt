-- ===== src/Channel/Invariant.antt =====
-- The states that a channel of values can be in (channel.h), and its calls from these.
use executors.Base.{
  Ensures, ℕ, zero, suc, ◌+◌, ◌≤◌, ◌<◌, ◌≡◌, refl, Option, none, some, List, [], ◌∷◌, ◌++◌, Bool,
  true, false, arith, length, is_nil, All, All-append, length-append, is_nil-append,
}
use executors.Channel.Types.{
  ChannelState, buffer, waiter, block, closed, success, put_op, get_op, Op, Channel, Done,
}
use executors.Channel.Base.{construct, cancel, close, get_value}
use executors.Channel.Values.{put, get, start_put, start_get, put_operation, get_operation}

abbrev pub is_some {ℓ} : {A : Type ℓ} → Option A → Bool
is_some none = false
is_some (some a) = true

module _ {ℓ} {T : Type ℓ} where
  -- A putter carries its value, and neither kind has been cancelled or closed while it waits.
  pub record IsPutter (op : Op T) : Type 0 where
    pub is_put : op.kind ≡ put_op
    pub has_value : is_some op.value ≡ true
    pub unset : op.result ≡ success

  pub record IsGetter (op : Op T) : Type 0 where
    pub is_get : op.kind ≡ get_op
    pub unset : op.result ≡ success

  -- What each pair of states says of the waiting operations and of the buffer.
  abbrev pub Shape : ChannelState → ChannelState → List (Op T) → ℕ → List T → Type 0
  Shape buffer buffer ws capacity items =
      (is_nil ws ≡ true) × (is_nil items ≡ false) × (length items < capacity)
  Shape buffer block ws capacity items =
      All IsPutter ws × (is_nil items ≡ false) × (length items ≡ capacity)
  Shape buffer closed ws capacity items =
      All IsPutter ws × (is_nil items ≡ false) × (length items ≤ capacity)
  Shape waiter block ws capacity items =
      All IsPutter ws × (is_nil ws ≡ false) × (is_nil items ≡ true)
  Shape waiter closed ws capacity items =
      All IsPutter ws × (is_nil ws ≡ false) × (is_nil items ≡ true)
  Shape block waiter ws capacity items =
      All IsGetter ws × (is_nil ws ≡ false) × (is_nil items ≡ true)
  Shape block buffer ws capacity items = (is_nil ws ≡ true) × (is_nil items ≡ true) × (0 < capacity)
  Shape block block ws capacity items = (is_nil ws ≡ true) × (is_nil items ≡ true)
  Shape block closed ws capacity items = All IsGetter ws × (is_nil items ≡ true)
  Shape closed closed ws capacity items = (is_nil ws ≡ true) × (is_nil items ≡ true)
  Shape _ _ ws capacity items = ⊥

  abbrev pub IsValid : Channel T → Type 0
  IsValid c = Shape c.get_state c.put_state c.waiters c.capacity c.items

  abbrev pub channel_of : ChannelState → ChannelState → List (Op T) → ℕ → List T → Channel T
  channel_of g p ws k xs = record {
    get_state = g;
    put_state = p;
    waiters = ws;
    capacity = k;
    items = xs;
  }

pub construct-IsValid {ℓ} : (T : Type ℓ) (capacity : ℕ) → IsValid (construct {T = T} capacity)
unfolding construct
construct-IsValid T zero = ground arith
construct-IsValid T (suc n) = ground arith

module _ {ℓ} {T : Type ℓ} (default : T) where
  abbrev Preserves : (Channel T → Channel T) → ChannelState → ChannelState → Type ℓ
  Preserves f g p =
      (ws : List (Op T)) (k : ℕ) (xs : List T)
      → Shape g p ws k xs
      → IsValid (f (channel_of g p ws k xs))

  abbrev Keeps {κ} :
      {R : Type κ} → (Channel T → Option (Done T R)) → ChannelState → ChannelState → Type ℓ
  Keeps f g p =
      (ws : List (Op T)) (k : ℕ) (xs : List T)
      → Shape g p ws k xs
      → Ensures (λ d. IsValid d.chan) (f (channel_of g p ws k xs))

  cancel-IsValid : (c : Channel T) → IsValid c → IsValid (cancel default c).chan
  unfolding cancel
  cancel-IsValid c v = ground arith

  close_shape : (g p : ChannelState) → Preserves (λ c. (close default c).chan) g p
  unfolding close
  close_shape buffer buffer ws k xs v = ground arith
  close_shape block p ws k xs v = ground arith
  close_shape _ _ ws k xs v = ground arith

  put_shape : (u : T) (g p : ChannelState) → Keeps (put default u) g p
  unfolding put
  put_shape u buffer buffer ws k xs v = ground (arith, length-append xs (u ∷ []))
  put_shape u block waiter (w ∷ []) k xs v = ground arith
  put_shape u _ _ ws k xs v = ground (arith, length-append xs (u ∷ []))

  refilled : (w : Op T) (xs : List T) → record {
    same_length : length (xs ++ get_value default w ∷ []) ≡ length xs + 1;
    more : is_nil (xs ++ get_value default w ∷ []) ≡ false;
  }
  refilled w xs = record {
    same_length = length-append xs (get_value default w ∷ []);
    more = is_nil-append xs (get_value default w) [];
  }

  get_shape : (g p : ChannelState) → Keeps (get default) g p
  unfolding get
  get_shape buffer p [] k xs v = ground arith
  get_shape buffer buffer (w ∷ ws) k xs v = ground arith
  get_shape buffer p (w ∷ ws) k (x ∷ xs) v = ground (arith, refilled w xs)
  get_shape g p ws k xs v = ground arith

  queued-IsPutter :
      (h : ℕ) (u : T) (ws : List (Op T))
      → All IsPutter ws
      → All IsPutter (ws ++ put_operation h u ∷ [])
  queued-IsPutter h u ws v =
      All-append IsPutter ws (put_operation h u ∷ []) v
        (record { is_put = refl; has_value = refl; unset = refl }, tt)

  queued-IsGetter :
      (h : ℕ) (ws : List (Op T)) → All IsGetter ws → All IsGetter (ws ++ get_operation h ∷ [])
  queued-IsGetter h ws v =
      All-append IsGetter ws (get_operation h ∷ []) v (record { is_get = refl; unset = refl }, tt)

  start_put_shape : (h : ℕ) (u : T) (g p : ChannelState) → Keeps (start_put default h u) g p
  unfolding start_put
  start_put_shape h u buffer block ws k xs v = ground (arith, queued-IsPutter h u ws v.0)
  start_put_shape h u waiter block ws k xs v =
      ground (arith, queued-IsPutter h u ws v.0, is_nil-append ws (put_operation h u) [])
  start_put_shape h u block block [] k xs v = ground (arith, queued-IsPutter h u [] tt)
  start_put_shape h u _ _ ws k xs v = ground (arith, length-append xs (u ∷ []))

  start_get_shape : (h : ℕ) (g p : ChannelState) → Keeps (start_get default h) g p
  unfolding start_get
  start_get_shape h buffer p [] k xs v = ground arith
  start_get_shape h buffer buffer (w ∷ ws) k xs v = ground arith
  start_get_shape h buffer p (w ∷ ws) k (x ∷ xs) v = ground (arith, refilled w xs)
  start_get_shape h block waiter ws k xs v =
      ground (arith, queued-IsGetter h ws v.0, is_nil-append ws (get_operation h) [])
  start_get_shape h block closed ws k xs v = ground (arith, queued-IsGetter h ws v.0)
  start_get_shape h block p [] k xs v = ground (arith, queued-IsGetter h [] tt)
  start_get_shape h g p ws k xs v = ground arith

  -- Every call but `reset`, on a channel in a valid state, meets no undefined behaviour (no front of
  -- an empty buffer is read, and no null operation) and leaves a valid state.
  pub calls-IsValid :
      (c : Channel T) (u : T) (handler : ℕ)
      → IsValid c
      → Ensures (λ d. IsValid d.chan) (put default u c)
        × Ensures (λ d. IsValid d.chan) (get default c)
        × Ensures (λ d. IsValid d.chan) (start_put default handler u c)
        × Ensures (λ d. IsValid d.chan) (start_get default handler c)
        × IsValid (close default c).chan
        × IsValid (cancel default c).chan
  calls-IsValid c u h v = (
    put_shape u c.get_state c.put_state c.waiters c.capacity c.items v,
    get_shape c.get_state c.put_state c.waiters c.capacity c.items v,
    start_put_shape h u c.get_state c.put_state c.waiters c.capacity c.items v,
    start_get_shape h c.get_state c.put_state c.waiters c.capacity c.items v,
    close_shape c.get_state c.put_state c.waiters c.capacity c.items v,
    cancel-IsValid c v,
  )
