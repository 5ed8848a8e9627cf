-- ===== src/Channel/Lifecycle.antt =====
-- What `cancel`, `close`, `reset` and the moves of a channel of values do.
use executors.Base.{
  Ensures, ℕ, zero, ◌≡◌, refl, none, some, List, [], ◌∷◌, true, false, arith, if◌then◌else◌, length,
  is_nil, All, append-nil,
}
use executors.Channel.Types.{
  ChannelState, buffer, waiter, block, closed, ErrorCode, no_error, operation_would_block,
  operation_canceled, broken_pipe, Op, Completion, put_done, get_done, Channel,
}
use executors.Channel.Base.{is_open, cancel, close, cancel_all}
use executors.Channel.Values.{put, get, start_put, start_get, reset, move_construct, move_assign}
use executors.Channel.Invariant.{Shape, IsValid, channel_of}
use executors.Channel.Calls.{contents}
use executors.Channel.Fifo.{getters-nil}

-- A completion that reports this error.
abbrev pub Reports {ℓ} : {T : Type ℓ} → ErrorCode → Completion T → Type 0
Reports e (put_done h f) = f ≡ e
Reports e (get_done h f v) = f ≡ e

module _ {T : Type 0} (default : T) where
  cancel_all-Reports :
      (ws : List (Op T))
      → All (Reports operation_canceled) (cancel_all default ws)
        × (length (cancel_all default ws) ≡ length ws)
  unfolding cancel_all
  cancel_all-Reports [] = (tt, refl)
  cancel_all-Reports (w ∷ ws) = ground (arith, cancel_all-Reports ws)

  -- `cancel` tells every operation that waits, once, that it was cancelled; nothing waits any more,
  -- and the values of the buffer stay.
  pub cancel_lem :
      (c : Channel T)
      → let d = cancel default c in
        All (Reports operation_canceled) d.posts
        × (length d.posts ≡ length c.waiters)
        × (d.chan.waiters ≡ [])
        × (contents default d.chan ≡ c.items)
  unfolding cancel
  cancel_lem c =
      let told = cancel_all-Reports c.waiters in (told.0, told.1, refl, append-nil c.items)

  -- After `close`: nothing is lost, puts fail, and gets go on until nothing is left.
  pub record IsShut (c : Channel T) (u : T) (h : ℕ) (d : Channel T) : Type 0 where
    pub kept : contents default d ≡ contents default c
    pub put_fails : put default u d ≡ some (record { chan = d; posts = []; ret = broken_pipe })
    pub start_put_fails :
        start_put default h u d
        ≡ some (record { chan = d; posts = put_done h broken_pipe ∷ []; ret = tt })
    pub get_drains :
        Ensures
          (λ r. r.ret.0 ≡ (if is_nil (contents default c) then broken_pipe else no_error))
          (get default d)

  close-IsShut :
      (u : T) (h : ℕ) (g p : ChannelState) (ws : List (Op T)) (k : ℕ) (xs : List T)
      → Shape g p ws k xs
      → let c = channel_of g p ws k xs in is_open c ≡ true → IsShut c u h (close default c).chan
  unfolding close get is_open put start_put
  close-IsShut u h buffer p ws k (x ∷ xs) v o = record {
    kept = refl;
    put_fails = refl;
    start_put_fails = refl;
    get_drains = ground arith;
  }
  close-IsShut u h waiter p (w ∷ ws) k [] v o = record {
    kept = refl;
    put_fails = refl;
    start_put_fails = refl;
    get_drains = ground arith;
  }
  close-IsShut u h block waiter ws k [] v o = record {
    kept = ground (arith, getters-nil default ws v.0);
    put_fails = refl;
    start_put_fails = refl;
    get_drains = ground (arith, getters-nil default ws v.0);
  }
  close-IsShut u h block p [] k [] v o = record {
    kept = refl;
    put_fails = refl;
    start_put_fails = refl;
    get_drains = ground arith;
  }
  close-IsShut u h g p ws k xs v o = ground arith

  -- Closing an open channel in a valid state loses no value; from then on puts fail with
  -- `broken_pipe` and change nothing, in both forms, and the next get succeeds exactly if there is a
  -- value left, and else fails with `broken_pipe`.
  pub close_lem :
      (c : Channel T) (u : T) (h : ℕ)
      → IsValid c
      → is_open c ≡ true
      → IsShut c u h (close default c).chan
  close_lem c u h v o = close-IsShut u h c.get_state c.put_state c.waiters c.capacity c.items v o

  reset-Shape :
      (g p : ChannelState) (ws : List (Op T)) (k : ℕ) (xs : List T)
      → Shape g p ws k xs
      → is_nil xs ≡ true
      → IsValid (reset default (channel_of g p ws k xs)).chan
        × (is_open (reset default (channel_of g p ws k xs)).chan ≡ true)
  unfolding reset is_open
  reset-Shape buffer p ws k (x ∷ xs) v e = cc
  reset-Shape waiter p ws zero xs v e = ground arith
  reset-Shape g p ws k xs v e = ground arith

  -- `reset` of a channel whose buffer is empty leaves it open and in a valid state.
  pub reset_of_nil :
      (c : Channel T)
      → IsValid c
      → is_nil c.items ≡ true
      → IsValid (reset default c).chan × (is_open (reset default c).chan ≡ true)
  reset_of_nil c v e = reset-Shape c.get_state c.put_state c.waiters c.capacity c.items v e

  reset_fault-Shape :
      (g p : ChannelState) (ws : List (Op T)) (k : ℕ) (xs : List T)
      → Shape g p ws k xs
      → is_nil xs ≡ false
      → get default (reset default (channel_of g p ws k xs)).chan ≡ none
  unfolding reset get
  reset_fault-Shape buffer p ws k xs v e = ground arith
  reset_fault-Shape g p ws k xs v e = ground arith

  -- `reset` of a channel in a valid state whose buffer holds a value empties the buffer and leaves
  -- `_M_get_state` at `buffer`: the next `get` reads the front of an empty buffer.
  pub get-reset_fault :
      (c : Channel T)
      → IsValid c
      → is_nil c.items ≡ false
      → get default (reset default c).chan ≡ none
  get-reset_fault c v e = reset_fault-Shape c.get_state c.put_state c.waiters c.capacity c.items v e

  cancel_blocks-Shape :
      (u : T) (g p : ChannelState) (ws : List (Op T)) (k : ℕ) (xs : List T)
      → Shape g p ws k xs
      → p ≡ waiter
      → let d = (cancel default (channel_of g p ws k xs)).chan in
        (is_nil d.items ≡ true)
        × (put default u d ≡ some (record { chan = d; posts = []; ret = operation_would_block }))
  unfolding cancel put
  cancel_blocks-Shape u block waiter ws k xs v e = ground arith
  cancel_blocks-Shape u g p ws k xs v e = ground arith

  -- Once getters that waited have been cancelled, `put` is refused with `operation_would_block`, also
  -- where the channel has a buffer: the buffer is empty then.
  pub put-cancel_blocks :
      (c : Channel T) (u : T)
      → IsValid c
      → c.put_state ≡ waiter
      → let d = (cancel default c).chan in
        (is_nil d.items ≡ true)
        × (put default u d ≡ some (record { chan = d; posts = []; ret = operation_would_block }))
  put-cancel_blocks c u v e =
      cancel_blocks-Shape u c.get_state c.put_state c.waiters c.capacity c.items v e

  cancel_waits-Shape :
      (h : ℕ) (g p : ChannelState) (ws : List (Op T)) (k : ℕ) (xs : List T)
      → Shape g p ws k xs
      → g ≡ waiter
      → p ≡ closed
      → let d = (cancel default (channel_of g p ws k xs)).chan in
        (contents default d ≡ [])
        × Ensures (λ r. (length r.chan.waiters ≡ 1) × (r.posts ≡ [])) (start_get default h d)
  unfolding cancel start_get
  cancel_waits-Shape h waiter closed ws k [] v e f = ground arith
  cancel_waits-Shape h g p ws k xs v e f = ground arith

  -- A closed channel with a putter that waits takes getters in again once it is cancelled: nothing
  -- is left to get, and a get waits in place of failing.
  pub start_get-cancel_waits :
      (c : Channel T) (h : ℕ)
      → IsValid c
      → c.get_state ≡ waiter
      → c.put_state ≡ closed
      → let d = (cancel default c).chan in
        (contents default d ≡ [])
        × Ensures (λ r. (length r.chan.waiters ≡ 1) × (r.posts ≡ [])) (start_get default h d)
  start_get-cancel_waits c h v e f =
      cancel_waits-Shape h c.get_state c.put_state c.waiters c.capacity c.items v e f

  -- The move constructor gives the new channel all that the old one had, in a valid state, and leaves
  -- the values of the buffer in the old one as well.
  pub move_construct_lem :
      (c : Channel T)
      → IsValid c
      → let (new, old) = move_construct default c in
        IsValid new × (contents default new ≡ contents default c) × (contents default old ≡ c.items)
  unfolding move_construct
  move_construct_lem c v = (v, refl, append-nil c.items)

  -- The move assignment cancels what waited in the target, and gives it all that the source had, in
  -- a valid state.
  pub move_assign_lem :
      (emptied : List T → List T) (target source : Channel T)
      → IsValid source
      → let moved = move_assign default emptied target source in
        IsValid moved.0
        × (contents default moved.0 ≡ contents default source)
        × (moved.1.waiters ≡ [])
        × All (Reports operation_canceled) moved.2
  unfolding move_assign cancel
  move_assign_lem emptied target source v = (v, refl, refl, (cancel_all-Reports target.waiters).0)
