-- ===== src/Channel/Void/Refine.antt =====
-- `channel<void>` beside `channel<T>` with the values forgotten.
use executors.Base.{
  ℕ, ◌-◌, ◌<◌, ◌≡◌, refl, ap, ◌∙◌, Option, none, some, List, [], ◌∷◌, map, false, arith, length,
  is_nil, length-append, map-append,
}
use executors.Channel.Types
use executors.Channel.Types.{
  ChannelState, buffer, waiter, block, closed, OpResult, ErrorCode, OpKind, put_op, get_op,
  Completion, put_done, get_done, canceled, broken, error_of,
}
use executors.Channel.Base
use executors.Channel.Values
use executors.Channel.Invariant.{Shape, IsValid, channel_of}
use executors.Channel.Void.{
  size_mod, Op, Channel, Done, put, get, put_throwing, get_throwing, move_construct, move_assign,
  start_put, done, start_get, close, cancel, reset, cancel_all, close_all,
}

abbrev pub buffered_after {κ} : {R : Type κ} → Option (Done R) → Option ℕ
buffered_after none = none
buffered_after (some d) = some d.chan.buffered

module _ {T : Type 0} (default : T) where
  abbrev erase_op : Types.Op T → Op
  erase_op op = record { handler = op.handler; result = op.result }

  abbrev erase_post : Completion T → ℕ × ErrorCode
  erase_post (put_done h e) = (h, e)
  erase_post (get_done h e v) = (h, e)

  -- A channel of values, of which only the number is seen.
  abbrev pub erase : Types.Channel T → Channel
  erase c = record {
    get_state = c.get_state;
    put_state = c.put_state;
    waiters = map erase_op c.waiters;
    capacity = c.capacity;
    buffered = length c.items;
  }

  abbrev pub erase_done {κ} : {R S : Type κ} → (R → S) → Types.Done T R → Done S
  erase_done f d = record { chan = erase d.chan; posts = map erase_post d.posts; ret = f d.ret }

  abbrev pub erase_fallible {κ} :
      {R S : Type κ} → (R → S) → Option (Types.Done T R) → Option (Done S)
  erase_fallible f none = none
  erase_fallible f (some d) = some (erase_done f d)

  -- A call of `channel<T>` and the call of `channel<void>` agree once the values are forgotten.
  abbrev Agrees {κ} :
      {R S : Type κ}
      → (R → S)
      → (Types.Channel T → Option (Types.Done T R))
      → (Channel → Option (Done S))
      → ChannelState
      → ChannelState
      → Type κ
  Agrees f call void_call g p =
      (ws : List (Types.Op T)) (k : ℕ) (xs : List T)
      → Shape g p ws k xs
      → k < size_mod
      → erase_fallible f (call (channel_of g p ws k xs))
        ≡ void_call (erase (channel_of g p ws k xs))

  put_erased : (u : T) (g p : ChannelState) → Agrees (λ e. e) (Values.put default u) put g p
  unfolding Values.put put
  put_erased u buffer buffer ws k xs v small = ground (arith, length-append xs (u ∷ []))
  put_erased u block buffer ws k [] v small = ground arith
  put_erased u block waiter (w ∷ []) k xs v small = ground arith
  put_erased u block waiter (w ∷ w' ∷ ws) k xs v small = ground arith
  put_erased u g p ws k xs v small = ground arith

  start_put_erased :
      (h : ℕ) (u : T) (g p : ChannelState)
      → Agrees (λ e. e) (Values.start_put default h u) (start_put h) g p
  unfolding Values.start_put start_put
  start_put_erased h u buffer buffer ws k xs v small = ground (arith, length-append xs (u ∷ []))
  start_put_erased h u block buffer ws k [] v small = ground arith
  start_put_erased h u block waiter (w ∷ []) k xs v small = ground arith
  start_put_erased h u block waiter (w ∷ w' ∷ ws) k xs v small = ground arith
  start_put_erased h u g p ws k xs v small =
      ground (arith, map-append erase_op ws (Values.put_operation h u ∷ []))

  get_erased : (g p : ChannelState) → Agrees (λ r. r.0) (Values.get default) get g p
  unfolding Values.get get
  get_erased buffer p [] k (x ∷ []) v small = ground arith
  get_erased buffer p [] k (x ∷ x' ∷ xs) v small = ground arith
  get_erased buffer buffer (w ∷ ws) k xs v small = ground arith
  get_erased buffer p (w ∷ ws) k (x ∷ xs) v small =
      ground (arith, length-append xs (Base.get_value default w ∷ []))
  get_erased waiter p (w ∷ []) k xs v small = ground arith
  get_erased waiter p (w ∷ w' ∷ ws) k xs v small = ground arith
  get_erased g p ws k xs v small = ground arith

  start_get_erased :
      (h : ℕ) (g p : ChannelState) → Agrees (λ e. e) (Values.start_get default h) (start_get h) g p
  unfolding Values.start_get start_get
  start_get_erased h buffer p [] k (x ∷ []) v small = ground arith
  start_get_erased h buffer p [] k (x ∷ x' ∷ xs) v small = ground arith
  start_get_erased h buffer buffer (w ∷ ws) k xs v small = ground arith
  start_get_erased h buffer p (w ∷ ws) k (x ∷ xs) v small =
      ground (arith, length-append xs (Base.get_value default w ∷ []))
  start_get_erased h waiter p (w ∷ []) k xs v small = ground arith
  start_get_erased h waiter p (w ∷ w' ∷ ws) k xs v small = ground arith
  start_get_erased h g p ws k xs v small =
      ground (arith, map-append erase_op ws (Values.get_operation h ∷ []))

  cancel_all-erased :
      (ws : List (Types.Op T))
      → map erase_post (Base.cancel_all default ws) ≡ cancel_all (map erase_op ws)
  unfolding Base.cancel_all cancel_all
  cancel_all-erased [] = refl
  cancel_all-erased (w ∷ ws) = ground (arith, cancel_all-erased ws)

  close_all-erased :
      (ws : List (Types.Op T))
      → map erase_post (Base.close_all default ws) ≡ close_all (map erase_op ws)
  unfolding Base.close_all close_all
  close_all-erased [] = refl
  close_all-erased (w ∷ ws) = ground (arith, close_all-erased ws)

  cancel_erased :
      (c : Types.Channel T) → erase_done (λ r. r) (Base.cancel default c) ≡ cancel (erase c)
  unfolding Base.cancel cancel
  cancel_erased c = ground (arith, cancel_all-erased c.waiters)

  reset_erased :
      (c : Types.Channel T) → erase_done (λ r. r) (Values.reset default c) ≡ reset (erase c)
  unfolding Values.reset reset
  reset_erased c = ground (arith, cancel_all-erased c.waiters)

  close_erased :
      (g p : ChannelState) (ws : List (Types.Op T)) (k : ℕ) (xs : List T)
      → erase_done (λ r. r) (Base.close default (channel_of g p ws k xs))
        ≡ close (erase (channel_of g p ws k xs))
  unfolding Base.close close
  close_erased block p ws k xs = ground (arith, close_all-erased ws)
  close_erased _ p ws k xs = refl

  -- The throw of what a call reports.
  abbrev throwing : Option (Done ErrorCode) → Option (Done (Values.Thrown (Unit {0})))
  throwing o = elim o [ none ↦ none | some d ↦ done d.chan d.posts (Values.throw_if d.ret tt) ]

  put_throwing_erased :
      (o : Option (Types.Done T ErrorCode))
      → erase_fallible
          (λ e. e)
          (elim o [ none ↦ none | some d ↦ Values.done d.chan d.posts (Values.throw_if d.ret tt) ])
        ≡ throwing (erase_fallible (λ e. e) o)
  put_throwing_erased none = refl
  put_throwing_erased (some d) = refl

  -- Whether a call has thrown, without the value that it returned.
  abbrev pub erase_thrown : Values.Thrown T → Values.Thrown (Unit {0})
  erase_thrown (Values.returned r) = Values.returned tt
  erase_thrown (Values.system_error e) = Values.system_error e

  throw_if_erased :
      (e : ErrorCode) (x : T) → erase_thrown (Values.throw_if e x) ≡ Values.throw_if e tt
  unfolding Values.throw_if
  throw_if_erased e x = ground arith

  get_throwing_erased :
      (o : Option (Types.Done T (ErrorCode × T)))
      → erase_fallible erase_thrown (elim o [
        | none ↦ none
        | some d ↦ Values.done d.chan d.posts (Values.throw_if d.ret.0 d.ret.1)
      ])
        ≡ throwing (erase_fallible (λ r. r.0) o)
  get_throwing_erased none = refl
  get_throwing_erased (some d) =
      ap (λ r. done (erase d.chan) (map erase_post d.posts) r) (throw_if_erased d.ret.0 d.ret.1)

  abbrev erase_moved : Types.Channel T × Types.Channel T → Channel × Channel
  erase_moved (new, old) = (erase new, record (erase old) { buffered = 0 })

  abbrev erase_assigned :
      Types.Channel T × Types.Channel T × List (Completion T)
      → Channel × Channel × List (ℕ × ErrorCode)
  erase_assigned (target, source, posts) = (erase target, erase source, map erase_post posts)

  move_assign_erased :
      (c s : Types.Channel T)
      → erase_assigned (Values.move_assign default (λ xs. []) c s) ≡ move_assign (erase c) (erase s)
  unfolding Values.move_assign move_assign
  move_assign_erased c s = ground (arith, cancel_all-erased c.waiters)

  -- What the calls of `channel<void>` do is what those of `channel<T>` do, once the values are
  -- forgotten: the number of buffered values, the states, the waiting operations, the error codes, what
  -- is thrown and the completions are the same. Of a channel
  -- that was moved from, the count is 0 in place of the values that `channel<T>` keeps; an assignment is
  -- compared with that of a container which keeps none.
  pub record Simulates (u : T) (h : ℕ) (c s : Types.Channel T) : Type 0 where
    pub putting : erase_fallible (λ e. e) (Values.put default u c) ≡ put (erase c)
    pub getting : erase_fallible (λ r. r.0) (Values.get default c) ≡ get (erase c)
    pub put_starting :
        erase_fallible (λ e. e) (Values.start_put default h u c) ≡ start_put h (erase c)
    pub get_starting :
        erase_fallible (λ e. e) (Values.start_get default h c) ≡ start_get h (erase c)
    pub closing : erase_done (λ e. e) (Base.close default c) ≡ close (erase c)
    pub cancelling : erase_done (λ e. e) (Base.cancel default c) ≡ cancel (erase c)
    pub resetting : erase_done (λ e. e) (Values.reset default c) ≡ reset (erase c)
    pub put_throws :
        erase_fallible (λ e. e) (Values.put_throwing default u c) ≡ put_throwing (erase c)
    pub get_throws :
        erase_fallible erase_thrown (Values.get_throwing default c) ≡ get_throwing (erase c)
    pub constructing : erase_moved (Values.move_construct default c) ≡ move_construct (erase c)
    pub assigning :
        erase_assigned (Values.move_assign default (λ xs. []) c s) ≡ move_assign (erase c) (erase s)

  -- On a channel in a valid state whose capacity is a `size_t`, the calls of `channel<void>` that put, get
  -- (also those that throw and those that wait), close, cancel and reset it, and the move of it and the
  -- assignment of another channel to it, do what the same calls of `channel<T>` do, once the values are
  -- forgotten; but the old channel of a move construction counts no value, where that of `channel<T>` keeps a
  -- copy of its values, and so does the old channel of an assignment, as that of `channel<T>` does if its
  -- container leaves none behind. The counter does not wrap.
  pub channel-Simulates :
      (u : T) (h : ℕ) (c s : Types.Channel T)
      → IsValid c
      → c.capacity < size_mod
      → Simulates u h c s
  unfolding Values.put_throwing Values.get_throwing put_throwing get_throwing Values.move_construct
      move_construct
  channel-Simulates u h c s v small =
      let putting = put_erased u c.get_state c.put_state c.waiters c.capacity c.items v small in
      let getting = get_erased c.get_state c.put_state c.waiters c.capacity c.items v small in
      record {
        putting = putting;
        getting = getting;
        put_starting =
            start_put_erased h u c.get_state c.put_state c.waiters c.capacity c.items v small;
        get_starting =
            start_get_erased h c.get_state c.put_state c.waiters c.capacity c.items v small;
        closing = close_erased c.get_state c.put_state c.waiters c.capacity c.items;
        cancelling = cancel_erased c;
        resetting = reset_erased c;
        put_throws = put_throwing_erased (Values.put default u c) ∙ ap throwing putting;
        get_throws = get_throwing_erased (Values.get default c) ∙ ap throwing getting;
        constructing = refl;
        assigning = move_assign_erased c s;
      }

  underflow-Shape :
      (g p : ChannelState) (ws : List (Types.Op T)) (k : ℕ) (xs : List T)
      → Shape g p ws k xs
      → is_nil xs ≡ false
      → buffered_after (get (reset (erase (channel_of g p ws k xs))).chan) ≡ some (size_mod - 1)
  unfolding reset get
  underflow-Shape buffer p ws k (x ∷ xs) v e = ground arith
  underflow-Shape g p ws k xs v e = ground arith

  -- `reset` of a `channel<void>` in a valid state with a buffered value leaves `_M_get_state` at
  -- `buffer`: the next `get` counts down from 0, to the largest `size_t`.
  pub get-reset_underflows :
      (c : Types.Channel T)
      → IsValid c
      → is_nil c.items ≡ false
      → buffered_after (get (reset (erase c)).chan) ≡ some (size_mod - 1)
  get-reset_underflows c v e =
      underflow-Shape c.get_state c.put_state c.waiters c.capacity c.items v e
