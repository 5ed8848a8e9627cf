-- ===== src/Channel/Fifo.antt =====
-- A channel as a queue: the values in it, in order, are those of the buffer and then those of the
-- putters that wait.
use executors.Base.{
  Ensures, Ensures-map, ℕ, ◌≤◌, ◌≡◌, ◌⊎◌, inr, refl, Option, none, some, List, [], ◌∷◌, ◌++◌, arith,
  length, All, append-nil, append_assoc,
}
use executors.Channel.Types.{ChannelState, buffer, waiter, block, closed, Op, Channel}
use executors.Channel.Base.{construct, is_open, close, close_all, get_value}
use executors.Channel.Values.{put, get, start_put, start_get, put_operation, get_operation}
use executors.Channel.Invariant.{
  IsGetter, IsPutter, Shape, IsValid, channel_of, construct-IsValid, calls-IsValid,
}
use executors.Channel.Calls.{
  Call, puts, gets, start_puts, start_gets, closes, Traffic, received, waiting_values, contents,
  step, joined, run,
}

module _ {T : Type 0} (default : T) where
  -- What is in the channel and is taken in comes out, in order, or stays.
  abbrev Balanced : Channel T → Traffic T → Type 0
  Balanced c t = contents default c ++ t.accepted ≡ t.delivered ++ contents default t.chan

  abbrev Balances : Call T → ChannelState → ChannelState → Type 0
  Balances call g p =
      (ws : List (Op T)) (k : ℕ) (xs : List T)
      → Shape g p ws k xs
      → Ensures (Balanced (channel_of g p ws k xs)) (step default call (channel_of g p ws k xs))

  waiting_values-append :
      (ws vs : List (Op T))
      → waiting_values default (ws ++ vs) ≡ waiting_values default ws ++ waiting_values default vs
  waiting_values-append [] vs = refl
  waiting_values-append (w ∷ ws) vs = ground (arith, waiting_values-append ws vs)

  pub getters-nil : (ws : List (Op T)) → All IsGetter ws → waiting_values default ws ≡ []
  getters-nil [] v = refl
  getters-nil (w ∷ ws) v = ground (arith, getters-nil ws v.1)

  put_fifo : (u : T) (g p : ChannelState) → Balances (puts u) g p
  unfolding step put
  put_fifo u buffer buffer ws k xs v = ground (arith, append-nil xs, append-nil (xs ++ u ∷ []))
  put_fifo u block waiter (w ∷ ws) k xs v = ground (arith, getters-nil ws v.0.1)
  put_fifo u _ _ ws k xs v = ground (arith, append-nil (xs ++ waiting_values default ws))

  get_fifo : (g p : ChannelState) → Balances gets g p
  unfolding step get
  get_fifo buffer p [] k xs v = ground (arith, append-nil xs)
  get_fifo buffer buffer (w ∷ ws) k xs v = ground arith
  get_fifo buffer p (w ∷ ws) k (x ∷ xs) v = ground (
    arith,
    append-nil (xs ++ get_value default w ∷ waiting_values default ws),
    append_assoc xs (get_value default w ∷ []) (waiting_values default ws),
  )
  get_fifo waiter p (w ∷ ws) k xs v = ground (arith, append-nil (waiting_values default ws))
  get_fifo g p ws k xs v = ground (arith, append-nil (xs ++ waiting_values default ws))

  start_put_fifo : (h : ℕ) (u : T) (g p : ChannelState) → Balances (start_puts h u) g p
  unfolding step start_put is_open
  start_put_fifo h u buffer buffer ws k xs v =
      ground (arith, append-nil xs, append-nil (xs ++ u ∷ []))
  start_put_fifo h u block waiter (w ∷ ws) k xs v = ground (arith, getters-nil ws v.0.1)
  start_put_fifo h u g p ws k xs v = ground (
    arith,
    append-nil (xs ++ waiting_values default ws),
    waiting_values-append ws (put_operation h u ∷ []),
    append_assoc xs (waiting_values default ws) (u ∷ []),
  )

  start_get_fifo : (h : ℕ) (g p : ChannelState) → Balances (start_gets h) g p
  unfolding step start_get
  start_get_fifo h buffer p [] k xs v = ground (arith, append-nil xs)
  start_get_fifo h buffer buffer (w ∷ ws) k xs v = ground arith
  start_get_fifo h buffer p (w ∷ ws) k (x ∷ xs) v = ground (
    arith,
    append-nil (xs ++ get_value default w ∷ waiting_values default ws),
    append_assoc xs (get_value default w ∷ []) (waiting_values default ws),
  )
  start_get_fifo h waiter p (w ∷ ws) k xs v = ground (arith, append-nil (waiting_values default ws))
  start_get_fifo h g p ws k xs v = ground (
    arith,
    append-nil (xs ++ waiting_values default ws),
    append-nil (waiting_values default ws),
    waiting_values-append ws (get_operation h ∷ []),
  )

  received-close_all : (ws : List (Op T)) → received (close_all default ws) ≡ []
  unfolding close_all
  received-close_all [] = refl
  received-close_all (w ∷ ws) = ground (arith, received-close_all ws)

  close_fifo : (g p : ChannelState) → Balances closes g p
  unfolding step close
  close_fifo block waiter ws k xs v =
      ground (arith, received-close_all ws, getters-nil ws v.0, append-nil xs)
  close_fifo g p ws k xs v = ground (
    arith,
    received-close_all ws,
    append-nil (xs ++ waiting_values default ws),
    append-nil xs,
    getters-nil ws,
  )

  step-Balanced :
      (call : Call T) (c : Channel T) → IsValid c → Ensures (Balanced c) (step default call c)
  step-Balanced (puts u) c v = put_fifo u c.get_state c.put_state c.waiters c.capacity c.items v
  step-Balanced gets c v = get_fifo c.get_state c.put_state c.waiters c.capacity c.items v
  step-Balanced (start_puts h u) c v =
      start_put_fifo h u c.get_state c.put_state c.waiters c.capacity c.items v
  step-Balanced (start_gets h) c v =
      start_get_fifo h c.get_state c.put_state c.waiters c.capacity c.items v
  step-Balanced closes c v = close_fifo c.get_state c.put_state c.waiters c.capacity c.items v

  step-IsValid :
      (call : Call T) (c : Channel T)
      → IsValid c
      → Ensures (λ t. IsValid t.chan) (step default call c)
  unfolding step
  step-IsValid (puts u) c v = ground (arith, (calls-IsValid default c u 0 v).0)
  step-IsValid gets c v = ground (arith, (calls-IsValid default c default 0 v).1)
  step-IsValid (start_puts h u) c v = ground (arith, (calls-IsValid default c u h v).2)
  step-IsValid (start_gets h) c v = ground (arith, (calls-IsValid default c default h v).3)
  step-IsValid closes c v = (calls-IsValid default c default 0 v).4

  joined-Balanced :
      (c : Channel T) (t r : Traffic T)
      → Balanced c t
      → Balanced t.chan r
      → Balanced c (joined default t.accepted t.delivered r)
  joined-Balanced c t r h k = cc (
    append_assoc (contents default c) t.accepted r.accepted,
    append_assoc t.delivered (contents default t.chan) r.accepted,
    append_assoc t.delivered r.delivered (contents default r.chan),
  )

  abbrev Good : Channel T → Traffic T → Type 0
  Good c t = Balanced c t × IsValid t.chan

  pub run_from_valid :
      (calls : List (Call T)) (c : Channel T) → IsValid c → Ensures (Good c) (run default calls c)
  unfolding run
  run_from_valid [] c v = (append-nil (contents default c), v)
  run_from_valid (call ∷ calls) c v =
      go (step default call c) (step-Balanced call c v) (step-IsValid call c v)
        (λ d. run_from_valid calls d)
    where
      then_run : Traffic T → Option (Traffic T)
      then_run t = elim (run default calls t.chan) [
        | none ↦ none
        | some rest ↦ some (joined default t.accepted t.delivered rest)
      ]

      after :
          (t : Traffic T) (o : Option (Traffic T))
          → Balanced c t
          → Ensures (Good t.chan) o
          → Ensures (Good c) (elim o [
            | none ↦ none
            | some rest ↦ some (joined default t.accepted t.delivered rest)
          ])
      after t none b g = g
      after t (some r) b g = (joined-Balanced c t r b g.0, g.1)

      go :
          (o : Option (Traffic T))
          → Ensures (Balanced c) o
          → Ensures (λ t. IsValid t.chan) o
          → ((d : Channel T) → IsValid d → Ensures (Good d) (run default calls d))
          → Ensures (Good c) (elim o [ none ↦ none | some t ↦ then_run t ])
      go none b w ih = b
      go (some t) b w ih = after t (run default calls t.chan) b (ih t.chan w)

  -- Any calls of put, get, their asynchronous forms and close on a new channel are defined, and the
  -- values that they take in are, in order, those that they give out and then those that stay in the
  -- channel: none is lost, doubled or overtaken.
  pub run-fifo :
      (capacity : ℕ) (calls : List (Call T))
      → Ensures
          (λ t. t.accepted ≡ t.delivered ++ contents default t.chan)
          (run default calls (construct capacity))
  unfolding construct
  run-fifo capacity calls =
      Ensures-map (Good (construct capacity)) _ (run default calls (construct capacity))
        (λ t g. g.0) (run_from_valid calls (construct capacity) (construct-IsValid T capacity))

  -- Whoever waits waits for a reason.
  pub record IsSettled (c : Channel T) : Type 0 where
    pub bounded : length c.items ≤ c.capacity
    pub waiting : All IsPutter c.waiters ⊎ (All IsGetter c.waiters × (contents default c ≡ []))

  settled :
      (g p : ChannelState) (ws : List (Op T)) (k : ℕ) (xs : List T)
      → Shape g p ws k xs
      → IsSettled (channel_of g p ws k xs)
  settled buffer buffer ws k xs v = ground arith
  settled block waiter ws k [] v = record {
    bounded = ground arith;
    waiting = inr (v.0, getters-nil ws v.0);
  }
  settled block closed ws k [] v = record {
    bounded = ground arith;
    waiting = inr (v.0, getters-nil ws v.0);
  }
  settled g p ws k xs v = ground arith

  -- In a channel that any calls of put, get, their asynchronous forms and close have brought about,
  -- the buffer is within the capacity, and the operations that wait are all putters, or all getters
  -- while there is no value to get.
  pub run-IsSettled :
      (capacity : ℕ) (calls : List (Call T))
      → Ensures (λ t. IsSettled t.chan) (run default calls (construct capacity))
  run-IsSettled capacity calls =
      Ensures-map (Good (construct capacity)) _ (run default calls (construct capacity))
        (λ t g.
          settled t.chan.get_state t.chan.put_state t.chan.waiters t.chan.capacity t.chan.items g.1)
        (run_from_valid calls (construct capacity) (construct-IsValid T capacity))
