-- ===== src/Channel/Calls.antt =====
-- Runs of calls of `channel<T>`, with the values that they take in and give out.
use executors.Base.{ℕ, Option, none, some, List, [], ◌∷◌, ◌++◌, Bool, true, false, if◌then◌else◌}
use executors.Channel.Types.{
  ErrorCode, no_error, put_op, get_op, Op, Completion, put_done, get_done, Channel,
}
use executors.Channel.Base.{is_open, close, get_value}
use executors.Channel.Values.{put, get, start_put, start_get}

abbrev pub is_ok : ErrorCode → Bool
is_ok no_error = true
is_ok _ = false

-- A call of the interface of `channel<T>`; handlers are numbers.
pub data Call (T : Type 0) : Type 0 where
  puts : T → Call T
  gets : Call T
  start_puts : ℕ → T → Call T
  start_gets : ℕ → Call T
  closes : Call T

-- What a call, or a run of calls, leaves, took in and gave out.
pub record Traffic (T : Type 0) : Type 0 where
  pub chan : Channel T
  pub accepted : List T
  pub delivered : List T

-- The values that completions hand to getters.
abbrev pub received : {T : Type 0} → List (Completion T) → List T
received [] = []
received (put_done h e ∷ posts) = received posts
received (get_done h no_error v ∷ posts) = v ∷ received posts
received (get_done h _ v ∷ posts) = received posts

module _ {T : Type 0} (default : T) where
  -- The values that putters wait to put.
  abbrev pub waiting_values : List (Op T) → List T
  waiting_values [] = []
  waiting_values (op ∷ ops) =
      let rest = waiting_values ops in
      elim op.kind [ put_op ↦ get_value default op ∷ rest | get_op ↦ rest ]

  abbrev pub contents : Channel T → List T
  contents c = c.items ++ waiting_values c.waiters

  -- A call, with the values that it took in and gave out.
  unfoldable pub step : Call T → Channel T → Option (Traffic T)
  step (puts u) c = elim (put default u c) [
    | none ↦ none
    | some d ↦ some (record {
      chan = d.chan;
      accepted = if is_ok d.ret then u ∷ [] else [];
      delivered = received d.posts;
    })
  ]
  step gets c = elim (get default c) [
    | none ↦ none
    | some d ↦ some (record {
      chan = d.chan;
      accepted = [];
      delivered = received d.posts ++ (if is_ok d.ret.0 then d.ret.1 ∷ [] else []);
    })
  ]
  step (start_puts h u) c = elim (start_put default h u c) [
    | none ↦ none
    | some d ↦ some (record {
      chan = d.chan;
      accepted = if is_open c then u ∷ [] else [];
      delivered = received d.posts;
    })
  ]
  step (start_gets h) c = elim (start_get default h c) [
    | none ↦ none
    | some d ↦ some (record { chan = d.chan; accepted = []; delivered = received d.posts })
  ]
  step closes c =
      let d = close default c in
      some (record { chan = d.chan; accepted = []; delivered = received d.posts })

  abbrev pub joined : List T → List T → Traffic T → Traffic T
  joined accepted delivered rest = record {
    chan = rest.chan;
    accepted = accepted ++ rest.accepted;
    delivered = delivered ++ rest.delivered;
  }

  -- A run of calls; `none` if one of them is undefined.
  unfoldable pub run : List (Call T) → Channel T → Option (Traffic T)
  run [] c = some (record { chan = c; accepted = []; delivered = [] })
  run (call ∷ calls) c = elim (step call c) [
    | none ↦ none
    | some t ↦ elim (run calls t.chan) [
      | none ↦ none
      | some rest ↦ some (joined t.accepted t.delivered rest)
    ]
  ]
