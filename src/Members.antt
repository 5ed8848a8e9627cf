-- ===== src/Members.antt =====
-- The lists of objects that the services keep, so that they can shut them down: the strands of
-- `__strand_service` in include/experimental/bits/strand.h, and the channels of `__channel_service` in
-- include/experimental/bits/channel_base.h. An object and a service are addresses; 0 is the null pointer.
pub mod Steps
pub mod Lists
pub mod Shutdown
use executors.Base.{
  ℕ, zero, suc, Option, none, some, List, [], ◌∷◌, ◌++◌, Bool, true, false, ◌==◌, if◌then◌else◌,
  update,
}
use executors.Base.Chain.{Node}
use executors.Strand.{Strand}
use executors.Channel.Types.{Channel, Op}

pub record Members : Type 0 where
  pub first : ℕ → ℕ
  pub node : ℕ → Node
  pub service : ℕ → ℕ

-- A pointer's target changes a field, if the pointer is not null.
abbrev set_next : ℕ → ℕ → (ℕ → Node) → ℕ → Node
set_next a next node = if a == 0 then node else update node a (record (node a) { next = next })

abbrev set_prev : ℕ → ℕ → (ℕ → Node) → ℕ → Node
set_prev a prev node = if a == 0 then node else update node a (record (node a) { prev = prev })

-- The constructors put the object in front.
unfoldable pub join : ℕ → ℕ → Members → Members
join s a m =
    let placed = update m.node a (record { prev = 0; next = m.first s }) in
    record m {
      first = update m.first s a;
      node = set_prev (m.first s) a placed;
      service = update m.service a s;
    }

-- The destructors
unfoldable pub leave : ℕ → Members → Members
leave a m =
    let s = m.service a in
    let before = set_next (m.node a).prev (m.node a).next m.node in
    record m {
      first = if m.first s == a then update m.first s (m.node a).next else m.first;
      node = set_prev (before a).next (before a).prev before;
    }

-- The part of `__channel_base::_Move_from` between the services: `s` is the service of the other channel.
unfoldable pub move_to : ℕ → ℕ → Members → Members
unfolding join leave
move_to s a m = if m.service a == s then m else join s a (leave a m)

-- The loop of `shutdown_service` from the object `a` on; `take` takes the operations of an object. It
-- takes fuel, and `none` is a loop that ran out of it.
unfoldable pub shutdown {ℓ κ} :
    {A : Type ℓ} {B : Type κ}
    → (A → A × List B)
    → ℕ
    → ℕ
    → (ℕ → Node)
    → (ℕ → A)
    → Option ((ℕ → A) × List B)
shutdown take zero a node object = none
shutdown take (suc fuel) a node object =
    let taken = take (object a) in
    let r = shutdown take fuel (node a).next node (update object a taken.0) in
    if a == 0
    then some (object, [])
    else elim r [ none ↦ none | some (left, more) ↦ some (left, taken.1 ++ more) ]

-- What it takes of a strand, and of a channel.
unfoldable pub take_strand : Strand → Strand × List ℕ
take_strand s =
    (record s { waiting_queue = []; ready_queue = [] }, s.waiting_queue ++ s.ready_queue)

unfoldable pub take_channel {ℓ} : {T : Type ℓ} → Channel T → Channel T × List (Op T)
take_channel c = (record c { waiters = [] }, c.waiters)
