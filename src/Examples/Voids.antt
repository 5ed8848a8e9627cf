-- ===== src/Examples/Voids.antt =====
-- A channel without values, beside one with values.
use executors.Base.{ℕ, refl, [], ◌∷◌, arith}
use executors.Channel.Types.{buffer, block, Channel}
use executors.Channel.Values.{put_operation}
use executors.Channel.Invariant.{IsValid}
use executors.Channel.Void.Refine.{Simulates, channel-Simulates}

-- Capacity 2, full, and a putter waits.
abbrev full : Channel ℕ
full = record {
  get_state = buffer;
  put_state = block;
  waiters = put_operation 5 20 ∷ [];
  capacity = 2;
  items = 10 ∷ 15 ∷ [];
}

full-IsValid : IsValid full
full-IsValid = ((record { is_put = refl; has_value = refl; unset = refl }, tt), refl, refl)

channel-Simulates_example : Simulates 0 3 4 full full
channel-Simulates_example = channel-Simulates 0 3 4 full full full-IsValid (omega arith)
