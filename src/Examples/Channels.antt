-- ===== src/Examples/Channels.antt =====
-- Channels of numbers, with 0 for the value of an empty get.
use executors.Base.{Ensures, ℕ, ◌≡◌, refl, none, List, [], ◌∷◌, ◌++◌}
use executors.Channel.Types.{buffer, block, Channel}
use executors.Channel.Base.{construct, is_open, cancel, close}
use executors.Channel.Values.{put, get, start_put, start_get, put_operation, reset}
use executors.Channel.Invariant.{IsPutter, IsValid, calls-IsValid}
use executors.Channel.Calls.{Call, puts, gets, start_puts, start_gets, closes, step, run, contents}
use executors.Channel.Fifo.{run-fifo}
use executors.Channel.Lifecycle.{get-reset_fault}

-- Capacity 1, full, and a putter waits.
abbrev full : Channel ℕ
full = record {
  get_state = buffer;
  put_state = block;
  waiters = put_operation 5 20 ∷ [];
  capacity = 1;
  items = 10 ∷ [];
}

waiting-IsPutter : IsPutter {T = ℕ} (put_operation 5 20)
waiting-IsPutter = record { is_put = refl; has_value = refl; unset = refl }

full-IsValid : IsValid full
full-IsValid = ((waiting-IsPutter, tt), refl, refl)

abbrev calls : List (Call ℕ)
calls = start_gets 1 ∷ puts 7 ∷ puts 8 ∷ start_puts 2 9 ∷ gets ∷ closes ∷ gets ∷ puts 4 ∷ []

calls_traffic :
    Ensures
      (λ t.
        (t.accepted ≡ 7 ∷ 8 ∷ 9 ∷ []) × (t.delivered ≡ 7 ∷ 8 ∷ 9 ∷ []) × (contents 0 t.chan ≡ []))
      (run 0 calls (construct 1))
unfolding run step construct put get start_put start_get close is_open
calls_traffic = (refl, refl, refl)

run-fifo_example :
    Ensures (λ t. t.accepted ≡ t.delivered ++ contents 0 t.chan) (run 0 calls (construct 1))
run-fifo_example = run-fifo 0 1 calls

calls-IsValid_example :
    Ensures (λ d. IsValid d.chan) (put 0 3 full)
    × Ensures (λ d. IsValid d.chan) (get 0 full)
    × Ensures (λ d. IsValid d.chan) (start_put 0 4 3 full)
    × Ensures (λ d. IsValid d.chan) (start_get 0 4 full)
    × IsValid (close 0 full).chan
    × IsValid (cancel 0 full).chan
calls-IsValid_example = calls-IsValid 0 full 3 4 full-IsValid

get-reset_fault_example : get 0 (reset 0 full).chan ≡ none
get-reset_fault_example = get-reset_fault 0 full full-IsValid refl
