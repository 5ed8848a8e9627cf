-- ===== src/Await/Errors.antt =====
-- Where the error of an operation goes that a coroutine awaits.
use executors.Base.{ℕ, ◌≡◌, none, some, Ensures, arith, ◌>>=◌}
use executors.Await.Handlers.{
  World, Context, make_handler, set_value, resume, complete_values, capture,
}

abbrev HasNone : World → Type 0
HasNone w = (i : ℕ) → (w.impls i).result_ec ≡ none

-- A result that the coroutine does not take is written to the variable that took the result of an
-- earlier `await`.
pub capture-complete_values :
    (w : World) (c : Context) (a v v' : ℕ)
    → Ensures
        (λ u. u.values a ≡ v')
        (complete_values (make_handler c) (some v) (capture c.impl a w)
          >>= complete_values (make_handler c) (some v'))
unfolding complete_values make_handler set_value resume capture
capture-complete_values w c a v v' = ground arith
