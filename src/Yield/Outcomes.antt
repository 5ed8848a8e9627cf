-- ===== src/Yield/Outcomes.antt =====
-- Where the error of an operation goes that a coroutine has started.
use executors.Base.{ℕ, suc, ◌≡◌, refl, none, some, arith}
use executors.Yield.{
  Exception, system_error, error_and_values, exception_and_values, Context, returned, raised,
  with_error_code, set_result, write_code, get_result,
}

-- With `operator[]`, the error code is written and `get` returns the value, whatever the error; without it,
-- `get` throws an error, and returns the value if there is none; an exception is thrown as it is.
pub get_result_lem :
    (c : Context) (p e v : ℕ) (x : Exception) (codes : ℕ → ℕ)
    → (write_code (with_error_code p c) (error_and_values e v) codes p ≡ e)
      × (get_result (set_result (with_error_code p c) (error_and_values e v)) ≡ returned v)
      × (get_result (set_result (record { error_code = none }) (error_and_values (suc e) v))
          ≡ raised (system_error (suc e)))
      × (get_result (set_result (record { error_code = none }) (error_and_values 0 v)) ≡ returned v)
      × (get_result (set_result c (exception_and_values (some x) v)) ≡ raised x)
unfolding write_code with_error_code get_result set_result
get_result_lem c p e v x codes = (ground arith, refl, ground arith, refl, refl)
