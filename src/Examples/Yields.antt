-- ===== src/Examples/Yields.antt =====
-- A stackful coroutine whose operation ends after the coroutine is suspended.
use executors.Base.{◌≡◌, refl, true, some, none}
use executors.Yield.{
  Yield, Reach, here, next, starts, sets, handler_tests, get_tests, yields, unlocks, resumes, takes,
  start_operation, set_value, handler_test, get_test, resume, set_result, get_result, write_code,
  with_error_code, values, error_and_values, exception_and_values, returned, raised, system_error,
  other, Context, suspended,
}
use executors.Yield.Handshake.{is_set, locking-IsSuspended, Reach-IsReturned}
use executors.Yield.Outcomes.{get_result_lem}

record Scene : Type 0 where
  state : Yield
  reached : Reach state

abbrev context : Context
context = record { error_code = none }

-- The coroutine has yielded, and the handler comes.
abbrev met : Scene
unfolding start_operation set_value handler_test get_test resume set_result
met = record {
  state = _;
  reached =
      next
        (next
          (next
            (next (next (next here (starts refl)) (get_tests refl)) (sets context (values 7) refl))
            (handler_tests refl))
          (yields refl))
        (unlocks refl refl);
}

locking-IsSuspended_example : (met.state.coro ≡ suspended) × (is_set met.state.result ≡ true)
unfolding start_operation set_value handler_test get_test resume set_result
locking-IsSuspended_example = locking-IsSuspended met.state met.reached refl refl

abbrev returned_to : Scene
unfolding start_operation set_value handler_test get_test resume set_result
returned_to = record {
  state = _;
  reached = next (next met.reached (resumes refl refl)) (takes refl refl);
}

Reach-IsReturned_example : returned_to.state.got ≡ returned_to.state.given
unfolding start_operation set_value handler_test get_test resume set_result
Reach-IsReturned_example = Reach-IsReturned returned_to.state returned_to.reached refl

get_result_lem_example :
    (write_code (with_error_code 4 context) (error_and_values 9 7) (λ p. 0) 4 ≡ 9)
    × (get_result (set_result (with_error_code 4 context) (error_and_values 9 7)) ≡ returned 7)
    × (get_result (set_result context (error_and_values 10 7)) ≡ raised (system_error 10))
    × (get_result (set_result context (error_and_values 0 7)) ≡ returned 7)
    × (get_result (set_result context (exception_and_values (some (other 3)) 7)) ≡ raised (other 3))
get_result_lem_example = get_result_lem context 4 9 7 (other 3) (λ p. 0)
