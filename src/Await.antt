-- ===== src/Await.antt =====
-- await_context.h: stackless coroutines. The members of the `__await_context_impl` of one coroutine, whose
-- function is run again by each `_Resume`, from any thread. Each access of the atomic counter is one step;
-- the counter is a number, since the resumptions that it counts are calls in progress.
pub mod Turns
pub mod Coroutine
pub mod Segments
pub mod Handlers
pub mod Errors
use executors.Base.{ℕ, zero, suc, ◌-◌, ◌<◌, ◌≡◌, Bool, true, false, ◌==◌, if◌then◌else◌, update}

-- A thread that is in `_Invoke`: in the function, or before the decrement.
pub data Pc : Type 0 where
  outside : Pc
  running : Pc
  leaving : Pc

-- `resumed` counts the calls of `_Resume`, `runs` those of the function, `continued` those of the
-- continuation. `is_over` is set when the function was left for good.
pub record Impl : Type 0 where
  pub invocations : ℕ
  pub threads : ℕ → Pc
  pub resumed : ℕ
  pub runs : ℕ
  pub continued : ℕ
  pub is_over : Bool

abbrev pub new_impl : Impl
new_impl = record {
  invocations = 0;
  threads = λ i. outside;
  resumed = 0;
  runs = 0;
  continued = 0;
  is_over = false;
}

abbrev pub run_function : ℕ → Impl → Impl
run_function i p = record p { threads = update p.threads i running; runs = suc p.runs }

abbrev pub leave : ℕ → Pc → Impl → Impl
leave i pc p = record p { threads = update p.threads i pc }

-- `_Resume`, to the test of `++_M_invocations`.
unfoldable pub resume : ℕ → Impl → Impl
resume i p =
    let counted = record p { invocations = suc p.invocations; resumed = suc p.resumed } in
    if suc p.invocations == 1 then run_function i counted else counted

-- The test of `_Is_complete` after the function has returned.
unfoldable pub return_from : ℕ → Bool → Impl → Impl
return_from i is_complete p =
    if is_complete
    then leave i outside (record p { continued = suc p.continued; is_over = true })
    else leave i leaving p

-- The test of `--_M_invocations`.
unfoldable pub finish_turn : ℕ → Impl → Impl
finish_turn i p =
    let counted = record p { invocations = p.invocations - 1 } in
    if p.invocations - 1 == 0 then leave i outside counted else run_function i counted

-- The function throws: the exception leaves `_Resume` as well.
unfoldable pub throw_from : ℕ → Impl → Impl
throw_from i p = leave i outside (record p { is_over = true })

-- `n` threads.
pub data Step (n : ℕ) (p : Impl) : Impl → Type 0 where
  resumes : (i : ℕ) → i < n → p.threads i ≡ outside → Step n p (resume i p)
  returns : (i : ℕ) (b : Bool) → i < n → p.threads i ≡ running → Step n p (return_from i b p)
  finishes : (i : ℕ) → i < n → p.threads i ≡ leaving → Step n p (finish_turn i p)
  throws : (i : ℕ) → i < n → p.threads i ≡ running → Step n p (throw_from i p)

pub data Reach (n : ℕ) : Impl → Type 0 where
  here : Reach n new_impl
  next : {p q : Impl} → Reach n p → Step n p q → Reach n q
