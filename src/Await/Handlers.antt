-- ===== src/Await/Handlers.antt =====
-- The handlers that resume a coroutine, and what they leave for it. An error code is a number, and 0 is no
-- error; variables have numbers as well. A handler has at most one result.
use executors.Base.{ℕ, suc, ◌≡◌, Option, none, some, ◌==◌, if◌then◌else◌, update, ◌>>=◌}

-- What `rethrow_exception` throws; `exception_of` is an exception whose object is an `exception_ptr`.
pub data Exception : Type 0 where
  system_error : ℕ → Exception
  other : ℕ → Exception
  exception_of : Exception → Exception

-- The fields of an `__await_context_impl_base`, with its coroutine's resumptions.
pub record Shared : Type 0 where
  pub ex : Option Exception
  pub result_ec : Option ℕ
  pub result_value : Option ℕ
  pub resumed : ℕ

-- `codes` are the error codes and `values` the variables that pointers lead to.
pub record World : Type 0 where
  pub impls : ℕ → Shared
  pub codes : ℕ → ℕ
  pub values : ℕ → ℕ

abbrev pub new_shared : Shared
new_shared = record { ex = none; result_ec = none; result_value = none; resumed = 0 }

pub record Context : Type 0 where
  pub impl : ℕ
  pub error_code : Option ℕ

pub record ContextHandler : Type 0 where
  pub impl : ℕ

-- `operator[]` of a context.
unfoldable pub with_error_code : ℕ → Context → Context
with_error_code ec c = record c { error_code = some ec }

-- The constructor of a handler.
unfoldable pub make_handler : Context → ContextHandler
make_handler c = record { impl = c.impl }

abbrev pub set_impl : ℕ → Shared → World → World
set_impl i s w = record w { impls = update w.impls i s }

-- `_Set_value`: a null pointer is not written to.
unfoldable pub set_value : ℕ → Option ℕ → World → Option World
set_value i none w = some w
set_value i (some v) w = elim (w.impls i).result_value [
  | none ↦ none
  | some a ↦ some (record w { values = update w.values a v })
]

unfoldable pub resume : ℕ → World → World
resume i w = set_impl i (record (w.impls i) { resumed = suc (w.impls i).resumed }) w

-- The first lines of the call with an error code.
abbrev pub put_error : ℕ → ℕ → World → World
put_error i e w = elim (w.impls i).result_ec [
  | some p ↦ record w { codes = update w.codes p e }
  | none ↦ if e == 0 then w else set_impl i (record (w.impls i) { ex = some (system_error e) }) w
]

abbrev pub put_exception : ℕ → Option Exception → World → World
put_exception i none w = w
put_exception i (some x) w = set_impl i (record (w.impls i) { ex = some (exception_of x) }) w

-- The calls of the three kinds of handlers.
unfoldable pub complete_values : ContextHandler → Option ℕ → World → Option World
unfolding set_value resume
complete_values h v w = do u ← set_value h.impl v w; some (resume h.impl u)

unfoldable pub complete_error : ContextHandler → ℕ → Option ℕ → World → Option World
unfolding set_value resume
complete_error h e v w = do u ← set_value h.impl v (put_error h.impl e w); some (resume h.impl u)

unfoldable pub complete_exception :
    ContextHandler → Option Exception → Option ℕ → World → Option World
unfolding set_value resume
complete_exception h x v w = do
  u ← set_value h.impl v (put_exception h.impl x w)
  some (resume h.impl u)

-- `operator&` of a `__coroutine_ref` and a variable.
unfoldable pub capture : ℕ → ℕ → World → World
capture i a w = set_impl i (record (w.impls i) { result_value = some a }) w

-- What an `await` throws when it is resumed.
abbrev pub rethrow : ℕ → World → Option Exception
rethrow i w = (w.impls i).ex

-- A function that a handler's executor runs threw `x`.
unfoldable pub catch_all : ℕ → Exception → World → World
catch_all i x w = set_impl i (record (w.impls i) { ex = some x }) w

pub data Step (w : World) : World → Type 0 where
  completes_values :
      (h : ContextHandler) (v : Option ℕ) {u : World} → complete_values h v w ≡ some u → Step w u
  completes_error :
      (h : ContextHandler) (e : ℕ) (v : Option ℕ) {u : World}
      → complete_error h e v w ≡ some u
      → Step w u
  completes_exception :
      (h : ContextHandler) (x : Option Exception) (v : Option ℕ) {u : World}
      → complete_exception h x v w ≡ some u
      → Step w u
  captures : (i a : ℕ) → Step w (capture i a w)
  catches : (i : ℕ) (x : Exception) → Step w (catch_all i x w)

pub data Reach : World → Type 0 where
  here :
      (codes values : ℕ → ℕ)
      → Reach (record { impls = λ i. new_shared; codes = codes; values = values })
  next : {w u : World} → Reach w → Step w u → Reach u
