-- ===== src/Strand/Calls.antt =====
-- include/experimental/bits/call_stack.h: the contexts that a thread is in, the innermost first; and what
-- include/experimental/bits/strand.h decides by them. A key is the address of a `__strand_impl`, and a value
-- the address that is kept with it.
use executors.Base.{
  ℕ, ◌≡◌, ◌≢◌, refl, Option, none, some, Bool, true, false, List, [], ◌∷◌, ◌++◌, arith, ◌==◌, All,
  if◌then◌else◌, tail,
}
use executors.Strand.{Strand, accept, push_ready}

-- `__call_stack::__context`
pub record Context : Type 0 where
  pub key : ℕ
  pub value : ℕ

-- The constructor and the destructor of a context, on `_S_top`.
unfoldable pub enter : Context → List Context → List Context
enter c stack = c ∷ stack

unfoldable pub leave : List Context → List Context
leave stack = tail stack

-- `_Contains` and `_Top`
unfoldable pub contains : ℕ → List Context → Option ℕ
contains k [] = none
contains k (c ∷ cs) = let rest = contains k cs in if c.key == k then some c.value else rest

unfoldable pub top : List Context → Option ℕ
top [] = none
top (c ∷ cs) = some c.value

-- `running_in_this_thread`
abbrev is_some : Option ℕ → Bool
is_some none = false
is_some (some v) = true

unfoldable pub running_in_this_thread : ℕ → List Context → Bool
unfolding contains
running_in_this_thread impl stack = is_some (contains impl stack)

-- What `dispatch` comes to: it calls the function itself, or leaves the operation to an invoker that is
-- scheduled or at work, or pushes it and schedules the invoker.
pub data Dispatch : Type 0 where
  called : ℕ → Dispatch
  queued : Dispatch
  scheduled : Dispatch

unfoldable pub dispatch : ℕ → ℕ → List Context → Strand → Strand × Dispatch
unfolding running_in_this_thread accept push_ready
dispatch impl op stack s =
    let (t, first) = accept op s in
    if running_in_this_thread impl stack
    then (s, called op)
    else if first
    then (push_ready op t, scheduled)
    else (t, queued)

-- `_Contains` gives the value of the innermost context with the key: those before it have others.
pub contains-append :
    (k : ℕ) (c : Context) (inner outer : List Context)
    → All (λ d. d.key ≢ k) inner
    → c.key ≡ k
    → contains k (inner ++ c ∷ outer) ≡ some c.value
unfolding contains
contains-append k c [] outer a e = ground (arith, e)
contains-append k c (d ∷ ds) outer a e = ground (arith, a.0, contains-append k c ds outer a.1 e)

-- A thread with no context of the strand does not run in it.
pub contains-none :
    (k : ℕ) (stack : List Context) → All (λ d. d.key ≢ k) stack → contains k stack ≡ none
unfolding contains
contains-none k [] a = refl
contains-none k (d ∷ ds) a = ground (arith, a.0, contains-none k ds a.1)

running_inside :
    (k : ℕ) (c : Context) (inner outer : List Context)
    → c.key ≡ k
    → running_in_this_thread k (inner ++ c ∷ outer) ≡ true
unfolding running_in_this_thread contains
running_inside k c [] outer e = ground (arith, e)
running_inside k c (d ∷ ds) outer e = ground (arith, running_inside k c ds outer e)

-- From inside the strand, however deep, `dispatch` calls the function itself and leaves the strand alone.
pub dispatch-called :
    (k op : ℕ) (c : Context) (inner outer : List Context) (s : Strand)
    → c.key ≡ k
    → dispatch k op (inner ++ c ∷ outer) s ≡ (s, called op)
unfolding dispatch
dispatch-called k op c inner outer s e = ground (arith, running_inside k c inner outer e)
