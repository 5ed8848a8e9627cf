-- ===== src/Yield/Handshake.antt =====
-- The coroutine and the handler of its operation.
use executors.Base.{
  ◌≡◌, ◌≢◌, refl, sym, ◌∙◌, List, [], ◌∷◌, ◌++◌, append-nil, Bool, true, false, Option, none, some,
  arith, ◌⊎◌,
}
use executors.Yield.{
  Coro, running, testing, yielding, suspended, taking, done, Pc, idle, pending, valued, locking,
  Yield, Result, launched, start_operation, set_value, handler_test, get_test, resume, Step, starts,
  sets, handler_tests, get_tests, yields, unlocks, resumes, takes, ends, Reach, here, next,
}

-- Where the handler can be, for the place of the coroutine and the flag of the result.
abbrev pub fits : Coro → Pc → Bool → Bool
fits running idle b = true
fits taking idle b = true
fits done idle b = true
fits testing idle b = b
fits testing pending false = true
fits testing valued false = true
fits yielding pending b = b
fits yielding valued b = b
fits yielding locking b = b
fits suspended pending b = b
fits suspended valued b = b
fits suspended locking b = b
fits c h b = false

-- The lock is held while the coroutine is entered.
abbrev pub holds : Coro → Bool → Bool
holds suspended b = true
holds done b = true
holds c b = b

-- The result that is set and not returned yet.
abbrev pub awaits : Coro → Bool
awaits running = false
awaits done = false
awaits c = true

abbrev pub has_value : Coro → Pc → Bool
has_value testing idle = true
has_value taking idle = true
has_value c valued = true
has_value c locking = true
has_value c h = false

abbrev pub in_flight : Bool → Option Result → List Result
in_flight false r = []
in_flight true none = []
in_flight true (some r) = r ∷ []

abbrev pub is_set : Option Result → Bool
is_set none = false
is_set (some r) = true

pub record IsShaken (y : Yield) : Type 0 where
  pub fit : fits y.coro y.handler y.is_ready ≡ true
  pub held : holds y.coro y.is_locked ≡ true
  pub valued : awaits y.coro ≡ true → is_set y.result ≡ has_value y.coro y.handler
  pub passed : y.got ++ in_flight (awaits y.coro) y.result ≡ y.given

Step-IsShaken : (y z : Yield) → Step y z → IsShaken y → IsShaken z
unfolding start_operation set_value handler_test get_test resume
Step-IsShaken y z (starts e) s = record {
  fit = refl;
  held = ground (arith, s.held, e);
  valued = λ a. refl;
  passed = ground (arith, s.passed, e);
}
Step-IsShaken y z (sets c a e) s = record {
  fit = ground (arith, s.fit, e);
  held = s.held;
  valued = λ w. ground (arith, s.fit, e, w);
  passed =
      let w : awaits y.coro ≡ true = ground (arith, s.fit, e) in
      let unset : is_set y.result ≡ false = ground (arith, s.fit, s.valued w, e) in
      let before : y.got ≡ y.given = sym (append-nil y.got) ∙ ground (arith, s.passed, w, unset) in
      ground (arith, before, w);
}
Step-IsShaken y z (handler_tests e) s = record {
  fit = ground (arith, s.fit, e);
  held = s.held;
  valued = λ w. ground (arith, s.fit, s.valued, e, w);
  passed = s.passed;
}
Step-IsShaken y z (get_tests e) s = record {
  fit = ground (arith, s.fit, e);
  held = ground (arith, s.held, e);
  valued = λ w. ground (arith, s.fit, s.valued, e, w);
  passed = ground (arith, s.passed, e);
}
Step-IsShaken y z (yields e) s = record {
  fit = ground (arith, s.fit, e);
  held = ground (arith, s.held, e);
  valued = λ w. ground (arith, s.fit, s.valued, e, w);
  passed = ground (arith, s.passed, e);
}
Step-IsShaken y z (unlocks e l) s = record {
  fit = s.fit;
  held = ground (arith, s.held, e);
  valued = s.valued;
  passed = s.passed;
}
Step-IsShaken y z (resumes e l) s = record {
  fit = refl;
  held = refl;
  valued = λ w. ground (arith, s.fit, s.held, s.valued, e, l, w);
  passed = ground (arith, s.fit, s.held, s.passed, e, l);
}
Step-IsShaken y z (takes {r} e e') s = record {
  fit = ground (arith, s.fit, e);
  held = ground (arith, s.held, e);
  valued = λ w. absurd (ground (arith, w));
  passed = append-nil (y.got ++ r ∷ []) ∙ ground (arith, s.passed, e, e');
}
Step-IsShaken y z (ends e) s = record {
  fit = ground (arith, s.fit, e);
  held = refl;
  valued = λ w. absurd (ground (arith, w));
  passed = ground (arith, s.passed, e);
}

start-IsShaken : IsShaken launched
start-IsShaken = record {
  fit = refl;
  held = refl;
  valued = λ w. absurd (ground (arith, w));
  passed = refl;
}

Reach-IsShaken : (y : Yield) → Reach y → IsShaken y
Reach-IsShaken y here = start-IsShaken
Reach-IsShaken z (next {y} r s) = Step-IsShaken y z s (Reach-IsShaken y r)

-- A handler that takes the lock to resume the coroutine finds it suspended, with a result that is set.
pub locking-IsSuspended :
    (y : Yield)
    → Reach y
    → y.handler ≡ locking
    → y.is_locked ≡ false
    → (y.coro ≡ suspended) × (is_set y.result ≡ true)
locking-IsSuspended y r h l =
    let s = Reach-IsShaken y r in
    let c : y.coro ≡ suspended = ground (arith, s.fit, s.held, h, l) in
    let w : awaits y.coro ≡ true = ground (arith, c) in (c, ground (arith, s.valued w, c, h))

-- While the coroutine is in its function or returns from `get`, no handler is before its test of the flag
-- or before the resumption: none uses a result that is gone, and none enters a coroutine that runs.
pub running-IsAlone :
    (y : Yield) → Reach y → (y.coro ≡ running) ⊎ (y.coro ≡ taking) → y.handler ≡ idle
running-IsAlone y r c = ground (arith, (Reach-IsShaken y r).fit, c)

-- When `get` goes on to `_Get`, the result is set.
pub taking-IsSet : (y : Yield) → Reach y → y.coro ≡ taking → is_set y.result ≡ true
taking-IsSet y r c =
    let s = Reach-IsShaken y r in
    let w : awaits y.coro ≡ true = ground (arith, c) in ground (arith, s.fit, s.valued w, c)

-- No wake-up is lost: a coroutine that is suspended has a handler that is still to be called or that is on
-- its way to resume it.
pub suspended-IsAwaited :
    (y : Yield) → Reach y → y.coro ≡ suspended → (y.handler ≢ idle) × (y.is_ready ≡ true)
suspended-IsAwaited y r c =
    let s = Reach-IsShaken y r in (λ h. ground (arith, s.fit, c, h), ground (arith, s.fit, c))

-- While the coroutine is in its function, `get` has returned all results that handlers have set, each
-- once and in order.
pub Reach-IsReturned : (y : Yield) → Reach y → y.coro ≡ running → y.got ≡ y.given
Reach-IsReturned y r c = sym (append-nil y.got) ∙ ground (arith, (Reach-IsShaken y r).passed, c)
