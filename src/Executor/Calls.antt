-- ===== src/Executor/Calls.antt =====
-- include/experimental/bits/executor.h: the calls on an executor that pass a function to its target, and
-- those that observe it. The equality of two targets of one type is their own `operator==`, so it is a
-- parameter. `none` is undefined behaviour.
use executors.Base.{
  ℕ, Option, none, some, Bool, true, false, ◌==◌, if◌then◌else◌, ◌>>=◌, List, ◌∷◌, [], not,
}
use executors.Executor.{Target, Cell, deleted, counted, World, bad, system, on}

-- The type-erased function of an `__function_ptr`, and null.
abbrev pub FunctionPtr : Type 0
FunctionPtr = Option ℕ

-- What becomes of functions.
pub data Event : Type 0 where
  invoked : ℕ → Event
  destroyed : ℕ → Event

-- `__function_ptr(__function_ptr&&)` gives the new one and what is left of the old one.
unfoldable pub move_ptr : FunctionPtr → FunctionPtr × FunctionPtr
move_ptr f = (f, none)

-- `~__function_ptr`
unfoldable pub drop_ptr : FunctionPtr → List Event
drop_ptr none = []
drop_ptr (some f) = destroyed f ∷ []

-- `__function_ptr::operator()`
unfoldable pub call_ptr : FunctionPtr → Option (FunctionPtr × List Event)
call_ptr none = none
call_ptr (some f) = some (none, invoked f ∷ [])

-- `dispatch`, `post` and `defer`
pub data How : Type 0 where
  dispatched : How
  posted : How
  deferred : How

pub data Receiver : Type 0 where
  the_system : Receiver
  the_target : Target → Receiver

-- Who gets the function, as it is or in an `__function_ptr`; or the exception `bad_executor`, and what
-- becomes of the `__function_ptr`.
pub data Outcome : Type 0 where
  direct : Receiver → How → ℕ → Outcome
  wrapped : Receiver → How → FunctionPtr → Outcome
  thrown : List Event → Outcome

-- `_Dispatch`, `_Post` and `_Defer`
abbrev pub pass_target : Cell → How → FunctionPtr → Option Outcome
pass_target deleted how f = none
pass_target (counted t k) how f = some (wrapped (the_target t) how f)

unfoldable pub pass : ℕ → How → FunctionPtr → World → Option Outcome
unfolding drop_ptr
pass p how f w =
    if p == bad
    then some (thrown (drop_ptr f))
    else if p == system
    then some (wrapped the_system how f)
    else pass_target (w.cell p) how f

unfoldable pub submit : How → ℕ → ℕ → World → Option Outcome
unfolding pass
submit dispatched i f w = on i w (
    if w.holds i == system
    then some (direct the_system dispatched f)
    else pass (w.holds i) dispatched (some f) w)
submit posted i f w = on i w (pass (w.holds i) posted (some f) w)
submit deferred i f w = on i w (pass (w.holds i) deferred (some f) w)

-- `on_work_started` and `on_work_finished`: what is called, of whom. That of the system executor calls
-- `on_work_started` in both, which does nothing.
pub data WorkCall : Type 0 where
  no_call : WorkCall
  started_work : Receiver → WorkCall
  finished_work : Receiver → WorkCall

abbrev pub work_target : Cell → (Receiver → WorkCall) → Option WorkCall
work_target deleted call = none
work_target (counted t k) call = some (call (the_target t))

unfoldable pub work_started : ℕ → World → Option WorkCall
work_started i w = on i w (
    if w.holds i == bad
    then some no_call
    else if w.holds i == system
    then some (started_work the_system)
    else work_target (w.cell (w.holds i)) started_work)

unfoldable pub work_finished : ℕ → World → Option WorkCall
work_finished i w = on i w (
    if w.holds i == bad
    then some no_call
    else if w.holds i == system
    then some (started_work the_system)
    else work_target (w.cell (w.holds i)) finished_work)

-- `typeid(void)`, and `typeid(system_executor)`
abbrev pub void_type : ℕ
void_type = 0

abbrev pub system_type : ℕ
system_type = 1

-- `_Target_type`
abbrev pub type_cell : Cell → Option ℕ
type_cell deleted = none
type_cell (counted t k) = some t.type_id

unfoldable pub type_at : ℕ → World → Option ℕ
type_at p w =
    if p == bad
    then some void_type
    else if p == system
    then some system_type
    else type_cell (w.cell p)

unfoldable pub target_type : ℕ → World → Option ℕ
unfolding type_at
target_type i w = on i w (type_at (w.holds i) w)

-- `explicit operator bool`, and the comparison with `nullptr`
unfoldable pub has_target : ℕ → World → Option Bool
has_target i w = on i w (some (not (w.holds i == bad)))

unfoldable pub equals_null : ℕ → World → Option Bool
unfolding has_target
equals_null i w = has_target i w >>= λ b. some (not b)

-- `_Equals` of the implementation at `p`, whose target is `t`, with that at `q`: when the types are the
-- same, the `_Target()` of `q` is read as one of this type.
abbrev pub equals_cell : (ℕ → ℕ → ℕ → Bool) → Target → Cell → Option Bool
equals_cell same t deleted = none
equals_cell same t (counted u k) = some (same t.type_id t.value u.value)

unfoldable pub equals_target : (ℕ → ℕ → ℕ → Bool) → Cell → ℕ → ℕ → World → Option Bool
unfolding type_at
equals_target same deleted p q w = none
equals_target same (counted t k) p q w =
    if p == q
    then some true
    else (type_at q w >>= λ type.
        if t.type_id == type then equals_cell same t (w.cell q) else some false)

unfoldable pub equals_at : (ℕ → ℕ → ℕ → Bool) → ℕ → ℕ → World → Option Bool
unfolding equals_target
equals_at same p q w =
    if p == bad
    then some false
    else if p == system
    then some (q == system)
    else equals_target same (w.cell p) p q w

-- `operator==`
unfoldable pub equals : (ℕ → ℕ → ℕ → Bool) → ℕ → ℕ → World → Option Bool
unfolding equals_at
equals same i j w = on i w (on j w (equals_at same (w.holds i) (w.holds j) w))
