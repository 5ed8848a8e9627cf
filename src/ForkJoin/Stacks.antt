-- ===== src/ForkJoin/Stacks.antt =====
-- The stacks of calls of the threads of a `fork_join_pool`.
use executors.Base.{ℕ, ◌≡◌, refl, List, [], ◌∷◌, Bool, true, false, ◌||◌, arith}
use executors.ForkJoin.{
  Role, Pc, checking, sleeping, executing, Frame, Pool, wants, wake, is_sleeping, IsFree,
}

-- Below the innermost call, there are functions that are executed.
abbrev pub IsExecuting : List Frame → Type 0
IsExecuting [] = Unit
IsExecuting (f ∷ fs) = ((g : ℕ) × (f.pc ≡ executing g)) × IsExecuting fs

abbrev pub IsShaped : List Frame → Type 0
IsShaped [] = Unit
IsShaped (f ∷ fs) = IsExecuting fs

-- Some loop of the thread would go on.
abbrev pub any_wants : Pool → List Frame → Bool
any_wants p [] = false
any_wants p (f ∷ fs) = wants f.who p || any_wants p fs

-- A thread that sleeps would go on.
abbrev pub IsRestful : Pool → List Frame → Type 0
IsRestful p [] = Unit
IsRestful p (f ∷ fs) = f.pc ≡ sleeping → wants f.who p ≡ true

-- The thread is not in `wait`, and will come to the queue before it leaves the pool.
abbrev pub IsAlert : Pool → List Frame → Type 0
IsAlert p fs = (is_sleeping fs ≡ false) × (any_wants p fs ≡ true)

-- What a role wants of one pool, it wants of another.
abbrev pub StillWants : Pool → Pool → Type 0
StillWants p q = (who : Role) → wants who p ≡ true → wants who q ≡ true

pub wants-any_wants :
    (p q : Pool) (fs : List Frame) → StillWants p q → any_wants p fs ≡ true → any_wants q fs ≡ true
wants-any_wants p q [] h e = e
wants-any_wants p q (f ∷ fs) h e = ground (arith, h f.who, wants-any_wants p q fs h)

pub wants-IsRestful :
    (p q : Pool) (fs : List Frame) → StillWants p q → IsRestful p fs → IsRestful q fs
wants-IsRestful p q [] h r = r
wants-IsRestful p q (f ∷ fs) h r = λ e. h f.who (r e)

pub wake-IsShaped : (fs : List Frame) → IsShaped fs → IsShaped (wake fs)
wake-IsShaped [] s = s
wake-IsShaped (f ∷ fs) s = s

pub wake-is_sleeping : (fs : List Frame) → is_sleeping (wake fs) ≡ false
wake-is_sleeping [] = refl
wake-is_sleeping (f ∷ fs) = go f.pc refl
  where
    go : (pc : Pc) → f.pc ≡ pc → is_sleeping (wake (f ∷ fs)) ≡ false
    go checking e = ground (arith, e)
    go sleeping e = ground (arith, e)
    go (executing g) e = ground (arith, e)

pub wake-any_wants : (p : Pool) (fs : List Frame) → any_wants p (wake fs) ≡ any_wants p fs
wake-any_wants p [] = refl
wake-any_wants p (f ∷ fs) = refl

-- A thread that does not sleep rests as it is.
pub awake-IsRestful : (p : Pool) (fs : List Frame) → is_sleeping fs ≡ false → IsRestful p fs
awake-IsRestful p [] e = tt
awake-IsRestful p (f ∷ fs) e = λ h. ground (arith, h)

pub restful-any_wants :
    (p : Pool) (fs : List Frame) → is_sleeping fs ≡ true → IsRestful p fs → any_wants p fs ≡ true
restful-any_wants p [] e r = ground arith
restful-any_wants p (f ∷ fs) e r = go f.pc refl
  where
    go : (pc : Pc) → f.pc ≡ pc → any_wants p (f ∷ fs) ≡ true
    go checking h = ground (arith, h)
    go sleeping h = ground (arith, r h)
    go (executing g) h = ground (arith, h)

pub executing-is_sleeping : (fs : List Frame) → IsExecuting fs → is_sleeping fs ≡ false
executing-is_sleeping [] e = refl
executing-is_sleeping (f ∷ fs) ((g, h), e) = ground (arith, h)

pub executing-IsShaped : (fs : List Frame) → IsExecuting fs → IsShaped fs
executing-IsShaped [] e = tt
executing-IsShaped (f ∷ fs) e = e.1

-- A call from a function.
pub free-IsExecuting : (fs : List Frame) → IsFree fs → IsShaped fs → IsExecuting fs
free-IsExecuting [] f s = tt
free-IsExecuting (x ∷ xs) f s = (f, s)
