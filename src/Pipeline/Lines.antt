-- ===== src/Pipeline/Lines.antt =====
-- The stages of the program: `reader`, `filter`, `upper` and `writer`. A line is a list of characters.
-- The number that `writer` prints before a line is its place in what it prints.
use executors.Base.{
  ℕ, zero, suc, ◌≡◌, refl, List, [], ◌∷◌, arith, ltb, if◌then◌else◌, length, map, ap,
}
use executors.Pipeline.{Pipe, finished, Reach}
use executors.Pipeline.Content.{process_all, expected}
use executors.Pipeline.Order.{Reach-IsPrinted}

abbrev pub Line : Type 0
Line = List ℕ

abbrev pub filter : Line → List Line
filter line = if ltb 5 (length line) then line ∷ [] else []

-- `toupper` is that of the C library.
abbrev pub upper : (ℕ → ℕ) → Line → List Line
upper toupper line = map toupper line ∷ []

abbrev pub writer : Line → List Line
writer line = line ∷ []

unfoldable pub stages : (ℕ → ℕ) → ℕ → Line → List Line
stages toupper zero line = []
stages toupper (suc zero) line = filter line
stages toupper (suc (suc zero)) line = upper toupper line
stages toupper (suc (suc (suc j))) line = writer line

-- The lines that are long enough.
unfoldable pub long_lines : List Line → List Line
long_lines [] = []
long_lines (line ∷ lines) =
    if ltb 5 (length line) then line ∷ long_lines lines else long_lines lines

filter-all : (lines : List Line) → process_all filter lines ≡ long_lines lines
unfolding process_all long_lines
filter-all [] = refl
filter-all (line ∷ lines) = ground (arith, filter-all lines)

upper-all :
    (toupper : ℕ → ℕ) (lines : List Line)
    → process_all (upper toupper) lines ≡ map (map toupper) lines
unfolding process_all
upper-all toupper [] = refl
upper-all toupper (line ∷ lines) = ap (λ rest. map toupper line ∷ rest) (upper-all toupper lines)

writer-all : (lines : List Line) → process_all writer lines ≡ lines
unfolding process_all
writer-all [] = refl
writer-all (line ∷ lines) = ap (λ rest. line ∷ rest) (writer-all lines)

-- When `writer` has returned, it has printed the lines of the input that are longer than 5 characters, in
-- order, each with its characters changed by `toupper`.
pub pipeline_lem :
    (toupper : ℕ → ℕ) (input : List Line) (p : Pipe Line)
    → Reach (stages toupper) 3 input p
    → p.stages 3 ≡ finished
    → (p.queues 3).items ≡ map (map toupper) (long_lines input)
unfolding stages expected
pipeline_lem toupper input p r e =
    rw
      (
        Reach-IsPrinted (stages toupper) 3 input p r e,
        filter-all input,
        upper-all toupper (long_lines input),
        writer-all (map (map toupper) (long_lines input)),
      )
      refl
