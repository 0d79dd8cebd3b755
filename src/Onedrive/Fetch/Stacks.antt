-- ===== src/Onedrive/Fetch/Stacks.antt =====
-- onedrive/service.py: _classify_files, which shows several images to the classifier at a time.
pub mod Total
use marriage_be.Prelude.{
  ℕ, ◌+◌, String, Bool, true, false, ◌&&◌, ◌||◌, not, Option, none, some, List, [], ◌∷◌, ◌++◌, ◌==◌,
  leb, length, put, nat_eq, string_eq, if◌then◌else◌,
}
use marriage_be.Db.Result.{Result, ok, err, ◌>>=◌, value_error}
use marriage_be.Onedrive.Classification.{File, Classification}

-- The settings, the saved answers, and what the classifier answers for a file or for a stack of
-- them: a classification, `none` for a ClassifyError, or any other exception, such as a timeout of
-- the subprocess or a key that its answer lacks.
pub record Runner : Type 0 where
  pub stack_size : ℕ
  pub stack_pdfs : Bool
  pub cached : File → Option Classification
  pub classify : File → Result (Option Classification)
  pub classify_stack : List File → Result (Option (List Classification))

-- by path: a classification, or that it failed
abbrev pub Verdicts : Type 0
Verdicts = List (String × Option Classification)

unfoldable pub classify_one : Runner → Verdicts → File → Result Verdicts
unfolding put
classify_one r results file = r.classify file >>= λ verdict. ok (put file.path verdict results)

unfoldable pub classify_each : Runner → Verdicts → List File → Result Verdicts
unfolding classify_one
classify_each r results [] = ok results
classify_each r results (file ∷ files) =
    classify_one r results file >>= λ results1. classify_each r results1 files

-- `zip(..., strict=True)` raises where one list ends before the other
unfoldable pub remember_all : Verdicts → List File → List Classification → Result Verdicts
unfolding put
remember_all results [] [] = ok results
remember_all results [] (c ∷ cs) = err value_error
remember_all results (file ∷ files) [] = err value_error
remember_all results (file ∷ files) (c ∷ cs) =
    remember_all (put file.path (some c) results) files cs

abbrev pub stacked : Runner → Verdicts → List File → Option (List Classification) → Result Verdicts
stacked r results stack none = classify_each r results stack
stacked r results stack (some cs) = remember_all results stack cs

unfoldable pub flush : Runner → Verdicts → List File → Result Verdicts
unfolding classify_one classify_each remember_all
flush r results [] = ok results
flush r results (file ∷ []) = classify_one r results file
flush r results (file ∷ other ∷ stack) =
    r.classify_stack (file ∷ other ∷ stack) >>= stacked r results (file ∷ other ∷ stack)

abbrev pub is_alone : Runner → File → Bool
is_alone r file = leb r.stack_size 1 || (file.extension == ".pdf" && not r.stack_pdfs)

-- one turn of the loop, on the stack and the results
unfoldable pub turn : Runner → File → List File × Verdicts → Result (List File × Verdicts)
unfolding flush classify_one
turn r file (stack, results) =
    if is_alone r file
    then classify_one r results file >>= (λ results1. ok (stack, results1))
    else if length (stack ++ file ∷ []) == r.stack_size
    then flush r results (stack ++ file ∷ []) >>= (λ results'. ok ([], results'))
    else ok (stack ++ file ∷ [], results)

unfoldable pub turns : Runner → List File → List File × Verdicts → Result Verdicts
unfolding turn
turns r [] (stack, results) = flush r results stack
turns r (file ∷ files) state = turn r file state >>= turns r files

abbrev pub from_cache : File → Option Classification → List File × Verdicts → List File × Verdicts
from_cache file none (pending, results) = (file ∷ pending, results)
from_cache file (some c) (pending, results) = (pending, put file.path (some c) results)

-- the files without a saved answer, and the answers of the others
unfoldable pub look_up : Runner → List File → Verdicts → List File × Verdicts
unfolding put
look_up r [] results = ([], results)
look_up r (file ∷ files) results = from_cache file (r.cached file) (look_up r files results)

unfoldable pub classify_files : Runner → List File → Result Verdicts
unfolding turns look_up
classify_files r files =
    let (pending, results) = look_up r files [] in turns r pending ([], results)
