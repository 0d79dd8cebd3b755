-- ===== src/Onedrive/Fetch/Stacks/Total.antt =====
-- onedrive/service.py, _classify_files: which files have a verdict.
use marriage_be.Prelude.{
  Bool, true, ◌||◌, some, List, ◌∷◌, ◌==◌, ◌≡◌, any, get, length, is_some, string_eq, nat_eq, ◌⊎◌,
}
use marriage_be.Db.Result.{Error, Result, ok, err}
use marriage_be.Onedrive.Classification.{File, Classification}
use marriage_be.Onedrive.Fetch.Stacks.{Runner, Verdicts}

abbrev at : File → File → Bool
at f g = g.path == f.path

abbrev pub has_verdict : Verdicts → File → Bool
has_verdict results f = is_some (get f.path results)

-- The file has its verdict, or one of the list is to get it.
abbrev covered : List File → Verdicts → File → Bool
covered files results f = any (at f) files || has_verdict results f

-- The exception is one that the classifier raised, for a file or for a stack.
abbrev pub IsRaised : Runner → Error → Type 0
IsRaised r e =
    ((file : File) × (r.classify file ≡ err e))
    ⊎ ((stack : List File) × (r.classify_stack stack ≡ err e))

-- The call returns something with the property, or it ends with an exception of the classifier.
abbrev pub Gives {ℓ} : {A : Type ℓ} → Runner → (A → Type 0) → Result A → Type 0
Gives r P (err e) = IsRaised r e
Gives r P (ok a) = P a

abbrev Covers : List File → Verdicts → Verdicts → Type 0
Covers files results results' =
    (f : File) → covered files results f ≡ true → has_verdict results' f ≡ true

module _ (r : Runner)
    (honest : (stack : List File) (cs : List Classification)
      → r.classify_stack stack ≡ ok (some cs)
      → length cs ≡ length stack) where
  -- What a turn leaves on the stack and in the results.
  abbrev Moves : File → List File × Verdicts → List File × Verdicts → Type 0
  Moves g (stack, results) (stack', results') =
      (f : File) → covered (g ∷ stack) results f ≡ true → covered stack' results' f ≡ true
