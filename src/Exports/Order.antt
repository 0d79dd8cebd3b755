-- ===== src/Exports/Order.antt =====
-- The ORDER BY of an export: five columns, the nullable ones with their nulls last.
use marriage_be.Prelude.{
  ℕ, Bool, true, false, ◌&&◌, ◌||◌, Option, none, some, List, [], ◌∷◌, ◌≡◌, refl, arith, ltb,
  option_beq, nat_eq,
}
use marriage_be.Db.Rows.{OcrRecord}

-- null is greater than every number
abbrev pub less : Option ℕ → Option ℕ → Bool
less none _ = false
less (some a) none = true
less (some a) (some b) = ltb a b

unfoldable pub lex : List (Option ℕ) → List (Option ℕ) → Bool
lex [] _ = true
lex (a ∷ rest) [] = false
lex (a ∷ rest) (b ∷ bs) = less a b || (option_beq a b && lex rest bs)

unfoldable pub sort_key : OcrRecord → List (Option ℕ)
sort_key r =
    r.document_id ∷ r.source_page ∷ some r.source_record_index ∷ some r.created_at ∷ some r.id ∷ []

unfoldable pub before : OcrRecord → OcrRecord → Bool
unfolding lex sort_key
before r s = lex (sort_key r) (sort_key s)

lex-total : (xs ys : List (Option ℕ)) → lex xs ys ≡ false → lex ys xs ≡ true
unfolding lex
lex-total [] ys h = cc
lex-total (x ∷ xs) [] h = refl
lex-total (none ∷ xs) (none ∷ ys) h = lex-total xs ys h
lex-total (none ∷ xs) (some b ∷ ys) h = refl
lex-total (some a ∷ xs) (none ∷ ys) h = cc
lex-total (some a ∷ xs) (some b ∷ ys) h = ground (arith, lex-total xs ys)

lex-transitive :
    (xs ys zs : List (Option ℕ)) → lex xs ys ≡ true → lex ys zs ≡ true → lex xs zs ≡ true
unfolding lex
lex-transitive [] ys zs h k = refl
lex-transitive (x ∷ xs) [] zs h k = cc
lex-transitive (x ∷ xs) (y ∷ ys) [] h k = cc
lex-transitive (none ∷ xs) (none ∷ ys) (none ∷ zs) h k = lex-transitive xs ys zs h k
lex-transitive (none ∷ xs) (none ∷ ys) (some c ∷ zs) h k = k
lex-transitive (none ∷ xs) (some b ∷ ys) zs h k = cc
lex-transitive (some a ∷ xs) (none ∷ ys) (none ∷ zs) h k = refl
lex-transitive (some a ∷ xs) (none ∷ ys) (some c ∷ zs) h k = cc
lex-transitive (some a ∷ xs) (some b ∷ ys) (none ∷ zs) h k = refl
lex-transitive (some a ∷ xs) (some b ∷ ys) (some c ∷ zs) h k =
    ground (arith, lex-transitive xs ys zs)

pub before-total : (r s : OcrRecord) → before r s ≡ false → before s r ≡ true
unfolding before
before-total r s h = lex-total (sort_key r) (sort_key s) h

pub before-transitive :
    (r s t : OcrRecord) → before r s ≡ true → before s t ≡ true → before r t ≡ true
unfolding before
before-transitive r s t h k = lex-transitive (sort_key r) (sort_key s) (sort_key t) h k
