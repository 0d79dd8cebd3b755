-- ===== src/Records/Correction.antt =====
-- What a correction makes of a record's fields and of its status.
use marriage_be.Prelude.{
  ℕ, String, true, Option, none, some, List, [], ◌∷◌, ◌==◌, ◌≡◌, refl, string_eq, any, all, arith,
  get, put, merge, get-put, eq_iff,
}
use marriage_be.Status.{pending_review, record_status_eq}
use marriage_be.Db.Rows.{OcrRecord, Value, Fields}
use marriage_be.Records.Repository.{is_nonempty}
use marriage_be.Records.Service.{corrected, still_missing, is_blank}

-- A dictionary has each key once.
abbrev IsDict : Fields → Type 0
IsDict [] = Unit {0}
IsDict ((k, v) ∷ m) = (get k m ≡ none) × IsDict m

abbrev pub over : Option Value → Option Value → Option Value
over (some v) w = some v
over none w = w

get-merge : (m n : Fields) (k : String) → IsDict n → get k (merge m n) ≡ over (get k n) (get k m)
unfolding get merge
get-merge m [] k h = refl
get-merge m ((j, v) ∷ n) k h =
    ground (arith, get-merge (put j v m) n k h.1, get-put j k v m, eq_iff j k, h.0)

all_still :
    (merged : Fields) (fields : List String)
    → all (λ field. is_blank (get field merged)) (still_missing merged fields) ≡ true
unfolding all still_missing
all_still merged [] = refl
all_still merged (f ∷ fields) = ground (arith, all_still merged fields)

none_missing :
    (merged : Fields) (fields : List String)
    → is_nonempty (still_missing merged fields) ≡ any (λ field. is_blank (get field merged)) fields
unfolding any still_missing
none_missing merged [] = refl
none_missing merged (f ∷ fields) = ground (arith, none_missing merged fields)

module _ (values : Fields) (reviewer : Option String) (now : ℕ) (r : OcrRecord) where
  -- A correction whose fields are distinct takes each of them over and keeps the others; afterwards the record waits
  -- for review exactly if one of its missing fields is still blank, and every field that stays
  -- listed as missing is blank.
  pub corrected_lem :
      IsDict values
      → let r' = corrected values reviewer now r in
        ((k : String) → get k r'.field_values ≡ over (get k values) (get k r.field_values))
        × ((r'.status == pending_review)
            ≡ any (λ field. is_blank (get field r'.field_values)) r.missing_fields)
        × (all (λ field. is_blank (get field r'.field_values)) r'.missing_fields ≡ true)
  unfolding corrected
  corrected_lem h = (
    λ k. get-merge r.field_values values k h,
    ground (arith, none_missing (merge r.field_values values) r.missing_fields),
    all_still (merge r.field_values values) r.missing_fields,
  )
