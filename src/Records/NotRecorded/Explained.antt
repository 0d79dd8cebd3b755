-- ===== src/Records/NotRecorded/Explained.antt =====
-- What a resolution approves, and what an export makes of it.
use marriage_be.Prelude.{
  String, Bool, true, false, ◌&&◌, ◌||◌, not, Option, none, some, List, [], ◌∷◌, ◌==◌, ◌≡◌, refl,
  ◌∙◌, all, any, get, put, merge, mem, is_some, string_eq, Bool-cases, Option-cases, inl, inr,
}
use marriage_be.Db.Rows.{Fields, OcrRecord, Note, issues, originals}
use marriage_be.Exports.{Row, effective_values}
use marriage_be.Exports.Table.{names}
use marriage_be.Records.NotRecorded.{
  Texts, State, Resolution, resolution_of, explain, explain_all, resolve, rm_prefix_issue,
  cross_reference_issue, ic_issues, explained_by, is_pointer_to_other_book, is_blank_entry,
}

-- The issue is in none of the tables.
abbrev pub is_unknown : String → Bool
is_unknown issue =
    not (issue == rm_prefix_issue)
    && not (is_some (get issue ic_issues))
    && not (is_some (get issue explained_by))

none_of {ℓ} : {A : Type ℓ} (o : Option A) → is_some o ≡ false → o ≡ none
none_of none h = refl
none_of (some a) h = cc

three_fail :
    (a b c : Bool) → (not a && not b && not c) ≡ true → (a ≡ false) × (b ≡ false) × (c ≡ false)
three_fail false false false h = (refl, refl, refl)
three_fail true b c h = cc
three_fail false true c h = cc
three_fail false false true h = cc

unknown_stays :
    (t : Texts) (issue : String) (state : State)
    → is_unknown issue ≡ true
    → explain t issue state ≡ none
unfolding explain
unknown_stays t issue state h =
    let (rm, ic, book) = three_fail _ _ _ h in
    rw (explain, rm, none_of (get issue ic_issues) ic, none_of (get issue explained_by) book) refl

explain_all-stop :
    (t : Texts) (i : String) (rest : List String) (state : State)
    → explain t i state ≡ none
    → explain_all t (i ∷ rest) state ≡ none
unfolding explain_all
explain_all-stop t i rest state h = rw (explain_all, h) refl

explain_all-go :
    (t : Texts) (i : String) (rest : List String) (state state' : State)
    → explain t i state ≡ some state'
    → explain_all t (i ∷ rest) state ≡ explain_all t rest state'
unfolding explain_all
explain_all-go t i rest state state' h = rw (explain_all, h) refl

explain_all-none :
    (t : Texts) (found : List String) (state : State)
    → any is_unknown found ≡ true
    → explain_all t found state ≡ none
unfolding any
explain_all-none t [] state h = cc
explain_all-none t (i ∷ rest) state h = elim (Option-cases (explain t i state)) [
  | inl stops ↦ explain_all-stop t i rest state stops
  | inr (state', goes) ↦ elim (Bool-cases (is_unknown i)) [
    | inl unknown ↦ explain_all-stop t i rest state (unknown_stays t i state unknown)
    | inr known ↦
        explain_all-go t i rest state state' goes ∙ explain_all-none t rest state' (rw known at h)
  ]
]

-- A record with an issue that is in none of the tables stays in review, unless it is one of the
-- rows that hold nothing: all its issues are the cross-reference note, it points at another book,
-- or it was never filled in.
pub resolve-unknown :
    (t : Texts) (values : Fields) (found : List String) (normalized : List (String × Note))
    → any is_unknown found ≡ true
    → all (λ i. i == cross_reference_issue) found ≡ false
    → (is_pointer_to_other_book t values || is_blank_entry t values) ≡ false
    → resolve t values found normalized ≡ none
unfolding resolve
resolve-unknown t values [] normalized h holds fails = refl
resolve-unknown t values (i ∷ rest) normalized h cross hollow =
    rw (resolve, cross, hollow, explain_all-none t (i ∷ rest) ([], values) h) refl

abbrev audit_keys : List String
audit_keys = "auto_approved_not_recorded" ∷ "auto_approved_original_values" ∷ []

-- every column of the row is one of the audit's
abbrev is_audit : Row → Bool
is_audit row = all (λ key. mem key audit_keys) (names row)

-- The record, as it is imported with a resolution, shows nothing but the audit in an export.
abbrev pub ShowsAudit : Option Resolution → Type 0
ShowsAudit none = Unit
ShowsAudit (some (values, audit)) =
    (r : OcrRecord)
    → r.field_values ≡ values
    → r.normalized_data ≡ audit
    → r.corrected_data ≡ []
    → is_audit (effective_values r) ≡ true

shows_issues :
    (r : OcrRecord) (found : List String)
    → r.normalized_data ≡ ("auto_approved_not_recorded", issues found) ∷ []
    → r.corrected_data ≡ []
    → is_audit (effective_values r) ≡ true
unfolding effective_values merge put all
shows_issues r found e c = rw (effective_values, e, c) refl

shows_originals :
    (r : OcrRecord) (found : List String) (o : Fields)
    → r.normalized_data
      ≡ ("auto_approved_not_recorded", issues found)
        ∷ ("auto_approved_original_values", originals o)
        ∷ []
    → r.corrected_data ≡ []
    → is_audit (effective_values r) ≡ true
unfolding effective_values merge put all
shows_originals r found o e c = rw (effective_values, e, c) refl

explained-ShowsAudit :
    (found : List String) (state : Option State) → ShowsAudit (resolution_of found [] state)
unfolding put
explained-ShowsAudit found none = tt
explained-ShowsAudit found (some ([], values)) = λ r fields e c. shows_issues r found e c
explained-ShowsAudit found (some (o ∷ os, values)) =
    λ r fields e c. shows_originals r found (o ∷ os) e c

-- A record that is imported with the resolution of its issues, as the importer stores it, and that
-- no reviewer corrected, has in an export no column but those of the audit: none of its field
-- values is exported.
pub resolve-ShowsAudit :
    (t : Texts) (values : Fields) (found : List String) → ShowsAudit (resolve t values found [])
unfolding resolve put
resolve-ShowsAudit t values [] = tt
resolve-ShowsAudit t values (i ∷ rest) =
    elim (Bool-cases (all (λ j. j == cross_reference_issue) (i ∷ rest))) [
      | inl cross ↦ rw cross (λ r fields e c. shows_issues r (i ∷ rest) e c)
      | inr other ↦
          elim (Bool-cases (is_pointer_to_other_book t values || is_blank_entry t values)) [
            | inl hollow ↦ rw (other, hollow) (λ r fields e c. shows_issues r (i ∷ rest) e c)
            | inr full ↦
                rw (other, full)
                  (explained-ShowsAudit (i ∷ rest) (explain_all t (i ∷ rest) ([], values)))
          ]
    ]
