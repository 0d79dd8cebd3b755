-- ===== src/Examples/Records.antt =====
-- Two reviewers of one record, and a row that is imported twice.
use mathlib.Core.Path.{subst}
use marriage_be.Prelude.{
  String, true, select, none, some, List, [], ◌∷◌, ◌==◌, ◌≡◌, refl, arith, any, all, get,
  Bool-cases, inl, inr, some_inj, none≢some, nat_eq, string_eq,
}
use marriage_be.Status.{pending_review, record_status_eq}
use marriage_be.Db.Rows.{OcrRecord, Fields, Db, text}
use marriage_be.Db.Result.{ok, err, record_conflict, record_exists}
use marriage_be.Records.Repository.{
  get_record, Payload, has_key, payload_key, create_record_if_missing,
}
use marriage_be.Records.Service.{
  apply_correction, approve_record, bulk_approve_records, corrected, is_blank,
}
use marriage_be.Records.History.{HasHistory, IsAudited}
use marriage_be.Records.Review.{
  IsReviewed, apply_correction_accepted, approve_record_accepted, approved_row,
  second_review_conflicts,
}
use marriage_be.Records.Bulk.{AreApproved, bulk_approve_records-AreApproved}
use marriage_be.Records.Creation.{IsImported, create_record_if_missing_lem}
use marriage_be.Records.Correction.{over, corrected_lem}
use marriage_be.Records.Audit
use marriage_be.Records.Audit.{perform_all-IsAudited}
use marriage_be.Records.Repository.{new_record, can_insert, create_record}
use marriage_be.Prelude.{select}
use marriage_be.Examples.Data.{db, unreviewed}

unreviewed-HasHistory : HasHistory db unreviewed
unfolding select
unreviewed-HasHistory = record { versioned = omega arith; complete = refl }

db-IsAudited : IsAudited db
unfolding get_record
db-IsAudited k r h = elim (Bool-cases (7 == k)) [
  | inl same ↦ subst (HasHistory db) (some_inj (rw same at h)) unreviewed-HasHistory
  | inr other ↦ absurd (none≢some (rw other at h))
]

is_stored : get_record db 7 ≡ some unreviewed
unfolding get_record
is_stored = refl

abbrev dated : Fields
dated = ("tarikh", text "2024-04-01") ∷ []

abbrev renamed : Fields
renamed = ("nama", text "Abu") ∷ []

second_review_conflicts_example :
    (db' : Db) × (apply_correction 7 1 dated (some "ana") none 5 db
      ≡ ok (corrected dated (some "ana") 5 unreviewed, db'))
    × (apply_correction 7 1 renamed (some "ben") none 9 db' ≡ err record_conflict)
    × (approve_record 7 1 (some "ben") none 9 db' ≡ err record_conflict)
second_review_conflicts_example =
    second_review_conflicts db 7 unreviewed (some "ana") none (some "ben") none 5 9 dated renamed
      db-IsAudited is_stored

apply_correction_accepted_example :
    (db' : Db) × (apply_correction 7 1 dated (some "ana") none 5 db
      ≡ ok (corrected dated (some "ana") 5 unreviewed, db'))
    × IsReviewed 7 (corrected dated (some "ana") 5 unreviewed) db db'
apply_correction_accepted_example =
    apply_correction_accepted db 7 unreviewed (some "ana") none 5 db-IsAudited is_stored dated

approve_record_accepted_example :
    (db' : Db) × (approve_record 7 1 (some "ana") none 5 db
      ≡ ok (approved_row (some "ana") 5 unreviewed, db'))
    × IsReviewed 7 (approved_row (some "ana") 5 unreviewed) db db'
approve_record_accepted_example =
    approve_record_accepted db 7 unreviewed (some "ana") none 5 db-IsAudited is_stored

bulk_approve_records-AreApproved_example :
    (rs : List OcrRecord) × (db' : Db) × (bulk_approve_records (7 ∷ 7 ∷ []) (some "ana") 5 db
      ≡ ok (rs, db'))
    × AreApproved (7 ∷ 7 ∷ []) db db'
bulk_approve_records-AreApproved_example =
    bulk_approve_records-AreApproved (7 ∷ 7 ∷ []) (some "ana") 5 db db-IsAudited
      (unfold get_record in (refl, (refl, tt)))

corrected_lem_example :
    let r' = corrected dated (some "ana") 5 unreviewed in
    ((k : String) → get k r'.field_values ≡ over (get k dated) (get k unreviewed.field_values))
    × ((r'.status == pending_review)
        ≡ any (λ field. is_blank (get field r'.field_values)) unreviewed.missing_fields)
    × (all (λ field. is_blank (get field r'.field_values)) r'.missing_fields ≡ true)
corrected_lem_example = corrected_lem dated (some "ana") 5 unreviewed (unfold get in (refl, tt))

abbrev second_row : Payload
second_row = record {
  source_key = "row";
  source_page = some 1;
  source_record_index = 1;
  field_values = renamed;
  confidence = none;
  validation_issues = [];
  missing_fields = [];
  normalized_data = none;
  corrected_data = none;
  status = none;
}

create_record_if_missing_lem_example : IsImported 1 (some 1) (some 1) second_row 8 3 db 4 9
unfolding can_insert new_record has_key payload_key any
create_record_if_missing_lem_example =
    create_record_if_missing_lem 1 (some 1) (some 1) second_row 8 3 db 4 9
      (unfold any in (refl, tt))

-- there is no job 77
orphan_row : create_record_if_missing 77 (some 1) (some 1) second_row 8 3 db ≡ err record_exists
unfolding create_record_if_missing create_record can_insert new_record has_key payload_key any
orphan_row = refl

-- one job, with its batch and its document
abbrev staged : Db
staged = record db { records = []; revisions = [] }

staged-IsAudited : IsAudited staged
unfolding get_record
staged-IsAudited k r h = cc

abbrev one_record : List Audit.Op
one_record =
    Audit.create (new_record 1 (some 1) (some 1) second_row) 8 1
    ∷ Audit.correct 8 1 dated (some "ana") none 2
    ∷ Audit.approve 8 1 (some "ben") none 3
    ∷ Audit.remove 8
    ∷ []

one_record-AreAdmissible : Audit.AreAdmissible one_record staged
unfolding new_record select
one_record-AreAdmissible = ((refl, refl), (tt, (tt, (tt, tt))))

perform_all-IsAudited_example : IsAudited (Audit.perform_all one_record staged)
perform_all-IsAudited_example =
    perform_all-IsAudited one_record staged one_record-AreAdmissible staged-IsAudited
