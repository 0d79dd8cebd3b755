-- ===== src/Records/Service.antt =====
-- records/service.py: corrections, approvals and deletion, under optimistic locking.
use marriage_be.Prelude.{
  ℕ, ◌+◌, String, Bool, true, Option, none, some, List, [], ◌∷◌, ◌==◌, nat_eq, string_eq, strip,
  get, merge, select, if◌then◌else◌,
}
use marriage_be.Status.{RecordStatus, pending_review, approved, record_status_eq}
use marriage_be.Db.Rows.{OcrRecord, Value, null, text, other, Fields, Db}
use marriage_be.Db.Table.{update, delete}
use marriage_be.Db.Result.{Result, ok, ◌>>=◌, ◌>>◌, guard, record_conflict}
use marriage_be.Records.Repository.{
  record_key, get_record_or_raise, append_revision, is_revision_of, is_nonempty, status_value,
}

-- `not str(v or "").strip()`
unfoldable pub is_blank : Option Value → Bool
unfolding strip
is_blank none = true
is_blank (some null) = true
is_blank (some (text s)) = strip s == ""
is_blank (some (other truthy shown)) = if truthy then strip shown == "" else true

unfoldable pub still_missing : Fields → List String → List String
unfolding is_blank get select
still_missing merged = select (λ field. is_blank (get field merged))

abbrev status_if_missing : List String → RecordStatus
status_if_missing missing = if is_nonempty missing then pending_review else approved

unfoldable pub corrected : Fields → (reviewer : Option String) (now : ℕ) → OcrRecord → OcrRecord
unfolding merge still_missing
corrected field_values reviewer now r =
    let merged_field_values = merge r.field_values field_values in
    let missing = still_missing merged_field_values r.missing_fields in
    let resolved_status = status_if_missing missing in
    record r {
      field_values = merged_field_values;
      corrected_data = merge r.corrected_data field_values;
      missing_fields = missing;
      status = resolved_status;
      review_status = status_value resolved_status;
      reviewed_by = reviewer;
      reviewed_at = some now;
      version = r.version + 1;
      updated_at = now;
    }

unfoldable pub store_record : ℕ → (OcrRecord → OcrRecord) → OcrRecord → Db → OcrRecord × Db
unfolding update
store_record record_id change r db =
    (change r, record db { records = update record_key record_id change db.records })

unfoldable pub apply_correction :
    (record_id expected_version : ℕ)
    → Fields
    → (reviewer note : Option String) (now : ℕ) → Db
    → Result (OcrRecord × Db)
unfolding get_record_or_raise append_revision corrected store_record
apply_correction record_id expected_version field_values reviewer note now db = do
  r ← get_record_or_raise db record_id
  guard (r.version == expected_version) record_conflict
  db1 ←
      append_revision
        (record {
          record_id = r.id;
          version = r.version + 1;
          previous_values = r.field_values;
          new_values = field_values;
          reviewer = reviewer;
          note = note;
          created_at = now;
        })
        db
  ok (store_record record_id (corrected field_values reviewer now) r db1)

unfoldable pub reviewed :
    RecordStatus → (reviewer : Option String) (now : ℕ) → OcrRecord → OcrRecord
reviewed status reviewer now r = record r {
  status = status;
  review_status = status_value status;
  reviewed_by = reviewer;
  reviewed_at = some now;
  version = r.version + 1;
  updated_at = now;
}

unfoldable pub change_status :
    RecordStatus
    → (reviewer note : Option String) (record_id now : ℕ) → OcrRecord
    → Db
    → Result (OcrRecord × Db)
unfolding append_revision reviewed store_record
change_status status reviewer note record_id now r db = do
  db1 ←
      append_revision
        (record {
          record_id = r.id;
          version = r.version + 1;
          previous_values = r.field_values;
          new_values = r.field_values;
          reviewer = reviewer;
          note = note;
          created_at = now;
        })
        db
  ok (store_record record_id (reviewed status reviewer now) r db1)

unfoldable set_review_status :
    (record_id expected_version : ℕ)
    → RecordStatus
    → (reviewer note : Option String) (now : ℕ) → Db
    → Result (OcrRecord × Db)
unfolding get_record_or_raise change_status
set_review_status record_id expected_version status reviewer note now db = do
  r ← get_record_or_raise db record_id
  guard (r.version == expected_version) record_conflict
  if r.status == status then ok (r, db) else change_status status reviewer note record_id now r db

unfoldable pub approve_record :
    (record_id expected_version : ℕ) (reviewer note : Option String) (now : ℕ)
    → Db
    → Result (OcrRecord × Db)
unfolding set_review_status
approve_record record_id expected_version = set_review_status record_id expected_version approved

unfoldable pub bulk_approve_records :
    List ℕ → (reviewer : Option String) (now : ℕ) → Db → Result (List OcrRecord × Db)
unfolding get_record_or_raise approve_record
bulk_approve_records [] reviewer now db = ok ([], db)
bulk_approve_records (record_id ∷ record_ids) reviewer now db = do
  r ← get_record_or_raise db record_id
  (a, db1) ← approve_record record_id r.version reviewer none now db
  (rest, db2) ← bulk_approve_records record_ids reviewer now db1
  ok (a ∷ rest, db2)

-- The revisions go with the record.
unfoldable pub delete_record : (record_id : ℕ) → Db → Result Db
unfolding get_record_or_raise delete is_revision_of
delete_record record_id db = do
  r ← get_record_or_raise db record_id
  ok (record db {
    records = delete (λ (x : OcrRecord). x.id == record_id) db.records;
    revisions = delete (is_revision_of record_id) db.revisions;
  })
