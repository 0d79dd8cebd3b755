-- ===== src/Records/Repository.antt =====
-- records/repositories.py: creation and lookup of records, and their revisions.
use Prim.Native.Nat.{◌*◌, ◌^◌}
use marriage_be.Prelude.{
  ℕ, String, Bool, true, false, ◌&&◌, ◌||◌, not, Option, none, some, List, [], ◌∷◌, ◌++◌, map, ◌==◌,
  option_beq, nat_eq, string_eq, ltb, any, if◌then◌else◌,
}
use marriage_be.Status.{RecordStatus, pending_review, approved}
use marriage_be.Db.Rows.{
  Batch, Job, Document, OcrRecord, Revision, Value, Fields, Note, value, Confidence, Db,
}
use marriage_be.Db.Table.{find}
use marriage_be.Db.Result.{
  Result, ok, err, ◌>>◌, guard, record_not_found, record_exists, integrity_error,
}

abbrev pub record_key : OcrRecord → ℕ
record_key r = r.id

-- What makes a record of a job unique: the columns of `uq_ocr_records_job_source_key`.
pub record SourceKey : Type 0 where
  pub job_id : ℕ
  pub source_key : String
  pub source_page : Option ℕ
  pub source_record_index : ℕ

unfoldable pub has_key : SourceKey → OcrRecord → Bool
has_key k r =
    r.job_id == k.job_id
    && r.source_key == k.source_key
    && option_beq r.source_page k.source_page
    && r.source_record_index == k.source_record_index

unfoldable pub first_with_key : SourceKey → List OcrRecord → Option OcrRecord
unfolding has_key
first_with_key k [] = none
first_with_key k (r ∷ rs) = if has_key k r then some r else first_with_key k rs

-- 0.70 as a double, in units of 2^-1074
pub low_confidence_threshold : Confidence
low_confidence_threshold = 6305039478318694 * 2 ^ 1021

abbrev pub is_low : Option Confidence → Bool
is_low none = false
is_low (some c) = ltb c low_confidence_threshold

abbrev pub is_nonempty {ℓ} : {A : Type ℓ} → List A → Bool
is_nonempty [] = false
is_nonempty (_ ∷ _) = true

unfoldable pub initial_status_for : List String → Option Confidence → RecordStatus
initial_status_for missing_fields confidence =
    if is_nonempty missing_fields || is_low confidence then pending_review else approved

-- The arguments of `create_record`; a missing list stands as the empty one.
pub record NewRecord : Type 0 where
  pub key : SourceKey
  pub batch_id : Option ℕ
  pub document_id : Option ℕ
  pub field_values : Fields
  pub normalized_data : Option (List (String × Note))
  pub corrected_data : Option Fields
  pub confidence : Option Confidence
  pub validation_issues : List String
  pub missing_fields : List String
  pub status : Option RecordStatus
  pub review_status : Option String
  pub reviewed_by : Option String
  pub reviewed_at : Option ℕ
  pub version : ℕ
  pub created_at : Option ℕ
  pub updated_at : Option ℕ

abbrev pub status_value : RecordStatus → String
status_value pending_review = "PENDING_REVIEW"
status_value approved = "APPROVED"

abbrev or_else {ℓ} : {A : Type ℓ} → Option A → A → A
or_else none a = a
or_else (some b) a = b

-- `xs or default`: the empty dictionary is false too
abbrev or_if_empty {ℓ} : {A : Type ℓ} → Option (List A) → List A → List A
or_if_empty none ys = ys
or_if_empty (some []) ys = ys
or_if_empty (some (x ∷ xs)) ys = x ∷ xs

unfoldable pub record_row : NewRecord → (id now : ℕ) → OcrRecord
unfolding initial_status_for
record_row n id now =
    let resolved_status = or_else n.status (initial_status_for n.missing_fields n.confidence) in
    record {
      id = id;
      job_id = n.key.job_id;
      batch_id = n.batch_id;
      document_id = n.document_id;
      source_key = n.key.source_key;
      source_page = n.key.source_page;
      source_record_index = n.key.source_record_index;
      status = resolved_status;
      field_values = n.field_values;
      normalized_data =
          or_if_empty n.normalized_data
            (map (λ (kv : String × Value). (kv.0, value kv.1)) n.field_values);
      corrected_data = or_if_empty n.corrected_data [];
      confidence = n.confidence;
      validation_issues = n.validation_issues;
      missing_fields = n.missing_fields;
      review_status = or_else n.review_status (status_value resolved_status);
      reviewed_by = n.reviewed_by;
      reviewed_at = n.reviewed_at;
      version = n.version;
      created_at = or_else n.created_at now;
      updated_at = or_else n.updated_at now;
    }

abbrev pub is_none {ℓ} : {A : Type ℓ} → Option A → Bool
is_none none = true
is_none (some _) = false

-- The referenced row is there, if a row is referenced.
abbrev refers_to : Option ℕ → (ℕ → Bool) → Bool
refers_to none is_stored = true
refers_to (some id) is_stored = is_stored id

-- The flush raises no IntegrityError: the id is new, and the job and, where they are given, the batch
-- and the document are stored.
unfoldable pub can_insert : NewRecord → (id : ℕ) → Db → Bool
unfolding any
can_insert n id db =
    not (any (λ (r : OcrRecord). r.id == id) db.records)
    && any (λ (j : Job). j.id == n.key.job_id) db.jobs
    && refers_to n.batch_id (λ i. any (λ (b : Batch). b.id == i) db.batches)
    && refers_to n.document_id (λ i. any (λ (d : Document). d.id == i) db.documents)

-- `id` is the new row's, from `uuid4`. The IntegrityError of the flush becomes the same exception
-- as that of an existing key.
unfoldable pub create_record : NewRecord → (id now : ℕ) → Db → Result (OcrRecord × Db)
unfolding first_with_key record_row can_insert
create_record n id now db = do
  guard (is_none (first_with_key n.key db.records)) record_exists
  guard (can_insert n id db) record_exists
  ok (record_row n id now, record db { records = db.records ++ record_row n id now ∷ [] })

-- The payload of the importers, whose entries have the types that the function tests for.
pub record Payload : Type 0 where
  pub source_key : String
  pub source_page : Option ℕ
  pub source_record_index : ℕ
  pub field_values : Fields
  pub confidence : Option Confidence
  pub validation_issues : List String
  pub missing_fields : List String
  pub normalized_data : Option (List (String × Note))
  pub corrected_data : Option Fields
  pub status : Option RecordStatus

unfoldable pub payload_key : ℕ → Payload → SourceKey
payload_key job_id p = record {
  job_id = job_id;
  source_key = p.source_key;
  source_page = p.source_page;
  source_record_index = p.source_record_index;
}

unfoldable pub new_record : (job_id : ℕ) (batch_id document_id : Option ℕ) → Payload → NewRecord
unfolding payload_key
new_record job_id batch_id document_id p = record {
  key = payload_key job_id p;
  batch_id = batch_id;
  document_id = document_id;
  field_values = p.field_values;
  normalized_data = p.normalized_data;
  corrected_data = p.corrected_data;
  confidence = p.confidence;
  validation_issues = p.validation_issues;
  missing_fields = p.missing_fields;
  status = p.status;
  review_status = none;
  reviewed_by = none;
  reviewed_at = none;
  version = 1;
  created_at = none;
  updated_at = none;
}

abbrev as_created : Result (OcrRecord × Db) → Result (Bool × Db)
as_created (ok (r, db)) = ok (true, db)
as_created (err e) = err e

unfoldable pub create_record_if_missing :
    (job_id : ℕ) (batch_id document_id : Option ℕ)
    → Payload
    → (id now : ℕ) → Db
    → Result (Bool × Db)
unfolding first_with_key new_record create_record
create_record_if_missing job_id batch_id document_id p id now db =
    if is_none (first_with_key (payload_key job_id p) db.records)
    then as_created (create_record (new_record job_id batch_id document_id p) id now db)
    else ok (false, db)

unfoldable pub get_record : Db → ℕ → Option OcrRecord
unfolding find
get_record db record_id = find record_key record_id db.records

abbrev or_raise : Option OcrRecord → Result OcrRecord
or_raise none = err record_not_found
or_raise (some r) = ok r

unfoldable pub get_record_or_raise : Db → ℕ → Result OcrRecord
unfolding get_record
get_record_or_raise db record_id = or_raise (get_record db record_id)

filename_of : Option Document → Option String
filename_of none = none
filename_of (some d) = some d.original_filename

unfoldable get_document_filename : Db → Option ℕ → Option String
unfolding find filename_of
get_document_filename db none = none
get_document_filename db (some document_id) =
    filename_of (find (λ (d : Document). d.id) document_id db.documents)

unfoldable pub is_revision_of : ℕ → Revision → Bool
is_revision_of record_id v = v.record_id == record_id

unfoldable pub taken : (record_id version : ℕ) → List Revision → Bool
unfolding any is_revision_of
taken record_id version = any (λ v. is_revision_of record_id v && v.version == version)

-- The flush raises where the record already has a revision of that version.
unfoldable pub append_revision : Revision → Db → Result Db
unfolding taken
append_revision v db = do
  guard (not (taken v.record_id v.version db.revisions)) integrity_error
  ok (record db { revisions = db.revisions ++ v ∷ [] })
