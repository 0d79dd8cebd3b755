-- ===== src/Batches/Repository.antt =====
-- batches/repositories.py: creation, lookup, listing and deletion of rows.
mod Creation
pub use marriage_be.Batches.Repository.Creation.{NewBatch, NewDocument, NewExport}
unfoldable pub use marriage_be.Batches.Repository.Creation.{
  create_batch, create_document, create_export,
}
use marriage_be.Prelude.{
  ℕ, String, Bool, false, ◌||◌, Option, none, some, List, [], ◌∷◌, ◌++◌, map, ◌==◌, refers, ltb,
  select, length, nat_eq, string_eq, if◌then◌else◌,
}
use marriage_be.Status.{
  BatchStatus, DocumentStatus, ExportStatus, draft, queued, processing, review_required, completed,
  failed, cancelled, batch_status_eq,
}
use marriage_be.DocumentType.{DocumentType}
use marriage_be.Db.Rows.{Batch, Document, Export, Job, OcrRecord, Revision, Submission, Db}
use marriage_be.Db.Table.{find, update, delete}

abbrev pub batch_key : Batch → ℕ
batch_key b = b.id

abbrev pub document_key : Document → ℕ
document_key d = d.id

abbrev pub export_key : Export → ℕ
export_key e = e.id

unfoldable pub get_batch : Db → ℕ → Option Batch
unfolding find
get_batch db batch_id = find batch_key batch_id db.batches

unfoldable pub get_document : Db → ℕ → Option Document
unfolding find
get_document db document_id = find document_key document_id db.documents

unfoldable get_export : Db → ℕ → Option Export
unfolding find
get_export db export_id = find export_key export_id db.exports

renamed : String → (daerah negeri : Option String) (now : ℕ) → Batch → Batch
renamed name daerah negeri now b = record b {
  name = name;
  daerah = daerah;
  negeri = negeri;
  updated_at = now;
}

unfoldable rename_batch :
    (batch_id : ℕ) (name : String) (daerah negeri : Option String) (now : ℕ)
    → Db
    → Option Batch × Db
unfolding get_batch update renamed
rename_batch batch_id name daerah negeri now db = elim (get_batch db batch_id) [
  | none ↦ (none, db)
  | some b ↦ (
    some (renamed name daerah negeri now b),
    record db { batches = update batch_key batch_id (renamed name daerah negeri now) db.batches },
  )
]

location_of : Option Batch → Option String × Option String
location_of none = (none, none)
location_of (some b) = (b.daerah, b.negeri)

unfoldable get_batch_location : Db → Option ℕ → Option String × Option String
unfolding location_of get_batch
get_batch_location db none = (none, none)
get_batch_location db (some batch_id) = location_of (get_batch db batch_id)

set_document_status : DocumentStatus → ℕ → Document → Document
set_document_status status now d = record d { status = status; updated_at = now }

unfoldable mark_document_status : (document_id : ℕ) → DocumentStatus → (now : ℕ) → Db → Db
unfolding set_document_status get_document update
mark_document_status document_id status now db = elim (get_document db document_id) [
  | none ↦ db
  | some _ ↦ record db {
    documents = update document_key document_id (set_document_status status now) db.documents;
  }
]

unfoldable pub find_document_by_sha256 : List Document → String → Option (ℕ × Option ℕ)
find_document_by_sha256 [] sha256 = none
find_document_by_sha256 (d ∷ ds) sha256 =
    if d.sha256 == sha256
    then some (d.id, d.onedrive_submission_id)
    else find_document_by_sha256 ds sha256

count_status : BatchStatus → List Batch → ℕ
count_status status batches = length (select (λ (b : Batch). b.status == status) batches)

-- Every status with the number of batches that hold it.
unfoldable count_batches_by_status : Db → List (BatchStatus × ℕ)
unfolding count_status select
count_batches_by_status db =
    map (λ status. (status, count_status status db.batches))
      (draft ∷ queued ∷ processing ∷ review_required ∷ completed ∷ failed ∷ cancelled ∷ [])

unfoldable count_documents : Db → ℕ → ℕ
unfolding select
count_documents db batch_id =
    length (select (λ (d : Document). d.batch_id == batch_id) db.documents)

unfoldable pub list_stale_exports : Db → (older_than : ℕ) → List Export
unfolding select
list_stale_exports db older_than = select (λ (e : Export). ltb e.created_at older_than) db.exports

unfoldable pub delete_export : ℕ → Db → Db
unfolding delete
delete_export export_id db = record db {
  exports = delete (λ (e : Export). e.id == export_id) db.exports;
}

-- `id IN (SELECT ...)`
unfoldable pub of_record : List OcrRecord → Revision → Bool
of_record [] v = false
of_record (r ∷ rs) v = r.id == v.record_id || of_record rs v

unfoldable pub in_batch : ℕ → OcrRecord → Bool
in_batch batch_id r = refers r.batch_id batch_id

-- The seven statements in their order; the revisions go while their records are still there.
unfoldable pub delete_batch_row : ℕ → Db → Db
unfolding delete of_record in_batch
delete_batch_row batch_id db0 =
    let record_ids = select (in_batch batch_id) db0.records in
    let db1 = record db0 { revisions = delete (of_record record_ids) db0.revisions } in
    let db2 = record db1 { records = delete (in_batch batch_id) db1.records } in
    let db3 = record db2 { jobs = delete (λ (j : Job). refers j.batch_id batch_id) db2.jobs } in
    let db4 = record db3 {
      documents = delete (λ (d : Document). d.batch_id == batch_id) db3.documents;
    } in
    let db5 = record db4 {
      submissions = delete (λ (s : Submission). s.batch_id == batch_id) db4.submissions;
    } in
    let db6 = record db5 {
      exports = delete (λ (e : Export). e.batch_id == batch_id) db5.exports;
    } in
    record db6 { batches = delete (λ (b : Batch). b.id == batch_id) db6.batches }
