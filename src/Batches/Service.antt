-- ===== src/Batches/Service.antt =====
-- batches/service.py: stopping and deleting a batch.
pub mod Cancel
pub mod Delete
use marriage_be.Prelude.{
  ℕ, String, Bool, true, false, not, Option, none, some, List, [], ◌∷◌, ◌++◌, map, ◌==◌, string_eq,
  nat_eq, refers, select, if◌then◌else◌,
}
use marriage_be.Db.Rows.{Job, Document, Batch, Export, Db}
use marriage_be.Db.Result.{Error, Result, ok, err, api_error}
use marriage_be.Jobs.Paths.{page1_ocr_relative_path}
use marriage_be.Jobs.Repository.{cancel_pending_and_processing_jobs_for_batch}
use marriage_be.Batches.Repository.{get_batch, delete_batch_row}
use marriage_be.Batches.Recompute.{recompute_batch_status}
use marriage_be.Batches.Recompute.Loops.{recompute_documents}

-- `if cancelled_jobs: recompute_batch_status(session, batch_id)`
abbrev recompute_batch_if : List Job → (batch_id now : ℕ) → Db → Db
recompute_batch_if [] batch_id now db = db
recompute_batch_if (_ ∷ _) batch_id now db = recompute_batch_status batch_id now db

batch_or_404 : Option Batch → Result Batch
batch_or_404 none = err (api_error 404 "BATCH_NOT_FOUND")
batch_or_404 (some batch) = ok batch

-- The 404 is raised after the commit, so the database comes back beside it.
unfoldable pub cancel_batch_processing : (batch_id now : ℕ) → Db → Result Batch × Db
unfolding batch_or_404
cancel_batch_processing batch_id now db =
    let (cancelled_jobs, db1) = cancel_pending_and_processing_jobs_for_batch batch_id now db in
    let db2 = recompute_documents cancelled_jobs [] now db1 in
    let db3 = recompute_batch_if cancelled_jobs batch_id now db2 in
    (batch_or_404 (get_batch db3 batch_id), db3)

-- What `delete_batch` asks of the storage: object keys in the order of their deletion, and the
-- directories `batches/<id>` and `jobs/<id>` that are removed from the disk.
pub record Removed : Type 0 where
  pub keys : List String
  pub batch_directory : ℕ
  pub job_directories : List ℕ

-- a key that is neither null nor empty
unfoldable pub present : List (Option String) → List String
present [] = []
present (none ∷ keys) = present keys
present (some key ∷ keys) = if key == "" then present keys else key ∷ present keys

unfoldable pub nonempty : List String → List String
nonempty [] = []
nonempty (key ∷ keys) = if key == "" then nonempty keys else key ∷ nonempty keys

unfoldable delete_batch : (s3 : Bool) (batch_id : ℕ) → Db → Removed × Db
unfolding select present nonempty
delete_batch s3 batch_id db =
    let jobs = select (λ (j : Job). refers j.batch_id batch_id) db.jobs in
    let documents = select (λ (d : Document). d.batch_id == batch_id) db.documents in
    let exports = select (λ (e : Export). e.batch_id == batch_id) db.exports in
    let document_keys = map (λ (d : Document). d.storage_key) documents in
    let job_output_keys = present (map (λ (j : Job). j.output_relative_path) jobs) in
    let export_keys = present (map (λ (e : Export). e.storage_key) exports) in
    let page1_ocr_keys = map page1_ocr_relative_path (nonempty document_keys) in
    (
      record {
        keys =
            if s3
            then document_keys ++ (job_output_keys ++ (export_keys ++ page1_ocr_keys))
            else [];
        batch_directory = batch_id;
        job_directories = map (λ (j : Job). j.id) jobs;
      },
      delete_batch_row batch_id db,
    )
