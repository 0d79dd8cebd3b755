-- ===== src/Onedrive/Ingest.antt =====
-- onedrive/service.py: _ingest_one_file, which makes a document and its jobs out of one file. What
-- the storage, the PDF library, `uuid4` and the executor answer is given.
pub mod Effects
use marriage_be.Prelude.{
  ℕ, String, Bool, true, false, ◌&&◌, ◌||◌, not, Option, none, some, List, [], ◌∷◌, ◌==◌, mem,
  string_eq, if◌then◌else◌,
}
use marriage_be.Status.{JobStatus, DocumentStatus}
use marriage_be.DocumentType.{DocumentType, typed_document_types, document_type_eq}
use marriage_be.Db.Rows.{Document, Db}
use marriage_be.Db.Table.{update}
use marriage_be.Db.Result.{Result, ok, err, ◌>>=◌, ◌>>◌, guard, upload_validation_error}
use marriage_be.Jobs.Paths.{JobPaths, ◌+s◌}
use marriage_be.Jobs.Repository
use marriage_be.Jobs.Repository.{NewJob, create_job}
use marriage_be.Batches.Repository.{NewDocument, create_document, document_key}
use marriage_be.Batches.Recompute.{recompute_document_status}
use marriage_be.Batches.Ingest.{Page, document_paths, split_page_count, create_document_page_jobs}
use marriage_be.Onedrive.Classification.{File}
use marriage_be.Onedrive.Intake.{StoredUpload, save_local_file}

-- What the outside world answers while files are ingested.
pub record Outside : Type 0 where
  pub guess : List ℕ → Option String
  pub max_upload_bytes : ℕ
  pub git_ref : String
  pub batch_text : String
  pub id_text : ℕ → String
  pub document_id : File → ℕ
  pub document_name : File → String
  pub job_id : File → ℕ
  pub put_file : File → Result (Unit {0})
  pub page_count : File → Result ℕ
  pub pages : File → Result (List Page)
  pub accepts : ℕ → Bool
  pub now : ℕ

-- `suffix or ".pdf"`
abbrev or_pdf : String → String
or_pdf extension = if extension == "" then ".pdf" else extension

unfoldable pub paths_of : Outside → File → JobPaths
paths_of o file = document_paths o.batch_text (o.document_name file) (or_pdf file.extension)

unfoldable pub input_dir_of : Outside → File → String
input_dir_of o file =
    "batches/" +s o.batch_text +s "/documents/" +s o.document_name file +s "/input"

unfoldable new_document :
    (batch_id : ℕ) → File → DocumentType → StoredUpload → Option ℕ → NewDocument
new_document batch_id file t stored page_split_count = record {
  batch_id = batch_id;
  original_filename = file.name;
  safe_filename = stored.stored_filename;
  media_type = stored.content_type;
  size_bytes = stored.file_size_bytes;
  sha256 = stored.sha256;
  storage_key = stored.input_relative_path;
  status = DocumentStatus.uploaded;
  document_type = t;
  page_count = page_split_count;
  created_at = none;
  updated_at = none;
}

unfoldable pub whole_job : Outside → (batch_id : ℕ) → File → DocumentType → StoredUpload → NewJob
whole_job o batch_id file t stored =
    let paths = paths_of o file in
    record {
      id = o.job_id file;
      batch_id = some batch_id;
      document_id = some (o.document_id file);
      status = JobStatus.pending;
      document_type = t;
      page_number = none;
      original_filename = file.name;
      stored_filename = stored.stored_filename;
      content_type = stored.content_type;
      file_size_bytes = stored.file_size_bytes;
      input_relative_path = stored.input_relative_path;
      debug_relative_path = paths.debug_relative_path;
      stdout_log_relative_path = paths.stdout_log_relative_path;
      stderr_log_relative_path = paths.stderr_log_relative_path;
      ocr_git_ref = o.git_ref;
      output_relative_path = none;
      error_code = none;
      error_message = none;
      started_at = none;
      completed_at = none;
      created_at = none;
      updated_at = none;
    }

unfoldable pub of_submission : (submission_id : ℕ) → Document → Document
of_submission submission_id d = record d { onedrive_submission_id = some submission_id }

-- the document of a file, with its submission
unfoldable pub add_document :
    Outside
    → (batch_id submission_id : ℕ) → File
    → DocumentType
    → StoredUpload
    → Option ℕ
    → Db
    → Document × Db
unfolding new_document of_submission update
add_document o batch_id submission_id file t stored page_split_count db =
    let document_id = o.document_id file in
    let (document, db1) =
      create_document (new_document batch_id file t stored page_split_count) (some document_id)
        document_id o.now db in
    (
      of_submission submission_id document,
      record db1 {
        documents = update document_key document_id (of_submission submission_id) db1.documents;
      },
    )

unfoldable pub add_jobs :
    Outside
    → (batch_id : ℕ) → File
    → DocumentType
    → StoredUpload
    → Option ℕ
    → Document
    → Db
    → Result (List ℕ × Db)
unfolding whole_job
add_jobs o batch_id file t stored (some _) document db = do
  pages ← o.pages file
  create_document_page_jobs batch_id document t o.git_ref o.now pages db
add_jobs o batch_id file t stored none document db = do
  (job, db1) ← create_job (whole_job o batch_id file t stored) o.now db
  ok (o.job_id file ∷ [], db1)

-- The transaction up to its commit: the ids of the jobs, or an error and the rollback.
unfoldable pub ingest_rows :
    Outside → (batch_id submission_id : ℕ) → File → DocumentType → Db → Result (List ℕ × Db)
unfolding add_document add_jobs input_dir_of
ingest_rows o batch_id submission_id file t db = do
  guard (not (mem t typed_document_types && not (file.extension == ".pdf")))
      (upload_validation_error 422 "TYPED_REQUIRES_PDF")
  stored ← save_local_file o.guess o.max_upload_bytes (input_dir_of o file) file
  put ← o.put_file file
  page_split_count ← split_page_count t stored.content_type (o.page_count file)
  let (document, db1) = add_document o batch_id submission_id file t stored page_split_count db
  add_jobs o batch_id file t stored page_split_count document db1

abbrev pub not_submitted : String
not_submitted = "The OCR job could not be submitted for background processing."

-- a job goes to the executor; one that it refuses is failed
unfoldable pub submit_job : Outside → (job_id : ℕ) → Db → Result Db
submit_job o job_id db =
    let failed = Repository.mark_failed job_id "INTERNAL_PROCESSING_ERROR" not_submitted o.now db in
    if o.accepts job_id then ok db else failed >>= λ r. ok r.1

-- the rest of the loop, unless the exception is on its way
abbrev pub go_on : (next : Db → Result Bool × Db) → Db → Result Db → Result Bool × Db
go_on next db (err e) = (err e, db)
go_on next db (ok db1) = next db1

-- After the commit; the answer says whether a job was refused.
unfoldable pub submit_jobs : Outside → List ℕ → (failures : Bool) → Db → Result Bool × Db
unfolding submit_job
submit_jobs o [] failures db = (ok failures, db)
submit_jobs o (job_id ∷ job_ids) failures db =
    go_on (submit_jobs o job_ids (failures || not (o.accepts job_id))) db (submit_job o job_id db)

abbrev pub recompute_if : (failures : Bool) (document_id now : ℕ) → Db → Db
recompute_if failures document_id now db =
    if failures then recompute_document_status document_id now db else db

abbrev pub submitted : Outside → File → Result Bool × Db → Result ℕ × Db
submitted o file (err e, db) = (err e, db)
submitted o file (ok failures, db) =
    (ok (o.document_id file), recompute_if failures (o.document_id file) o.now db)

abbrev pub after_commit : Outside → File → Db → Result (List ℕ × Db) → Result ℕ × Db
after_commit o file db (err e) = (err e, db)
after_commit o file db (ok (job_ids, db1)) = submitted o file (submit_jobs o job_ids false db1)

-- The id of the document, and the database as it was last committed or changed.
unfoldable pub ingest_one_file :
    Outside → (batch_id submission_id : ℕ) → File → DocumentType → Db → Result ℕ × Db
unfolding ingest_rows submit_jobs
ingest_one_file o batch_id submission_id file t db =
    after_commit o file db (ingest_rows o batch_id submission_id file t db)
