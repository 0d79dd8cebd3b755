-- ===== src/Batches/Ingest.antt =====
-- batches/document_ingest.py: the paths of a document, and the split of a PDF into one job a page.
-- The pages that the PDF library writes are given by their names and sizes.
pub mod Pages
use marriage_be.Prelude.{
  ℕ, ◌+◌, String, Bool, true, false, not, ◌||◌, Option, none, some, List, [], ◌∷◌, ◌==◌, mem, ltb,
  string_eq, if◌then◌else◌,
}
use marriage_be.Status.{JobStatus}
use marriage_be.DocumentType.{DocumentType, handwritten_document_types, document_type_eq}
use marriage_be.Db.Rows.{Document, Db}
use marriage_be.Db.Result.{Result, ok, err, ◌>>=◌}
use marriage_be.Jobs.Paths.{JobPaths, build_job_paths, ◌+s◌}
use marriage_be.Jobs.Repository.{NewJob, create_job}

-- The ids are given by their texts, `normalized` is the extension in lower case.
unfoldable pub document_paths : (batch_id document_id normalized : String) → JobPaths
document_paths batch_id document_id normalized =
    let document_root = "batches/" +s batch_id +s "/documents/" +s document_id in
    record {
      input_relative_path = document_root +s "/input/source" +s normalized;
      output_relative_path = document_root +s "/output/result.xlsx";
      debug_relative_path = document_root +s "/debug";
      stdout_log_relative_path = document_root +s "/logs/stdout.log";
      stderr_log_relative_path = document_root +s "/logs/stderr.log";
    }

abbrev pages_if_many : Result ℕ → Result (Option ℕ)
pages_if_many (err e) = err e
pages_if_many (ok page_count) = ok (if ltb 1 page_count then some page_count else none)

-- `page_count` is what the PDF library answers; it is asked for handwritten PDFs only.
unfoldable pub split_page_count :
    DocumentType → (media_type : String) (page_count : Result ℕ) → Result (Option ℕ)
split_page_count t media_type page_count =
    if not (mem t handwritten_document_types) || not (media_type == "application/pdf")
    then ok none
    else pages_if_many page_count

-- A page that was split off: the id of its job, that id's text, its file's name and size.
pub record Page : Type 0 where
  pub job_id : ℕ
  pub job_name : String
  pub filename : String
  pub size : ℕ

unfoldable pub page_job :
    (batch_id : ℕ) → Document → DocumentType → (git_ref : String) (number : ℕ) → Page → NewJob
unfolding build_job_paths
page_job batch_id document t git_ref number page =
    let paths = build_job_paths page.job_name ".pdf" in
    record {
      id = page.job_id;
      batch_id = some batch_id;
      document_id = some document.id;
      status = JobStatus.pending;
      document_type = t;
      page_number = some number;
      original_filename = document.original_filename;
      stored_filename = page.filename;
      content_type = "application/pdf";
      file_size_bytes = page.size;
      input_relative_path = "jobs/" +s page.job_name +s "/input/" +s page.filename;
      debug_relative_path = paths.debug_relative_path;
      stdout_log_relative_path = paths.stdout_log_relative_path;
      stderr_log_relative_path = paths.stderr_log_relative_path;
      ocr_git_ref = git_ref;
      output_relative_path = none;
      error_code = none;
      error_message = none;
      started_at = none;
      completed_at = none;
      created_at = none;
      updated_at = none;
    }

-- The loop over the pages, from `number` on. Where a job cannot be created the error goes to the
-- caller, who rolls back.
unfoldable pub create_page_jobs_from :
    (number batch_id : ℕ)
    → Document
    → DocumentType
    → (git_ref : String) (now : ℕ) → List Page
    → Db
    → Result (List ℕ × Db)
unfolding page_job
create_page_jobs_from number batch_id document t git_ref now [] db = ok ([], db)
create_page_jobs_from number batch_id document t git_ref now (page ∷ pages) db = do
  (job, db1) ← create_job (page_job batch_id document t git_ref number page) now db
  (job_ids, db2) ← create_page_jobs_from (number + 1) batch_id document t git_ref now pages db1
  ok (page.job_id ∷ job_ids, db2)

unfoldable pub create_document_page_jobs :
    (batch_id : ℕ)
    → Document
    → DocumentType
    → (git_ref : String) (now : ℕ) → List Page
    → Db
    → Result (List ℕ × Db)
unfolding create_page_jobs_from
create_document_page_jobs batch_id document t git_ref now pages db =
    create_page_jobs_from 1 batch_id document t git_ref now pages db
