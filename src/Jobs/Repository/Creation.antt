-- ===== src/Jobs/Repository/Creation.antt =====
-- db/repositories.py: create_job.
use marriage_be.Prelude.{ℕ, String, not, Option, none, some, [], ◌∷◌, ◌++◌, is_some}
use marriage_be.Status.{JobStatus, job_status_eq}
use marriage_be.DocumentType.{DocumentType}
use marriage_be.Db.Rows.{Job, Db}
use marriage_be.Db.Table.{find}
use marriage_be.Db.Result.{Result, ok, ◌>>◌, guard, integrity_error}

abbrev pub job_key : Job → ℕ
job_key j = j.id

-- The arguments of `create_job` that are columns, with its defaults filled in by the caller.
pub record NewJob : Type 0 where
  pub id : ℕ
  pub batch_id : Option ℕ
  pub document_id : Option ℕ
  pub status : JobStatus
  pub document_type : DocumentType
  pub page_number : Option ℕ
  pub original_filename : String
  pub stored_filename : String
  pub content_type : String
  pub file_size_bytes : ℕ
  pub input_relative_path : String
  pub debug_relative_path : String
  pub stdout_log_relative_path : String
  pub stderr_log_relative_path : String
  pub ocr_git_ref : String
  pub output_relative_path : Option String
  pub error_code : Option String
  pub error_message : Option String
  pub started_at : Option ℕ
  pub completed_at : Option ℕ
  pub created_at : Option ℕ
  pub updated_at : Option ℕ

abbrev or_now : Option ℕ → ℕ → ℕ
or_now none now = now
or_now (some t) now = t

unfoldable pub job_row : NewJob → ℕ → Job
job_row n now = record {
  id = n.id;
  batch_id = n.batch_id;
  document_id = n.document_id;
  status = n.status;
  document_type = n.document_type;
  page_number = n.page_number;
  original_filename = n.original_filename;
  stored_filename = n.stored_filename;
  content_type = n.content_type;
  file_size_bytes = n.file_size_bytes;
  input_relative_path = n.input_relative_path;
  output_relative_path = n.output_relative_path;
  debug_relative_path = n.debug_relative_path;
  stdout_log_relative_path = n.stdout_log_relative_path;
  stderr_log_relative_path = n.stderr_log_relative_path;
  ocr_git_ref = n.ocr_git_ref;
  error_code = n.error_code;
  error_message = n.error_message;
  created_at = or_now n.created_at now;
  updated_at = or_now n.updated_at now;
  started_at = n.started_at;
  completed_at = n.completed_at;
  gemini_batch_stage = none;
  gemini_batch_name = none;
  gemini_batch_updated_at = none;
}

-- The flush raises where the primary key is taken.
unfoldable pub create_job : NewJob → ℕ → Db → Result (Job × Db)
unfolding job_row find
create_job n now db = do
  guard (not (is_some (find job_key n.id db.jobs))) integrity_error
  ok (job_row n now, record db { jobs = db.jobs ++ job_row n now ∷ [] })
