-- ===== src/Examples/Data.antt =====
-- A small database: two batches, three documents, four jobs and a record.
use marriage_be.Prelude.{ℕ, Option, none, some, [], ◌∷◌}
use marriage_be.Status
use marriage_be.Status.{
  JobStatus, DocumentStatus, BatchStatus, RecordStatus, GeminiStage, pending_review,
}
use marriage_be.DocumentType.{typed_nikah_modern}
use marriage_be.Db.Rows.{Job, Document, Batch, OcrRecord, Db, text, null}

abbrev pub job_of : (id : ℕ) (batch document : Option ℕ) → JobStatus → Job
job_of id batch document status = record {
  id = id;
  batch_id = batch;
  document_id = document;
  status = status;
  document_type = typed_nikah_modern;
  page_number = none;
  original_filename = "scan.pdf";
  stored_filename = "original.pdf";
  content_type = "application/pdf";
  file_size_bytes = 1000;
  input_relative_path = "jobs/1/input/original.pdf";
  output_relative_path = none;
  debug_relative_path = "jobs/1/debug";
  stdout_log_relative_path = "jobs/1/logs/stdout.log";
  stderr_log_relative_path = "jobs/1/logs/stderr.log";
  ocr_git_ref = "main";
  error_code = none;
  error_message = none;
  created_at = 0;
  updated_at = 0;
  started_at = none;
  completed_at = none;
  gemini_batch_stage = none;
  gemini_batch_name = none;
  gemini_batch_updated_at = none;
}

abbrev pub document_of : (id batch_id : ℕ) → DocumentStatus → Document
document_of id batch_id status = record {
  id = id;
  batch_id = batch_id;
  original_filename = "scan.pdf";
  safe_filename = "scan.pdf";
  media_type = "application/pdf";
  size_bytes = 1000;
  sha256 = "aa";
  storage_key = "batches/1/scan.pdf";
  status = status;
  document_type = typed_nikah_modern;
  page_count = some 1;
  onedrive_submission_id = none;
  created_at = 0;
  updated_at = 0;
}

abbrev pub batch_of : (id : ℕ) → BatchStatus → Batch
batch_of id status = record {
  id = id;
  name = "April";
  description = none;
  daerah = none;
  negeri = none;
  status = status;
  created_by = none;
  created_at = 0;
  updated_at = 0;
  started_at = none;
  completed_at = none;
}

abbrev pub unreviewed : OcrRecord
unreviewed = record {
  id = 7;
  job_id = 1;
  batch_id = some 1;
  document_id = some 1;
  source_key = "row";
  source_page = some 1;
  source_record_index = 0;
  status = pending_review;
  field_values = ("nama", text "Ali") ∷ ("tarikh", null) ∷ [];
  normalized_data = [];
  corrected_data = [];
  confidence = none;
  validation_issues = [];
  missing_fields = "tarikh" ∷ [];
  review_status = "PENDING_REVIEW";
  reviewed_by = none;
  reviewed_at = none;
  version = 1;
  created_at = 0;
  updated_at = 0;
}

abbrev pub empty : Db
empty = record {
  batches = [];
  documents = [];
  jobs = [];
  records = [];
  revisions = [];
  exports = [];
  submissions = [];
}

abbrev pub db : Db
db = record empty {
  batches = batch_of 1 Status.BatchStatus.processing ∷ batch_of 2 Status.BatchStatus.completed ∷ [];
  documents =
      document_of 1 1 Status.DocumentStatus.processing
      ∷ document_of 2 1 Status.DocumentStatus.processing
      ∷ document_of 3 2 Status.DocumentStatus.processed
      ∷ [];
  jobs =
      job_of 1 (some 1) (some 1) JobStatus.processing
      ∷ job_of 2 (some 1) (some 2) JobStatus.pending
      ∷ job_of 3 (some 2) (some 3) JobStatus.completed
      ∷ job_of 4 none none JobStatus.failed
      ∷ [];
  records = unreviewed ∷ [];
}
