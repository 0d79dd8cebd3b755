-- ===== src/Db/Rows.antt =====
-- The rows of db/models.py, batches/models.py and records/models.py. A UUID and an instant are
-- numbers; a text column that the program only stores and compares is a `String`.
use marriage_be.Prelude.{ℕ, String, Bool, Option, List}
use marriage_be.Status.{
  JobStatus, DocumentStatus, BatchStatus, ExportStatus, SubmissionStatus, RecordStatus, GeminiStage,
}
use marriage_be.DocumentType.{DocumentType}

pub record Job : Type 0 where
  pub id : ℕ
  pub batch_id : Option ℕ
  pub document_id : Option ℕ
  pub status : JobStatus
  pub document_type : DocumentType
  pub page_number : Option ℕ
  pub original_filename : String
  pub stored_filename : String
  pub content_type : String
  pub file_size_bytes : ℕ
  pub input_relative_path : String
  pub output_relative_path : Option String
  pub debug_relative_path : String
  pub stdout_log_relative_path : String
  pub stderr_log_relative_path : String
  pub ocr_git_ref : String
  pub error_code : Option String
  pub error_message : Option String
  pub created_at : ℕ
  pub updated_at : ℕ
  pub started_at : Option ℕ
  pub completed_at : Option ℕ
  pub gemini_batch_stage : Option GeminiStage
  pub gemini_batch_name : Option String
  pub gemini_batch_updated_at : Option ℕ

pub record Document : Type 0 where
  pub id : ℕ
  pub batch_id : ℕ
  pub original_filename : String
  pub safe_filename : String
  pub media_type : String
  pub size_bytes : ℕ
  pub sha256 : String
  pub storage_key : String
  pub status : DocumentStatus
  pub document_type : DocumentType
  pub page_count : Option ℕ
  pub onedrive_submission_id : Option ℕ
  pub created_at : ℕ
  pub updated_at : ℕ

pub record Batch : Type 0 where
  pub id : ℕ
  pub name : String
  pub description : Option String
  pub daerah : Option String
  pub negeri : Option String
  pub status : BatchStatus
  pub created_by : Option ℕ
  pub created_at : ℕ
  pub updated_at : ℕ
  pub started_at : Option ℕ
  pub completed_at : Option ℕ

pub record Export : Type 0 where
  pub id : ℕ
  pub batch_id : ℕ
  pub format : String
  pub status : ExportStatus
  pub storage_key : Option String
  pub record_count : Option ℕ
  pub created_by : Option ℕ
  pub error_message : Option String
  pub created_at : ℕ
  pub completed_at : Option ℕ

-- A Python object as the program observes it: `None`, a text, or any other value by its truth
-- value and its `str()`.
pub data Value : Type 0 where
  null : Value
  text : String → Value
  other : (truthy : Bool) (shown : String) → Value

abbrev pub Fields : Type 0
Fields = List (String × Value)

-- An entry of `normalized_data`: a field's value, the issues or the values that were replaced.
pub data Note : Type 0 where
  value : Value → Note
  issues : List String → Note
  originals : Fields → Note

-- A finite float that is not negative, as the multiple of 2^-1074 that it is.
abbrev pub Confidence : Type 0
Confidence = ℕ

pub record OcrRecord : Type 0 where
  pub id : ℕ
  pub job_id : ℕ
  pub batch_id : Option ℕ
  pub document_id : Option ℕ
  pub source_key : String
  pub source_page : Option ℕ
  pub source_record_index : ℕ
  pub status : RecordStatus
  pub field_values : Fields
  pub normalized_data : List (String × Note)
  pub corrected_data : Fields
  pub confidence : Option Confidence
  pub validation_issues : List String
  pub missing_fields : List String
  pub review_status : String
  pub reviewed_by : Option String
  pub reviewed_at : Option ℕ
  pub version : ℕ
  pub created_at : ℕ
  pub updated_at : ℕ

pub record Revision : Type 0 where
  pub record_id : ℕ
  pub version : ℕ
  pub previous_values : Fields
  pub new_values : Fields
  pub reviewer : Option String
  pub note : Option String
  pub created_at : ℕ

pub record Submission : Type 0 where
  pub id : ℕ
  pub batch_id : ℕ
  pub url : String
  pub status : SubmissionStatus
  pub error_code : Option String
  pub error_message : Option String
  pub skipped_files : Option (List Fields)
  pub created_at : ℕ
  pub updated_at : ℕ
  pub fetched_at : Option ℕ
  pub fetch_attempts : ℕ
  pub title : Option String

-- Every table. The list of a table is in the order in which an unordered SELECT yields its rows.
pub record Db : Type 0 where
  pub batches : List Batch
  pub documents : List Document
  pub jobs : List Job
  pub records : List OcrRecord
  pub revisions : List Revision
  pub exports : List Export
  pub submissions : List Submission
