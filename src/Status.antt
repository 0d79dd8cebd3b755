-- ===== src/Status.antt =====
-- The status enumerations of batches/status.py, jobs/status.py, records/status.py and
-- onedrive/status.py, and the stage names of jobs/gemini_batch.py. A column holds the value of its enumeration.
use marriage_be.Prelude.{Eq, ◌≡◌, ◌↔◌, Bool, true, false, arith}

-- The workflow of a reviewed record.
pub data RecordStatus : Type 0 where
  pending_review approved : RecordStatus

pub data JobStatus : Type 0 where
  pending processing completed failed cancelled : JobStatus

pub data DocumentStatus : Type 0 where
  uploaded queued processing processed failed cancelled : DocumentStatus

pub data BatchStatus : Type 0 where
  draft queued processing review_required completed failed cancelled : BatchStatus

pub data ExportStatus : Type 0 where
  pending processing completed failed : ExportStatus

pub data SubmissionStatus : Type 0 where
  pending fetching fetched failed : SubmissionStatus

-- The stages of Gemini Batch Mode, and `sync` for a job that fell back to a live run.
pub data GeminiStage : Type 0 where
  prepared submitting submitted finishing sync : GeminiStage

abbrev job_beq : JobStatus → JobStatus → Bool
job_beq pending pending = true
job_beq processing processing = true
job_beq completed completed = true
job_beq failed failed = true
job_beq cancelled cancelled = true
job_beq _ _ = false

pub job_beq_iff : (a b : JobStatus) → (job_beq a b ≡ true) ↔ (a ≡ b)
job_beq_iff a b = ground arith

abbrev document_beq : DocumentStatus → DocumentStatus → Bool
document_beq uploaded uploaded = true
document_beq queued queued = true
document_beq processing processing = true
document_beq processed processed = true
document_beq failed failed = true
document_beq cancelled cancelled = true
document_beq _ _ = false

pub document_beq_iff : (a b : DocumentStatus) → (document_beq a b ≡ true) ↔ (a ≡ b)
document_beq_iff a b = ground arith

abbrev batch_beq : BatchStatus → BatchStatus → Bool
batch_beq draft draft = true
batch_beq queued queued = true
batch_beq processing processing = true
batch_beq review_required review_required = true
batch_beq completed completed = true
batch_beq failed failed = true
batch_beq cancelled cancelled = true
batch_beq _ _ = false

pub batch_beq_iff : (a b : BatchStatus) → (batch_beq a b ≡ true) ↔ (a ≡ b)
batch_beq_iff a b = ground arith

abbrev record_beq : RecordStatus → RecordStatus → Bool
record_beq pending_review pending_review = true
record_beq approved approved = true
record_beq _ _ = false

pub record_beq_iff : (a b : RecordStatus) → (record_beq a b ≡ true) ↔ (a ≡ b)
record_beq_iff a b = ground arith

abbrev submission_beq : SubmissionStatus → SubmissionStatus → Bool
submission_beq pending pending = true
submission_beq fetching fetching = true
submission_beq fetched fetched = true
submission_beq failed failed = true
submission_beq _ _ = false

pub submission_beq_iff : (a b : SubmissionStatus) → (submission_beq a b ≡ true) ↔ (a ≡ b)
submission_beq_iff a b = ground arith

instance abbrev pub submission_status_eq : Eq SubmissionStatus
submission_status_eq = record { equal = submission_beq; equal_iff = submission_beq_iff }

instance abbrev pub record_status_eq : Eq RecordStatus
record_status_eq = record { equal = record_beq; equal_iff = record_beq_iff }

instance abbrev pub job_status_eq : Eq JobStatus
job_status_eq = record { equal = job_beq; equal_iff = job_beq_iff }

instance abbrev pub document_status_eq : Eq DocumentStatus
document_status_eq = record { equal = document_beq; equal_iff = document_beq_iff }

instance abbrev pub batch_status_eq : Eq BatchStatus
batch_status_eq = record { equal = batch_beq; equal_iff = batch_beq_iff }
