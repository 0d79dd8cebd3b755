-- ===== src/Jobs/Repository.antt =====
-- db/repositories.py: the operations on rows of `ocr_jobs`.
mod Creation
unfoldable pub use marriage_be.Jobs.Repository.Creation.{job_row, create_job}
pub use marriage_be.Jobs.Repository.Creation.{job_key, NewJob}
use Prim.Native.Nat.{◌/◌}
use Prim.Native.String
use marriage_be.Prelude.{
  ℕ, ◌+◌, String, Bool, true, false, ◌&&◌, not, Option, none, some, List, [], ◌∷◌, ◌++◌, map, ◌==◌,
  mem, refers, ltb, select, decimal, is_some,
}
use marriage_be.Status.{JobStatus, GeminiStage, job_status_eq}
use marriage_be.DocumentType.{DocumentType}
use marriage_be.Db.Rows.{Job, Db}
use marriage_be.Db.Table.{find, modify, update}
use marriage_be.Db.Result.{
  Result, ok, err, ◌>>=◌, ◌>>◌, guard, job_transition, integrity_error, does_not_exist, not_pending,
  not_processing, not_failed_or_cancelled, cannot_fail, cannot_be_cancelled,
}

unfoldable pub get_job : Db → ℕ → Option Job
unfolding find
get_job db job_id = find job_key job_id db.jobs

abbrev pub found : Option Job → Result Job
found none = err (job_transition does_not_exist)
found (some job) = ok job

unfoldable pub require_job : Db → ℕ → Result Job
unfolding get_job
require_job db job_id = found (get_job db job_id)

-- The attributes of the loaded object are set and flushed; the object is returned.
unfoldable pub store_job : ℕ → (Job → Job) → Job → Db → Job × Db
unfolding update
store_job job_id change job db =
    (change job, record db { jobs = update job_key job_id change db.jobs })

unfoldable pub to_processing : ℕ → Job → Job
to_processing started_at job = record job {
  status = JobStatus.processing;
  started_at = some started_at;
  updated_at = started_at;
}

unfoldable pub mark_processing : ℕ → ℕ → Db → Result (Job × Db)
unfolding require_job store_job to_processing
mark_processing job_id started_at db = do
  job ← require_job db job_id
  guard (job.status == JobStatus.pending) (job_transition not_pending)
  ok (store_job job_id (to_processing started_at) job db)

unfoldable pub to_completed : String → ℕ → Job → Job
to_completed output_relative_path completed_at job = record job {
  status = JobStatus.completed;
  output_relative_path = some output_relative_path;
  completed_at = some completed_at;
  updated_at = completed_at;
}

unfoldable pub mark_completed : ℕ → String → ℕ → Db → Result (Job × Db)
unfolding require_job store_job to_completed
mark_completed job_id output_relative_path completed_at db = do
  job ← require_job db job_id
  guard (job.status == JobStatus.processing) (job_transition not_processing)
  ok (store_job job_id (to_completed output_relative_path completed_at) job db)

unfoldable pub to_failed : String → String → ℕ → Job → Job
to_failed error_code error_message completed_at job = record job {
  status = JobStatus.failed;
  error_code = some error_code;
  error_message = some error_message;
  completed_at = some completed_at;
  updated_at = completed_at;
}

abbrev pub is_active : Job → Bool
is_active job = mem job.status (JobStatus.pending ∷ JobStatus.processing ∷ [])

unfoldable pub mark_failed : ℕ → String → String → ℕ → Db → Result (Job × Db)
unfolding require_job store_job to_failed
mark_failed job_id error_code error_message completed_at db = do
  job ← require_job db job_id
  guard (is_active job) (job_transition (cannot_fail job.status))
  ok (store_job job_id (to_failed error_code error_message completed_at) job db)

unfoldable pub to_pending : ℕ → Job → Job
to_pending now job = record job {
  status = JobStatus.pending;
  error_code = none;
  error_message = none;
  started_at = none;
  completed_at = none;
  gemini_batch_stage = none;
  gemini_batch_name = none;
  gemini_batch_updated_at = none;
  updated_at = now;
}

abbrev pub is_retryable : Job → Bool
is_retryable job = mem job.status (JobStatus.failed ∷ JobStatus.cancelled ∷ [])

unfoldable pub mark_pending_for_retry : ℕ → ℕ → Db → Result (Job × Db)
unfolding require_job store_job to_pending
mark_pending_for_retry job_id now db = do
  job ← require_job db job_id
  guard (is_retryable job) (job_transition not_failed_or_cancelled)
  ok (store_job job_id (to_pending now) job db)

unfoldable pub to_cancelled : ℕ → Job → Job
to_cancelled completed_at job = record job {
  status = JobStatus.cancelled;
  completed_at = some completed_at;
  updated_at = completed_at;
}

abbrev pub is_cancellable : Job → Bool
is_cancellable job =
    mem job.status (JobStatus.pending ∷ JobStatus.processing ∷ JobStatus.cancelled ∷ [])

unfoldable pub mark_cancelled : ℕ → ℕ → Db → Result (Job × Db)
unfolding require_job store_job to_cancelled
mark_cancelled job_id completed_at db = do
  job ← require_job db job_id
  guard (is_cancellable job) (job_transition (cannot_be_cancelled job.status))
  ok (store_job job_id (to_cancelled completed_at) job db)

-- The jobs that a query selects are mutated one after the other and returned.
unfoldable pub sweep : (Job → Bool) → (Job → Job) → Db → List Job × Db
unfolding select modify
sweep wanted change db =
    (map change (select wanted db.jobs), record db { jobs = modify wanted change db.jobs })

unfoldable pub cancel_pending_and_processing_jobs_for_batch : ℕ → ℕ → Db → List Job × Db
unfolding sweep to_cancelled
cancel_pending_and_processing_jobs_for_batch batch_id completed_at =
    sweep (λ job. refers job.batch_id batch_id && is_active job) (to_cancelled completed_at)

abbrev is_batch_waiting : GeminiStage → Bool
is_batch_waiting GeminiStage.prepared = true
is_batch_waiting GeminiStage.submitting = true
is_batch_waiting GeminiStage.submitted = true
is_batch_waiting GeminiStage.finishing = true
is_batch_waiting GeminiStage.sync = false

abbrev not_in_waiting : Option GeminiStage → Bool
not_in_waiting none = true
not_in_waiting (some stage) = not (is_batch_waiting stage)

abbrev not_waiting_on_gemini_batch : Job → Bool
not_waiting_on_gemini_batch job = not_in_waiting job.gemini_batch_stage

abbrev pub is_interrupted : Job → Bool
is_interrupted job = job.status == JobStatus.processing && not_waiting_on_gemini_batch job

unfoldable pub fail_interrupted_jobs : ℕ → Db → List Job × Db
unfolding sweep to_failed
fail_interrupted_jobs completed_at = sweep is_interrupted (
    to_failed "PROCESS_INTERRUPTED" "OCR processing was interrupted by an application restart."
      completed_at)

-- `started_at < now - stale_after`, in microseconds
abbrev started_before : Option ℕ → ℕ → ℕ → Bool
started_before none now stale_after = false
started_before (some t) now stale_after = ltb (t + stale_after) now

abbrev pub is_stale : ℕ → ℕ → Job → Bool
is_stale now stale_after job =
    job.status == JobStatus.processing
    && started_before job.started_at now stale_after
    && not_waiting_on_gemini_batch job

unfoldable pub stalled_message : ℕ → String
unfolding decimal
stalled_message stale_after = String.◌++◌ "OCR processing exceeded " (
    String.◌++◌ (decimal (stale_after / 1000000))
      "s with no update; the worker likely crashed or was killed mid-job.")

unfoldable pub fail_stale_processing_jobs : ℕ → ℕ → Db → List Job × Db
unfolding sweep to_failed stalled_message
fail_stale_processing_jobs now stale_after =
    sweep (is_stale now stale_after) (to_failed "PROCESS_STALLED" (stalled_message stale_after) now)
