-- ===== src/Jobs/Service.antt =====
-- jobs/service.py: retrying a job, and recovering jobs that no process runs any more.
pub mod Recovery
pub mod Refresh
pub mod Retry
use marriage_be.Prelude.{
  ℕ, String, Bool, true, false, Option, none, some, List, [], ◌∷◌, ◌==◌, nat_eq, mem, length,
  is_some, if◌then◌else◌,
}
use marriage_be.Db.Rows.{Job, Db}
use marriage_be.Db.Result.{
  Error, Result, ok, err, ◌>>◌, guard, api_error, job_transition, cannot_fail, foreign,
}
use marriage_be.Jobs.Repository.{
  get_job, mark_pending_for_retry, is_retryable, is_active, store_job, to_failed,
  fail_interrupted_jobs, fail_stale_processing_jobs,
}
use marriage_be.Batches.Recompute.{
  recompute_batch_status, recompute_document_of, recompute_batch_of,
}
use marriage_be.Batches.Recompute.Loops.{visit_document}

unfoldable get_job_or_raise : ℕ → Db → Result Job
unfolding get_job
get_job_or_raise job_id db = elim (get_job db job_id) [
  | none ↦ err (api_error 404 "JOB_NOT_FOUND")
  | some job ↦ ok job
]

-- the document's status and then the batch's, as after each change of a job
abbrev pub refresh_for : Job → ℕ → Db → Db
refresh_for job now db =
    recompute_batch_of job.batch_id now (recompute_document_of job.document_id now db)

-- `mark_failed` in the session of the retry, which keeps its objects over a commit: it reads the job
-- as the retry left it, and writes the columns that it sets to the row as that is now.
mark_loaded_failed : Job → (job_id now : ℕ) → Db → Result (Job × Db)
unfolding store_job get_job to_failed
mark_loaded_failed job job_id now db = do
  guard (is_active job) (job_transition (cannot_fail job.status))
  guard (is_some (get_job db job_id)) (foreign "StaleDataError")
  ok (
      store_job job_id
        (to_failed "INTERNAL_PROCESSING_ERROR"
          "The OCR job could not be resubmitted for background processing." now)
        job db)

-- `mark_failed` may raise itself; then nothing is committed.
resubmission_failed : Job → (job_id now : ℕ) → Db → Result Job × Db
unfolding mark_loaded_failed
resubmission_failed job job_id now db = elim (mark_loaded_failed job job_id now db) [
  | err e ↦ (err e, db)
  | ok (failed, db1) ↦ (err (api_error 500 "INTERNAL_ERROR"), refresh_for job now db1)
]

submit_retried : (ℕ → Db → Result (Unit {0}) × Db) → Job → (job_id now : ℕ) → Db → Result Job × Db
unfolding resubmission_failed
submit_retried submit job job_id now db =
    let (submitted, db') = submit job_id db in
    elim submitted [ ok _ ↦ (ok job, db') | err e ↦ resubmission_failed job job_id now db' ]

retry_found : (ℕ → Db → Result (Unit {0}) × Db) → Job → (job_id now : ℕ) → Db → Result Job × Db
unfolding submit_retried
retry_found submit job job_id now db =
    if is_retryable job
    then elim (mark_pending_for_retry job_id now db) [
      | err e ↦ (err e, db)
      | ok (pending, db1) ↦ submit_retried submit pending job_id now (refresh_for pending now db1)
    ]
    else (err (api_error 409 "JOB_NOT_RETRYABLE"), db)

-- `submit` is the executor, which may raise and may change the database. The result is the object
-- that the session loaded, which its commits leave as it is.
unfoldable pub retry_job :
    (submit : ℕ → Db → Result (Unit {0}) × Db) → (job_id now : ℕ) → Db → Result Job × Db
unfolding retry_found get_job_or_raise
retry_job submit job_id now db = elim (get_job_or_raise job_id db) [
  | err e ↦ (err e, db)
  | ok job ↦ retry_found submit job job_id now db
]

-- a batch once, with the set of the batches already seen
abbrev pub visit_batch : Option ℕ → List ℕ → ℕ → Db → List ℕ × Db
visit_batch none seen now db = (seen, db)
visit_batch (some b) seen now db =
    if mem b seen then (seen, db) else (b ∷ seen, recompute_batch_status b now db)

unfoldable pub recompute_status_for_jobs :
    List Job → (seen_document_ids seen_batch_ids : List ℕ) → ℕ → Db → Db
recompute_status_for_jobs [] documents batches now db = db
recompute_status_for_jobs (job ∷ jobs) documents batches now db =
    let (documents', db1) = visit_document job.document_id documents now db in
    let (batches', db2) = visit_batch job.batch_id batches now db1 in
    recompute_status_for_jobs jobs documents' batches' now db2

unfoldable pub recover_interrupted_jobs : (now : ℕ) → Db → ℕ × Db
recover_interrupted_jobs now db =
    let (failed_jobs, db1) = fail_interrupted_jobs now db in
    (length failed_jobs, recompute_status_for_jobs failed_jobs [] [] now db1)

unfoldable pub recover_stale_jobs : (stale_after now : ℕ) → Db → ℕ × Db
recover_stale_jobs stale_after now db =
    let (failed_jobs, db1) = fail_stale_processing_jobs now stale_after db in
    (length failed_jobs, recompute_status_for_jobs failed_jobs [] [] now db1)
