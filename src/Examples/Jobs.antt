-- ===== src/Examples/Jobs.antt =====
-- Jobs that are run, stopped, delivered twice, retried and recovered.
use marriage_be.Prelude.{
  ℕ, ◌+◌, true, false, none, some, List, [], ◌∷◌, ◌≡◌, refl, ap, sym, any, select, nat_eq,
  string_eq, some_inj, none≢some,
}
use marriage_be.Status.{DocumentStatus, BatchStatus, JobStatus, job_status_eq}
use marriage_be.DocumentType.{typed_nikah_modern}
use marriage_be.Db.Rows.{Job, Db, Document}
use marriage_be.Db.Result.{Result, ok, err, lookup_error}
use marriage_be.Jobs.Repository.{NewJob, get_job, job_row, to_failed}
use marriage_be.Jobs.Lifecycle.{Op, create, start, complete, fail, retry, perform, perform_all}
use marriage_be.Jobs.Lifecycle.Moves.{MoveOrStay, perform-MoveOrStay, completed_is_final}
use marriage_be.Jobs.Lifecycle.Consistency.{AreConsistent, IsConsistent, perform_all-AreConsistent}
use marriage_be.Jobs.Service.{
  refresh_for, recover_interrupted_jobs, recover_stale_jobs, recompute_status_for_jobs,
}
use marriage_be.Jobs.Service.Refresh.{IsRefreshed, refresh_for-IsRefreshed}
use marriage_be.Jobs.Service.Retry.{IsRetried, retry_job_accepted}
use marriage_be.Jobs.Service.Recovery.{recover-IsFresh, recompute_status_for_jobs_stale}
use marriage_be.Jobs.Gemini.{Settings}
use marriage_be.Jobs.Processing.{World, handled, live_run, process_ocr_job}
use marriage_be.Jobs.Processing.Cancelled.{cancelled_mid_run}
use marriage_be.Jobs.Processing.Outcomes.{process_redelivered}
use marriage_be.Jobs.Processing.Endings.{live_run_ends}
use mathlib.Core.Logic.{◌⊎◌}
use marriage_be.Jobs.Repository.{is_active}
use marriage_be.Prelude.{false}
use marriage_be.Batches.Recompute.{
  recompute_document_status, recompute_batch_status, job_statuses, next_document_status,
  document_statuses, next_batch_status,
}
use marriage_be.Batches.Recompute.Fresh.{IsFresh, IsFreshBatch}
use marriage_be.Batches.Repository.{get_document, get_batch}
use marriage_be.Examples.Data.{db, empty, job_of, batch_of}

abbrev new_job : NewJob
new_job = record {
  id = 5;
  batch_id = some 1;
  document_id = some 1;
  status = JobStatus.pending;
  document_type = typed_nikah_modern;
  page_number = none;
  original_filename = "scan.pdf";
  stored_filename = "original.pdf";
  content_type = "application/pdf";
  file_size_bytes = 1000;
  input_relative_path = "jobs/5/input/original.pdf";
  output_relative_path = none;
  debug_relative_path = "jobs/5/debug";
  stdout_log_relative_path = "jobs/5/logs/stdout.log";
  stderr_log_relative_path = "jobs/5/logs/stderr.log";
  ocr_git_ref = "main";
  error_code = none;
  error_message = none;
  created_at = none;
  updated_at = none;
  started_at = none;
  completed_at = none;
}

abbrev running : Job
running = job_of 1 (some 1) (some 1) JobStatus.processing

perform-MoveOrStay_example :
    (j' : Job) × (get_job (perform (complete 1 "out.csv" 9) db) 1 ≡ some j')
    × MoveOrStay JobStatus.processing j'.status
    × (j'.batch_id ≡ some 1)
    × (j'.document_id ≡ some 1)
    × (j'.document_type ≡ typed_nikah_modern)
unfolding get_job
perform-MoveOrStay_example = perform-MoveOrStay (complete 1 "out.csv" 9) db 1 running refl

completed_is_final_example :
    get_job (perform_all (retry 3 8 ∷ fail 3 "X" "x" 9 ∷ []) db) 3
    ≡ some (job_of 3 (some 2) (some 3) JobStatus.completed)
unfolding get_job
completed_is_final_example =
    completed_is_final (retry 3 8 ∷ fail 3 "X" "x" 9 ∷ []) db 3
      (job_of 3 (some 2) (some 3) JobStatus.completed) refl refl

abbrev one_run : List Op
one_run = create new_job 1 ∷ start 5 2 ∷ fail 5 "X" "x" 3 ∷ retry 5 4 ∷ []

new_job-IsConsistent : IsConsistent (job_row new_job 1)
unfolding job_row
new_job-IsConsistent = record {
  output = refl;
  code = refl;
  message = refl;
  finished = refl;
  started = refl;
}

no_jobs : (k : ℕ) → get_job empty k ≡ none
unfolding get_job
no_jobs k = refl

empty-AreConsistent : AreConsistent empty
empty-AreConsistent k j h = absurd (none≢some (rw no_jobs at h))

perform_all-AreConsistent_example : AreConsistent (perform_all one_run empty)
perform_all-AreConsistent_example =
    perform_all-AreConsistent one_run empty (new_job-IsConsistent, (tt, (tt, (tt, tt))))
      empty-AreConsistent

abbrev settings : Settings
settings = record {
  storage_is_s3 = true;
  gemini_batch_enabled = false;
  typed_reader = "local";
  auto_approve_not_recorded = false;
}

-- job 1 is stopped while it runs
abbrev stopped : Job
stopped = job_of 1 (some 1) (some 1) JobStatus.cancelled

abbrev stopped_db : Db
stopped_db = record db { jobs = stopped ∷ [] }

abbrev world : World
world = record {
  at = record { started_at = 1; prepared_at = 2; finished_at = 3; failed_at = 4 };
  materialized = ok tt;
  preparation = record { prepared_by_command = ok false; pushed = ok tt };
  run = ok (record { return_code_is_zero = true; timed_out = false; cancelled = false });
  output_size = some 10;
  stderr_excerpt = "";
  output_pushed = ok tt;
  imported_rows = ok [];
  fresh_id = λ i. i + 100;
  during_run = λ d. stopped_db;
}

cancelled_mid_run_example :
    let db' = handled world 1 (live_run settings world running db) in
    (j' : Job) × (get_job db' 1 ≡ some j')
    × (j'.status ≡ JobStatus.cancelled)
    × (db'.records ≡ stopped_db.records)
unfolding get_job
cancelled_mid_run_example = cancelled_mid_run settings world running db stopped refl refl

-- the OCR of job 1 ends while it is still processing
abbrev quiet_world : World
quiet_world = record world { during_run = λ d. d }

live_run_ends_example :
    let db' = handled quiet_world 1 (live_run settings quiet_world running db) in
    (j' : Job) × (get_job db' 1 ≡ some j')
    × (is_active j' ≡ false)
    × ((j'.status ≡ JobStatus.completed) ⊎ (db'.records ≡ db.records))
unfolding get_job
live_run_ends_example = live_run_ends settings quiet_world running db running refl refl

process_redelivered_example :
    let db' = process_ocr_job settings world 1 db in
    (get_job db' 1
      ≡ some (
          to_failed "INTERNAL_PROCESSING_ERROR"
            "The OCR job encountered an internal processing error." 4 running))
    × (db'.records ≡ db.records)
unfolding get_job
process_redelivered_example = process_redelivered settings world 1 db running refl refl

-- an executor that takes every job, and one that takes none
abbrev takes_all : ℕ → Db → Result (Unit {0}) × Db
takes_all id d = (ok tt, d)

abbrev takes_none : ℕ → Db → Result (Unit {0}) × Db
takes_none id d = (err lookup_error, d)

abbrev failed_job : Job
failed_job = job_of 4 none none JobStatus.failed

retry_job_accepted_example : IsRetried takes_all 4 9 db failed_job
unfolding get_job
retry_job_accepted_example = retry_job_accepted takes_all 4 9 db failed_job refl refl (λ d. refl)

refresh_for-IsRefreshed_example : IsRefreshed running (refresh_for running 9 db)
refresh_for-IsRefreshed_example = refresh_for-IsRefreshed running 9 db

db-IsFresh : IsFresh db 1
unfolding get_document job_statuses select next_document_status any
db-IsFresh d stored some_job = ap (λ (x : Document). x.status) (sym (some_inj stored))

recover-IsFresh_example :
    IsFresh (recover_interrupted_jobs 9 db).1 1 × IsFresh (recover_stale_jobs 5 9 db).1 1
recover-IsFresh_example = recover-IsFresh 5 9 db 1 db-IsFresh

-- Each of the two documents has a completed job and one that is recovered.
abbrev first_failed : Job
first_failed = job_of 1 (some 1) (some 1) JobStatus.failed

abbrev second_failed : Job
second_failed = job_of 2 (some 1) (some 2) JobStatus.failed

abbrev recovered_db : Db
recovered_db = record db {
  jobs =
      first_failed
      ∷ second_failed
      ∷ job_of 5 (some 1) (some 1) JobStatus.completed
      ∷ job_of 6 (some 1) (some 2) JobStatus.completed
      ∷ [];
}

statuses_before :
    document_statuses (recompute_document_status 1 9 recovered_db) 1
    ≡ DocumentStatus.processed ∷ DocumentStatus.processing ∷ []
unfolding document_statuses recompute_document_status next_document_status job_statuses
statuses_before = refl

statuses_after :
    document_statuses
      (recompute_status_for_jobs (first_failed ∷ second_failed ∷ []) [] [] 9 recovered_db)
      1
    ≡ DocumentStatus.processed ∷ DocumentStatus.processed ∷ []
unfolding document_statuses recompute_document_status recompute_batch_status next_document_status
    job_statuses recompute_status_for_jobs
statuses_after = refl

aggregate_before :
    next_batch_status (DocumentStatus.processed ∷ DocumentStatus.processing ∷ [])
    ≡ BatchStatus.processing
unfolding next_batch_status
aggregate_before = refl

aggregate_after :
    next_batch_status (DocumentStatus.processed ∷ DocumentStatus.processed ∷ [])
    ≡ BatchStatus.completed
unfolding next_batch_status
aggregate_after = refl

-- the batch stays PROCESSING
recompute_status_for_jobs_stale_example :
    ¬ IsFreshBatch
      (recompute_status_for_jobs (first_failed ∷ second_failed ∷ []) [] [] 9 recovered_db)
      1
unfolding get_batch
recompute_status_for_jobs_stale_example =
    recompute_status_for_jobs_stale first_failed second_failed 1 2 1 9 recovered_db
      (batch_of 1 BatchStatus.processing) refl refl refl refl refl refl
      (rw statuses_before (λ h. cc)) (rw statuses_after (λ h. cc))
      (rw (statuses_before, statuses_after, aggregate_before, aggregate_after) (λ h. cc))
