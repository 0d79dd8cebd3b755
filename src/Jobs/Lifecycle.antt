-- ===== src/Jobs/Lifecycle.antt =====
-- The operations of the job repository as moves of a state machine.
pub mod Rows
pub mod Moves
pub mod Consistency
use marriage_be.Prelude.{
  ℕ, String, Bool, true, false, ◌&&◌, List, [], ◌∷◌, ◌==◌, refers, if◌then◌else◌, nat_eq, mem,
}
use marriage_be.Status.{JobStatus, job_status_eq}
use marriage_be.Db.Rows.{Job, Db}
use marriage_be.Db.Result.{Result, ok, err}
use marriage_be.Jobs.Repository.{
  NewJob, create_job, mark_processing, mark_completed, mark_failed, mark_pending_for_retry,
  mark_cancelled, cancel_pending_and_processing_jobs_for_batch, fail_interrupted_jobs,
  fail_stale_processing_jobs,
}

-- A call of the repository with its arguments.
pub data Op : Type 0 where
  create : NewJob → (now : ℕ) → Op
  start : (job_id started_at : ℕ) → Op
  complete : (job_id : ℕ) (output : String) (completed_at : ℕ) → Op
  fail : (job_id : ℕ) (code message : String) (completed_at : ℕ) → Op
  retry : (job_id now : ℕ) → Op
  cancel : (job_id completed_at : ℕ) → Op
  cancel_batch : (batch_id completed_at : ℕ) → Op
  fail_interrupted : (completed_at : ℕ) → Op
  fail_stale : (now stale_after : ℕ) → Op

abbrev pub kept : Db → Result (Job × Db) → Db
kept db (ok (job, db')) = db'
kept db (err e) = db

-- The database after a call; a call that raises leaves it as it was.
unfoldable pub perform : Op → Db → Db
perform (create n now) db = kept db (create_job n now db)
perform (start job_id t) db = kept db (mark_processing job_id t db)
perform (complete job_id output t) db = kept db (mark_completed job_id output t db)
perform (fail job_id code message t) db = kept db (mark_failed job_id code message t db)
perform (retry job_id now) db = kept db (mark_pending_for_retry job_id now db)
perform (cancel job_id t) db = kept db (mark_cancelled job_id t db)
perform (cancel_batch b t) db = (cancel_pending_and_processing_jobs_for_batch b t db).1
perform (fail_interrupted t) db = (fail_interrupted_jobs t db).1
perform (fail_stale now stale_after) db = (fail_stale_processing_jobs now stale_after db).1

unfoldable pub perform_all : List Op → Db → Db
perform_all [] db = db
perform_all (op ∷ ops) db = perform_all ops (perform op db)
