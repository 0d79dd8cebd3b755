-- ===== src/Jobs/Processing/Cancelled.antt =====
-- A job that is cancelled while its OCR runs.
use marriage_be.Prelude.{
  String, Bool, true, Option, none, some, ◌≡◌, refl, ◌∙◌, arith, nat_eq, string_eq, Bool-cases, inl,
  inr,
}
use marriage_be.Status.{JobStatus, job_status_eq}
use marriage_be.Db.Rows.{Job, Db}
use marriage_be.Db.Result.{Result, ok, err}
use marriage_be.Jobs.Repository.{get_job, mark_completed, mark_cancelled, to_cancelled, store_job}
use marriage_be.Jobs.Service.{refresh_for}
use marriage_be.Jobs.Service.Refresh.{get_job-store_job, get_job-refresh_for, records-refresh_for}
use marriage_be.Jobs.Runner.{OcrRunResult}
use marriage_be.Jobs.Gemini.{Settings}
use marriage_be.Jobs.Processing.{
  World, complete_job, finish_run, by_failure, ran, live_run, handled, finish_cancelled, committed,
}
use marriage_be.Jobs.Processing.Steps.{mark_failed_safe_refused}

module _ (settings : Settings) (world : World) (job : Job) (db : Db) (j : Job)
    (stored : get_job db job.id ≡ some j) (stopped : j.status ≡ JobStatus.cancelled) where
  -- whatever exception comes, the cancelled row is left alone
  handled_stopped : handled world job.id (true, db) ≡ db
  unfolding handled
  handled_stopped = mark_failed_safe_refused job.id _ _ world.at.failed_at db j stored (rw stopped)

  complete_job_stopped :
      (output : String) → committed db (complete_job settings world job output db) ≡ (true, db)
  unfolding complete_job mark_completed
  complete_job_stopped output = ground arith

  finish_cancelled_stopped :
      finish_cancelled world job db
      ≡ ok (
          refresh_for job world.at.finished_at
            (store_job job.id (to_cancelled world.at.finished_at) j db).1)
  unfolding finish_cancelled mark_cancelled
  finish_cancelled_stopped = ground arith

  -- still cancelled, and no record was added
  abbrev StaysCancelled : Db → Type 0
  StaysCancelled db' =
      (j' : Job) × (get_job db' job.id ≡ some j')
      × (j'.status ≡ JobStatus.cancelled)
      × (db'.records ≡ db.records)

  unchanged-StaysCancelled : StaysCancelled db
  unchanged-StaysCancelled = (j, stored, stopped, refl)

  raised-StaysCancelled : StaysCancelled (handled world job.id (true, db))
  raised-StaysCancelled = rw handled_stopped unchanged-StaysCancelled

  acknowledged-StaysCancelled :
      StaysCancelled (handled world job.id (committed db (finish_cancelled world job db)))
  unfolding handled
  acknowledged-StaysCancelled = rw finish_cancelled_stopped (
    to_cancelled world.at.finished_at j,
    get_job-refresh_for job world.at.finished_at _ job.id
        ∙ get_job-store_job job.id (to_cancelled world.at.finished_at)
            (unfold to_cancelled in λ i. refl) db j j stored,
    unfold to_cancelled in refl,
    records-refresh_for job world.at.finished_at _ ∙ unfold store_job in refl,
  )

  by_failure-StaysCancelled :
      (is_typed : Bool) (failure : Option String)
      → StaysCancelled (handled world job.id (by_failure settings world job is_typed db failure))
  unfolding by_failure
  by_failure-StaysCancelled is_typed none = rw complete_job_stopped raised-StaysCancelled
  by_failure-StaysCancelled is_typed (some code) =
      unfold handled in
      rw (mark_failed_safe_refused job.id _ _ world.at.failed_at db j stored (rw stopped))
        unchanged-StaysCancelled

  finish_run-StaysCancelled :
      (is_typed : Bool) (result : OcrRunResult)
      → StaysCancelled (handled world job.id (finish_run settings world job is_typed result db))
  unfolding finish_run
  finish_run-StaysCancelled is_typed result = elim (Bool-cases result.cancelled) [
    | inl stop ↦ rw stop acknowledged-StaysCancelled
    | inr ran_out ↦ rw ran_out (by_failure-StaysCancelled is_typed _)
  ]

  ran-StaysCancelled :
      (outcome : Result OcrRunResult)
      → StaysCancelled (handled world job.id (ran settings world job outcome db))
  unfolding ran
  ran-StaysCancelled (err e) = raised-StaysCancelled
  ran-StaysCancelled (ok result) = finish_run-StaysCancelled _ result

-- A job that "Stop processing" cancels while its OCR runs stays cancelled, whatever the run ends
-- with: success, failure, timeout, the kill that was asked for or an exception. Nothing of its
-- output is imported.
pub cancelled_mid_run :
    (settings : Settings) (world : World) (job : Job) (db : Db) (j : Job)
    → get_job (world.during_run db) job.id ≡ some j
    → j.status ≡ JobStatus.cancelled
    → let db' = handled world job.id (live_run settings world job db) in
      (j' : Job) × (get_job db' job.id ≡ some j')
      × (j'.status ≡ JobStatus.cancelled)
      × (db'.records ≡ (world.during_run db).records)
unfolding live_run
cancelled_mid_run settings world job db j stored stopped =
    ran-StaysCancelled settings world job (world.during_run db) j stored stopped world.run
