-- ===== src/Jobs/Processing/Outcomes.antt =====
-- A task message that the queue delivers for a job that is no longer pending.
use marriage_be.Prelude.{
  ℕ, true, false, some, ◌==◌, ◌≡◌, sym, ◌∙◌, ap, arith, if◌then◌else◌, Bool-cases, inl, inr,
}
use marriage_be.Status.{JobStatus, job_status_eq}
use marriage_be.Db.Rows.{Job, Db}
use marriage_be.Jobs.Repository.{get_job, is_active, mark_processing, to_failed}
use marriage_be.Jobs.Gemini.{Settings}
use marriage_be.Jobs.Processing.{World, begin, handled, process_ocr_job, mark_failed_safe}
use marriage_be.Jobs.Processing.Steps.{get_job-mark_failed_safe, records-mark_failed_safe}

module _ (settings : Settings) (world : World) (id : ℕ) (db : Db) (j : Job)
    (stored : get_job db id ≡ some j) where
  internal_error : Db
  internal_error =
      mark_failed_safe id "INTERNAL_PROCESSING_ERROR"
        "The OCR job encountered an internal processing error." world.at.failed_at db

  process_cancelled : j.status ≡ JobStatus.cancelled → process_ocr_job settings world id db ≡ db
  unfolding process_ocr_job begin
  process_cancelled h = ground arith

  process_refused :
      (j.status == JobStatus.pending) ≡ false
      → (j.status == JobStatus.cancelled) ≡ false
      → process_ocr_job settings world id db ≡ internal_error
  unfolding process_ocr_job begin handled mark_processing internal_error
  process_refused h k = ground arith

  status_after : Job → Job
  status_after j =
      if j.status == JobStatus.processing
      then to_failed "INTERNAL_PROCESSING_ERROR"
          "The OCR job encountered an internal processing error." world.at.failed_at j
      else j

  active_is_processing :
      (j.status == JobStatus.pending) ≡ false → is_active j ≡ (j.status == JobStatus.processing)
  active_is_processing h = ground arith

  internal_error-status_after :
      (j.status == JobStatus.pending) ≡ false → get_job internal_error id ≡ some (status_after j)
  unfolding internal_error status_after
  internal_error-status_after h =
      get_job-mark_failed_safe id _ _ world.at.failed_at db j stored
      ∙ ap
          (λ b. some (
            if b
            then to_failed "INTERNAL_PROCESSING_ERROR"
                "The OCR job encountered an internal processing error." world.at.failed_at j
            else j))
          (active_is_processing h)

  cancelled-status_after : j.status ≡ JobStatus.cancelled → get_job db id ≡ some (status_after j)
  unfolding status_after
  cancelled-status_after h =
      stored
      ∙ ap
          (λ s. some (
            if s == JobStatus.processing
            then to_failed "INTERNAL_PROCESSING_ERROR"
                "The OCR job encountered an internal processing error." world.at.failed_at j
            else j))
          (sym h)

is_cancelled : {s : JobStatus} → (s == JobStatus.cancelled) ≡ true → s ≡ JobStatus.cancelled
is_cancelled {s} h = (job_status_eq.equal_iff s JobStatus.cancelled).0 h

-- A task message that comes for a stored job that is not pending imports nothing. A finished job
-- keeps its row; a job that is still `processing` (its worker died, and the queue delivers the
-- message again) becomes failed with INTERNAL_PROCESSING_ERROR.
pub process_redelivered :
    (settings : Settings) (world : World) (id : ℕ) (db : Db) (j : Job)
    → get_job db id ≡ some j
    → (j.status == JobStatus.pending) ≡ false
    → let db' = process_ocr_job settings world id db in
      (get_job db' id
        ≡ some (
            if j.status == JobStatus.processing
            then to_failed "INTERNAL_PROCESSING_ERROR"
                "The OCR job encountered an internal processing error." world.at.failed_at j
            else j))
      × (db'.records ≡ db.records)
process_redelivered settings world id db j stored h =
    elim (Bool-cases (j.status == JobStatus.cancelled)) [
      | inl stop ↦ (
        ap (λ d. get_job d id) (process_cancelled settings world id db j stored (is_cancelled stop))
            ∙ unfold status_after in
              cancelled-status_after settings world id db j stored (is_cancelled stop),
        ap (λ d. d.records) (process_cancelled settings world id db j stored (is_cancelled stop)),
      )
      | inr k ↦ rw (process_refused settings world id db j stored h k) (
        unfold status_after in internal_error-status_after settings world id db j stored h,
        unfold internal_error in records-mark_failed_safe id _ _ world.at.failed_at db j stored,
      )
    ]
