-- ===== src/Jobs/Service/Retry.antt =====
-- Retrying a job, with every answer of the executor.
use marriage_be.Prelude.{
  ℕ, true, false, some, ◌≡◌, refl, ◌∙◌, ap, sym, arith, nat_eq, nat_beq_iff, none, ◌==◌, Bool-cases,
  inl, inr, if◌then◌else◌,
}
use marriage_be.Status.{JobStatus, job_status_eq}
use marriage_be.Db.Table.Laws.{find-update_ne}
use marriage_be.Db.Rows.{Job, Db}
use marriage_be.Db.Result.{Result, ok, err, api_error}
use marriage_be.Jobs.Repository.{
  get_job, job_key, is_retryable, mark_pending_for_retry, to_pending, to_failed, store_job,
}
use marriage_be.Jobs.Service.{retry_job, retry_found, submit_retried, refresh_for}
use marriage_be.Jobs.Service.Refresh.{
  IsRefreshed, get_job-store_job, get_job-refresh_for, refresh_for-IsRefreshed,
}

abbrev pub Submit : Type 0
Submit = ℕ → Db → Result (Unit {0}) × Db

-- the database with the job's row put back to pending, and its document and batch recomputed
retried : (job_id now : ℕ) → Job → Db → Db
retried job_id now j db =
    refresh_for (to_pending now j) now (store_job job_id (to_pending now) j db).1

get_job-retried :
    (job_id now : ℕ) (j : Job) (db : Db)
    → get_job db job_id ≡ some j
    → get_job (retried job_id now j db) job_id ≡ some (to_pending now j)
unfolding retried
get_job-retried job_id now j db h =
    get_job-refresh_for (to_pending now j) now _ job_id
    ∙ get_job-store_job job_id (to_pending now) (unfold to_pending in λ i. refl) db j j h

module _ (submit : Submit) (job_id now : ℕ) (db : Db) (j : Job)
    (stored : get_job db job_id ≡ some j) where
  -- A job that is neither failed nor cancelled is refused with 409, and nothing changes.
  pub retry_job_refused :
      is_retryable j ≡ false
      → retry_job submit job_id now db ≡ (err (api_error 409 "JOB_NOT_RETRYABLE"), db)
  unfolding retry_job
  retry_job_refused h = ground arith

  retry_job_found :
      is_retryable j ≡ true → retry_job submit job_id now db ≡ retry_found submit j job_id now db
  unfolding retry_job
  retry_job_found h = ground arith

  submitted :
      is_retryable j ≡ true
      → retry_job submit job_id now db
        ≡ submit_retried submit (to_pending now j) job_id now (retried job_id now j db)
  unfolding retry_found mark_pending_for_retry retried
  submitted h = retry_job_found h ∙ ground arith

-- the reset keeps the job's document and batch
IsRefreshed-to_pending :
    (now : ℕ) (j : Job) (db : Db) → IsRefreshed (to_pending now j) db → IsRefreshed j db
unfolding to_pending
IsRefreshed-to_pending now j db h = record { document = h.document; batch = h.batch }

abbrev pub resubmission_error : ℕ → Job → Job
resubmission_error now =
    to_failed "INTERNAL_PROCESSING_ERROR"
      "The OCR job could not be resubmitted for background processing." now

module _ (submit : Submit) (job_id now : ℕ) (job : Job) (db : Db) where
  submit_taken :
      submit job_id db ≡ (ok tt, db) → submit_retried submit job job_id now db ≡ (ok job, db)
  unfolding submit_retried
  submit_taken takes = ground arith

-- The row of a job that waits again for its run: no other column differs from the row before.
abbrev pub waiting_job : (now : ℕ) → Job → Job
waiting_job now j = record j {
  status = JobStatus.pending;
  error_code = none;
  error_message = none;
  started_at = none;
  completed_at = none;
  gemini_batch_stage = none;
  gemini_batch_name = none;
  gemini_batch_updated_at = none;
  updated_at = now;
}

-- What an accepted retry of the job `j` answers and leaves in the database, and what a further one
-- does.
abbrev pub IsRetried : Submit → (job_id now : ℕ) → Db → Job → Type 0
IsRetried submit job_id now db j =
    let (answer, db') = retry_job submit job_id now db in
    (answer ≡ ok (waiting_job now j))
    × ((i : ℕ) → get_job db' i ≡ (if job_id == i then some (waiting_job now j) else get_job db i))
    × IsRefreshed j db'
    × ((later : ℕ)
        → retry_job submit job_id later db' ≡ (err (api_error 409 "JOB_NOT_RETRYABLE"), db'))

looked_up :
    (job_id now : ℕ) (db : Db) (j : Job)
    → get_job db job_id ≡ some j
    → (i : ℕ)
    → get_job (retried job_id now j db) i
      ≡ (if job_id == i then some (waiting_job now j) else get_job db i)
looked_up job_id now db j stored i = elim (Bool-cases (job_id == i)) [
  | inl same ↦ rw same (
      ap (get_job (retried job_id now j db)) (sym ((nat_beq_iff job_id i).0 same))
      ∙ get_job-retried job_id now j db stored
      ∙ (unfold to_pending in refl))
  | inr other ↦ rw other (
      unfold retried in
      get_job-refresh_for (to_pending now j) now _ i
      ∙ (unfold get_job store_job to_pending in
          find-update_ne job_key (to_pending now) (λ i. refl) job_id i db.jobs other))
]

module _ (submit : Submit) (job_id now : ℕ) (db : Db) (j : Job)
    (stored : get_job db job_id ≡ some j) (retryable : is_retryable j ≡ true) where
  -- A stored job that is failed or cancelled, and that the executor takes without a change of the
  -- database, is pending again, with its error, its times and its Gemini columns cleared, and is
  -- returned as it is stored; no other column of it differs and no other job; its document and batch
  -- show the new aggregates; and a further retry is refused with 409 and changes nothing.
  pub retry_job_accepted :
      ((db' : Db) → submit job_id db' ≡ (ok tt, db')) → IsRetried submit job_id now db j
  retry_job_accepted takes =
      rw
        (submitted submit job_id now db j stored retryable
          ∙ submit_taken submit job_id now (to_pending now j) (retried job_id now j db)
              (takes (retried job_id now j db)))
        (
          unfold to_pending in refl,
          looked_up job_id now db j stored,
          IsRefreshed-to_pending now j _
              (unfold retried in refresh_for-IsRefreshed (to_pending now j) now _),
          λ later.
              retry_job_refused submit job_id later (retried job_id now j db) (to_pending now j)
                (get_job-retried job_id now j db stored) (unfold to_pending in refl),
        )
