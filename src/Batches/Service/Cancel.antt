-- ===== src/Batches/Service/Cancel.antt =====
-- batches/service.py, cancel_batch_processing: the jobs of a stopped batch, and what its aggregates
-- show.
use marriage_be.Prelude.{
  ℕ, Bool, true, false, ◌&&◌, List, [], ◌∷◌, ◌≡◌, ◌≢◌, refl, nat_eq, arith, refers, any,
  any-map-select, map-select-ne_nil, ◌∙◌, Bool-cases, inl, inr,
}
use marriage_be.Status.{job_status_eq}
use marriage_be.Db.Rows.{Job, Db}
use marriage_be.Db.Table.Laws.{any-modify, modify_none, select_none}
use marriage_be.Jobs.Repository.{
  cancel_pending_and_processing_jobs_for_batch, is_active, to_cancelled,
}
use marriage_be.Batches.Recompute.{job_statuses}
use marriage_be.Batches.Recompute.Fresh.{
  IsFresh, IsFreshBatch, recompute_batch_status-IsFreshBatch, documents-recompute_batch_status,
  jobs-recompute_batch_status,
}
use marriage_be.Batches.Recompute.Loops.{
  recompute_documents, recompute_documents-IsFresh, recompute_documents-keeps-IsFresh,
  jobs-recompute_documents, has_document,
}
use marriage_be.Batches.Recompute.Sweeps.{swept-job_statuses, IsFresh-same}
use marriage_be.Batches.Service.{cancel_batch_processing, recompute_batch_if}

-- an active job of the batch
abbrev pub runs_in : ℕ → Job → Bool
runs_in b j = refers j.batch_id b && is_active j

abbrev pub cancelled_db : (b now : ℕ) → Db → Db
cancelled_db b now db = (cancel_batch_processing b now db).1

jobs-recompute_batch_if :
    (js : List Job) (b now : ℕ) (db : Db) → (recompute_batch_if js b now db).jobs ≡ db.jobs
jobs-recompute_batch_if [] b now db = refl
jobs-recompute_batch_if (j ∷ js) b now db = jobs-recompute_batch_status b now db

jobs-cancel :
    (b now : ℕ) (db : Db)
    → (cancelled_db b now db).jobs ≡ (cancel_pending_and_processing_jobs_for_batch b now db).1.jobs
unfolding cancel_batch_processing
jobs-cancel b now db =
    let (swept, db1) = cancel_pending_and_processing_jobs_for_batch b now db in
    jobs-recompute_batch_if swept b now (recompute_documents swept [] now db1)
    ∙ jobs-recompute_documents swept [] now db1

-- After "Stop processing" no job of the batch is pending or processing.
pub cancel_ends_all : (b now : ℕ) (db : Db) → any (runs_in b) (cancelled_db b now db).jobs ≡ false
cancel_ends_all b now db = rw jobs-cancel (
    unfold cancel_pending_and_processing_jobs_for_batch in
    any-modify (runs_in b) (runs_in b) (to_cancelled now) (λ r. ground arith) (λ r h. h) db.jobs)

sweep_nothing :
    (b now : ℕ) (db : Db)
    → any (runs_in b) db.jobs ≡ false
    → cancel_pending_and_processing_jobs_for_batch b now db ≡ ([], db)
unfolding cancel_pending_and_processing_jobs_for_batch
sweep_nothing b now db h =
    rw (select_none (runs_in b) db.jobs h, modify_none (runs_in b) (to_cancelled now) db.jobs h)

cancel_nothing :
    (b now : ℕ) (db : Db) → any (runs_in b) db.jobs ≡ false → cancelled_db b now db ≡ db
unfolding cancel_batch_processing recompute_documents
cancel_nothing b now db h = rw (sweep_nothing b now db h)

-- The call has nothing left to do when it is made again, at any later time: the database of the
-- second call is that of the first.
cancel_idem :
    (b now later : ℕ) (db : Db)
    → cancelled_db b later (cancelled_db b now db) ≡ cancelled_db b now db
cancel_idem b now later db =
    cancel_nothing b later (cancelled_db b now db) (cancel_ends_all b now db)

documents-recompute_batch_if :
    (js : List Job) (b now : ℕ) (db : Db)
    → (recompute_batch_if js b now db).documents ≡ db.documents
documents-recompute_batch_if [] b now db = refl
documents-recompute_batch_if (j ∷ js) b now db = documents-recompute_batch_status b now db

job_statuses-recompute_batch_if :
    (js : List Job) (b k now : ℕ) (db : Db)
    → job_statuses (recompute_batch_if js b now db) k ≡ job_statuses db k
unfolding job_statuses
job_statuses-recompute_batch_if js b k now db = rw (jobs-recompute_batch_if js b now db)

module _ (b now : ℕ) (db : Db) (k : ℕ) where
  swept : List Job × Db
  swept = cancel_pending_and_processing_jobs_for_batch b now db

  looped-IsFresh : IsFresh db k → IsFresh (recompute_documents swept.0 [] now swept.1) k
  unfolding swept
  looped-IsFresh h = elim (Bool-cases (any (λ j. runs_in b j && has_document k j) db.jobs)) [
    | inl touched ↦
        recompute_documents-IsFresh swept.0 [] k now swept.1 (λ j m. cc)
          (unfold cancel_pending_and_processing_jobs_for_batch in
            any-map-select (runs_in b) (to_cancelled now) (has_document k) (has_document k)
              (λ j. refl) db.jobs
            ∙ touched)
    | inr untouched ↦ recompute_documents-keeps-IsFresh swept.0 [] k now swept.1 (
        IsFresh-same k db swept.1 (unfold cancel_pending_and_processing_jobs_for_batch in refl)
          (unfold cancel_pending_and_processing_jobs_for_batch in
            swept-job_statuses (runs_in b) (to_cancelled now) (λ j. refl) db k untouched)
          h)
  ]

  -- A document whose status is the aggregate of its jobs' still shows it after the call.
  pub cancel-IsFresh : IsFresh db k → IsFresh (cancelled_db b now db) k
  unfolding cancel_batch_processing swept
  cancel-IsFresh h =
      IsFresh-same k (recompute_documents swept.0 [] now swept.1) _
        (documents-recompute_batch_if swept.0 b now (recompute_documents swept.0 [] now swept.1))
        (job_statuses-recompute_batch_if swept.0 b k now
          (recompute_documents swept.0 [] now swept.1))
        (looped-IsFresh h)

recompute_batch_if-IsFreshBatch :
    (js : List Job) (b now : ℕ) (db : Db)
    → js ≢ []
    → IsFreshBatch (recompute_batch_if js b now db) b
recompute_batch_if-IsFreshBatch [] b now db h = absurd (h refl)
recompute_batch_if-IsFreshBatch (j ∷ js) b now db h = recompute_batch_status-IsFreshBatch b now db

-- If the batch had a pending or processing job, then after the call the batch shows the
-- aggregate of its documents.
cancel-IsFreshBatch :
    (b now : ℕ) (db : Db) → any (runs_in b) db.jobs ≡ true → IsFreshBatch (cancelled_db b now db) b
unfolding cancel_batch_processing cancel_pending_and_processing_jobs_for_batch
cancel-IsFreshBatch b now db h =
    recompute_batch_if-IsFreshBatch _ b now _
      (map-select-ne_nil (runs_in b) (to_cancelled now) db.jobs h)
