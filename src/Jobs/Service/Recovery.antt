-- ===== src/Jobs/Service/Recovery.antt =====
-- Recovery at startup and at intervals: which jobs it ends, and what documents and batches show.
use marriage_be.Prelude.{
  sym, ◌≢◌, ℕ, Bool, true, false, ◌&&◌, Option, none, some, List, [], ◌∷◌, ◌==◌, ◌≡◌, refl, mem,
  nat_eq, arith, refers, any, any-map-select, ◌∙◌, ap, Bool-cases, inl, inr, ==-self,
}
use marriage_be.Status.{job_status_eq}
use marriage_be.Db.Rows.{Job, Batch, Db}
use marriage_be.Batches.Repository.{get_batch}
use marriage_be.Db.Table.Laws.{any-modify}
use marriage_be.Jobs.Repository.{
  sweep, is_stale, is_interrupted, fail_interrupted_jobs, fail_stale_processing_jobs,
}
use marriage_be.Jobs.Service.{
  visit_batch, recompute_status_for_jobs, recover_interrupted_jobs, recover_stale_jobs,
}
use marriage_be.Batches.Recompute.{
  document_statuses, next_batch_status, job_statuses, recompute_document_status,
  recompute_batch_status,
}
use marriage_be.Batches.Recompute.Fresh.{
  IsFreshBatch, shown_batch, get_batch-recompute_document_status, IsFresh,
  documents-recompute_batch_status, jobs-recompute_batch_status,
}
use marriage_be.Batches.Recompute.Sweeps.{swept-job_statuses, IsFresh-same}
use marriage_be.Batches.Recompute.Loops.{
  visit_document, visit-keeps-IsFresh, visit-IsFresh, visit-SeenAreFresh, SeenAreFresh, refers-some,
  jobs-visit, has_document,
}

-- The loop recomputes a batch when it meets the batch's first job. Of two jobs of one batch in
-- different documents, the second document's status is recomputed after the batch was recomputed,
-- and the batch is not recomputed again.
recompute_status_for_jobs-two_documents :
    (i j : Job) (d e b now : ℕ) (db : Db)
    → i.document_id ≡ some d
    → j.document_id ≡ some e
    → i.batch_id ≡ some b
    → j.batch_id ≡ some b
    → (d == e) ≡ false
    → recompute_status_for_jobs (i ∷ j ∷ []) [] [] now db
      ≡ recompute_document_status e now
          (recompute_batch_status b now (recompute_document_status d now db))
unfolding recompute_status_for_jobs
recompute_status_for_jobs-two_documents i j d e b now db hi hj bi bj ne = ground (arith, ==-self b)

-- Two recovered jobs of one stored batch, the first in document `d` and the second in another document
-- `e`. If the batch has documents, and its aggregate is another one after both documents were
-- recomputed than after `d` alone was, then the loop ends with a batch that does not show the
-- aggregate of its documents.
pub recompute_status_for_jobs_stale :
    (i j : Job) (d e b now : ℕ) (db : Db) (x : Batch)
    → i.document_id ≡ some d
    → j.document_id ≡ some e
    → i.batch_id ≡ some b
    → j.batch_id ≡ some b
    → (d == e) ≡ false
    → get_batch db b ≡ some x
    → document_statuses (recompute_document_status d now db) b ≢ []
    → document_statuses (recompute_status_for_jobs (i ∷ j ∷ []) [] [] now db) b ≢ []
    → next_batch_status (document_statuses (recompute_document_status d now db) b)
      ≢ next_batch_status
          (document_statuses (recompute_status_for_jobs (i ∷ j ∷ []) [] [] now db) b)
    → ¬ IsFreshBatch (recompute_status_for_jobs (i ∷ j ∷ []) [] [] now db) b
recompute_status_for_jobs_stale i j d e b now db x hi hj bi bj ne stored before after differ fresh =
    let db1 : Db = recompute_document_status d now db in
    let ended = recompute_status_for_jobs-two_documents i j d e b now db hi hj bi bj ne in
    let (y, found, status) =
      shown_batch b now db1 x (get_batch-recompute_document_status d now b db ∙ stored) before in
    let still : get_batch (recompute_status_for_jobs (i ∷ j ∷ []) [] [] now db) b ≡ some y =
      ap (λ (z : Db). get_batch z b) ended
      ∙ (get_batch-recompute_document_status e now b (recompute_batch_status b now db1) ∙ found) in
    differ (sym status ∙ fresh y still after)

-- recomputing a batch touches neither documents nor jobs
visit_batch-keeps-IsFresh :
    (o : Option ℕ) (seen : List ℕ) (k now : ℕ) (db : Db)
    → IsFresh db k
    → IsFresh (visit_batch o seen now db).1 k
unfolding job_statuses
visit_batch-keeps-IsFresh none seen k now db h = h
visit_batch-keeps-IsFresh (some b) seen k now db h = elim (Bool-cases (mem b seen)) [
  | inl old ↦ rw old h
  | inr new ↦ rw new (
      IsFresh-same k db (recompute_batch_status b now db)
        (documents-recompute_batch_status b now db) (rw (jobs-recompute_batch_status b now db)) h)
]

jobs-visit_batch :
    (o : Option ℕ) (seen : List ℕ) (now : ℕ) (db : Db)
    → (visit_batch o seen now db).1.jobs ≡ db.jobs
jobs-visit_batch none seen now db = refl
jobs-visit_batch (some b) seen now db = ground (arith, jobs-recompute_batch_status b now db)

loop-keeps-IsFresh :
    (js : List Job) (ds bs : List ℕ) (k now : ℕ) (db : Db)
    → IsFresh db k
    → IsFresh (recompute_status_for_jobs js ds bs now db) k
unfolding recompute_status_for_jobs
loop-keeps-IsFresh [] ds bs k now db h = h
loop-keeps-IsFresh (j ∷ js) ds bs k now db h = loop-keeps-IsFresh js _ _ k now _ (
    visit_batch-keeps-IsFresh j.batch_id bs k now (visit_document j.document_id ds now db).1
      (visit-keeps-IsFresh j.document_id ds k now db h))

loop-IsFresh :
    (js : List Job) (ds bs : List ℕ) (k now : ℕ) (db : Db)
    → SeenAreFresh ds db
    → any (has_document k) js ≡ true
    → IsFresh (recompute_status_for_jobs js ds bs now db) k
unfolding recompute_status_for_jobs any
loop-IsFresh [] ds bs k now db h m = cc
loop-IsFresh (j ∷ js) ds bs k now db h m = elim (Bool-cases (has_document k j)) [
  | inl here ↦ loop-keeps-IsFresh js _ _ k now _ (
      visit_batch-keeps-IsFresh j.batch_id bs k now (visit_document j.document_id ds now db).1
        (visit-IsFresh j.document_id k ds now db h (refers-some j.document_id k here)))
  | inr later ↦
      loop-IsFresh js (visit_document j.document_id ds now db).0
        (visit_batch j.batch_id bs now (visit_document j.document_id ds now db).1).0 k now
        (visit_batch j.batch_id bs now (visit_document j.document_id ds now db).1).1
        (λ i m'.
          visit_batch-keeps-IsFresh j.batch_id bs i now (visit_document j.document_id ds now db).1
            (visit-SeenAreFresh j.document_id ds now db h i m'))
        (rw later at m)
]

jobs-loop :
    (js : List Job) (ds bs : List ℕ) (now : ℕ) (db : Db)
    → (recompute_status_for_jobs js ds bs now db).jobs ≡ db.jobs
unfolding recompute_status_for_jobs
jobs-loop [] ds bs now db = refl
jobs-loop (j ∷ js) ds bs now db =
    jobs-loop js _ _ now _
    ∙ (jobs-visit_batch j.batch_id bs now (visit_document j.document_id ds now db).1
        ∙ jobs-visit j.document_id ds now db)

-- a sweep and the loop over what it returned
swept-IsFresh :
    (p : Job → Bool) (f : Job → Job)
    → ((j : Job) → (f j).document_id ≡ j.document_id)
    → (now : ℕ) (db : Db) (k : ℕ) → IsFresh db k
    → IsFresh (recompute_status_for_jobs (sweep p f db).0 [] [] now (sweep p f db).1) k
swept-IsFresh p f keeps now db k h =
    elim (Bool-cases (any (λ j. p j && has_document k j) db.jobs)) [
      | inl touched ↦
          loop-IsFresh (sweep p f db).0 [] [] k now (sweep p f db).1 (λ j m. cc)
            (unfold sweep in
              any-map-select p f (has_document k) (has_document k)
                (λ j. ap (λ o. refers o k) (keeps j)) db.jobs
              ∙ touched)
      | inr untouched ↦ loop-keeps-IsFresh (sweep p f db).0 [] [] k now (sweep p f db).1 (
          IsFresh-same k db (sweep p f db).1 (unfold sweep in refl)
            (swept-job_statuses p f keeps db k untouched) h)
    ]

-- A document whose status is the aggregate of its jobs' still shows it after either recovery.
pub recover-IsFresh :
    (stale_after now : ℕ) (db : Db) (k : ℕ)
    → IsFresh db k
    → IsFresh (recover_interrupted_jobs now db).1 k
      × IsFresh (recover_stale_jobs stale_after now db).1 k
unfolding recover_interrupted_jobs recover_stale_jobs fail_interrupted_jobs
    fail_stale_processing_jobs
recover-IsFresh stale_after now db k h = (
  swept-IsFresh is_interrupted _ (λ j. refl) now db k h,
  swept-IsFresh (is_stale now stale_after) _ (λ j. refl) now db k h,
)

-- After either recovery no job is left that it looks for: at startup none is processing but for
-- those that wait on a Gemini batch, and of the jobs of a live system none is stale at that time.
recover_ends_all :
    (stale_after now : ℕ) (db : Db)
    → (any is_interrupted (recover_interrupted_jobs now db).1.jobs ≡ false)
      × (any (is_stale now stale_after) (recover_stale_jobs stale_after now db).1.jobs ≡ false)
unfolding recover_interrupted_jobs recover_stale_jobs
recover_ends_all stale_after now db = (
  rw jobs-loop (
      unfold fail_interrupted_jobs in
      any-modify is_interrupted is_interrupted _ (λ r. refl) (λ r h. h) db.jobs),
  rw jobs-loop (
      unfold fail_stale_processing_jobs in
      any-modify (is_stale now stale_after) (is_stale now stale_after) _ (λ r. refl) (λ r h. h)
        db.jobs),
)
