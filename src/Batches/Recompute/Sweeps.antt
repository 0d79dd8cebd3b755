-- ===== src/Batches/Recompute/Sweeps.antt =====
-- Freshness of documents across a sweep over the jobs that keeps each job's document.
use marriage_be.Prelude.{ℕ, Bool, false, ◌&&◌, ◌≡◌, refers, any, sym, ◌∙◌, ap}
use marriage_be.Db.Rows.{Job, Db}
use marriage_be.Db.Table.{find}
use marriage_be.Db.Table.Laws.{map-select-modify}
use marriage_be.Jobs.Repository.{sweep}
use marriage_be.Batches.Repository.{get_document, document_key}
use marriage_be.Batches.Recompute.{job_statuses, next_document_status}
use marriage_be.Batches.Recompute.Fresh.{IsFresh}
use marriage_be.Batches.Recompute.Loops.{has_document}

pub swept-job_statuses :
    (p : Job → Bool) (f : Job → Job)
    → ((j : Job) → (f j).document_id ≡ j.document_id)
    → (db : Db) (k : ℕ) → any (λ j. p j && has_document k j) db.jobs ≡ false
    → job_statuses (sweep p f db).1 k ≡ job_statuses db k
unfolding sweep job_statuses
swept-job_statuses p f keeps db k h =
    map-select-modify p (has_document k) f (λ (j : Job). j.status)
      (λ j. ap (λ o. refers o k) (keeps j)) db.jobs h

-- the documents after the call are those that the loop left
pub IsFresh-same :
    (k : ℕ) (db db' : Db)
    → db'.documents ≡ db.documents
    → job_statuses db' k ≡ job_statuses db k
    → IsFresh db k
    → IsFresh db' k
unfolding get_document
IsFresh-same k db db' documents statuses h d e some_job =
    h d (ap (find document_key k) (sym documents) ∙ e) (rw statuses at some_job)
    ∙ ap next_document_status (sym statuses)
