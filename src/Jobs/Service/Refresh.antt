-- ===== src/Jobs/Service/Refresh.antt =====
-- Recomputing the document and the batch of a job that was changed.
use mathlib.Core.Path.{subst}
use marriage_be.Prelude.{ℕ, arith, Option, none, some, ◌≡◌, refl, ◌∙◌, ap, some_inj, none≢some}
use marriage_be.Db.Rows.{Job, Db}
use marriage_be.Db.Table.{find}
use marriage_be.Db.Table.Laws.{find-update_self}
use marriage_be.Jobs.Repository.{get_job, job_key, store_job}
use marriage_be.Jobs.Service.{refresh_for}
use marriage_be.Batches.Recompute.{
  recompute_document_of, recompute_batch_of, job_statuses, recompute_batch_status,
  recompute_document_status,
}
use marriage_be.Batches.Recompute.Fresh.{
  IsFresh, IsFreshBatch, documents-recompute_batch_status, jobs-recompute_batch_status,
  jobs-recompute_document_status, recompute_document_status-IsFresh,
  recompute_batch_status-IsFreshBatch,
}
use marriage_be.Batches.Recompute.Sweeps.{IsFresh-same}

-- What the job's document and its batch show is up to date.
pub record IsRefreshed (j : Job) (db : Db) : Type 0 where
  pub document : (k : ℕ) → j.document_id ≡ some k → IsFresh db k
  pub batch : (b : ℕ) → j.batch_id ≡ some b → IsFreshBatch db b

jobs-document_of :
    (o : Option ℕ) (now : ℕ) (db : Db) → (recompute_document_of o now db).jobs ≡ db.jobs
unfolding recompute_document_of
jobs-document_of none now db = refl
jobs-document_of (some k) now db = jobs-recompute_document_status k now db

jobs-batch_of : (o : Option ℕ) (now : ℕ) (db : Db) → (recompute_batch_of o now db).jobs ≡ db.jobs
unfolding recompute_batch_of
jobs-batch_of none now db = refl
jobs-batch_of (some k) now db = jobs-recompute_batch_status k now db

jobs-refresh_for : (j : Job) (now : ℕ) (db : Db) → (refresh_for j now db).jobs ≡ db.jobs
jobs-refresh_for j now db =
    jobs-batch_of j.batch_id now (recompute_document_of j.document_id now db)
    ∙ jobs-document_of j.document_id now db

pub get_job-refresh_for :
    (j : Job) (now : ℕ) (db : Db) (k : ℕ) → get_job (refresh_for j now db) k ≡ get_job db k
unfolding get_job
get_job-refresh_for j now db k = ap (find job_key k) (jobs-refresh_for j now db)

batch_of-keeps-IsFresh :
    (o : Option ℕ) (k now : ℕ) (db : Db) → IsFresh db k → IsFresh (recompute_batch_of o now db) k
unfolding recompute_batch_of job_statuses
batch_of-keeps-IsFresh none k now db h = h
batch_of-keeps-IsFresh (some b) k now db h =
    IsFresh-same k db (recompute_batch_status b now db) (documents-recompute_batch_status b now db)
      (rw (jobs-recompute_batch_status b now db)) h

document_of-IsFresh :
    (o : Option ℕ) (k now : ℕ) (db : Db) → o ≡ some k → IsFresh (recompute_document_of o now db) k
unfolding recompute_document_of
document_of-IsFresh none k now db h = absurd (none≢some h)
document_of-IsFresh (some j) k now db h =
    subst (IsFresh (recompute_document_status j now db)) (some_inj h)
      (recompute_document_status-IsFresh j now db)

batch_of-IsFreshBatch :
    (o : Option ℕ) (b now : ℕ) (db : Db) → o ≡ some b → IsFreshBatch (recompute_batch_of o now db) b
unfolding recompute_batch_of
batch_of-IsFreshBatch none b now db h = absurd (none≢some h)
batch_of-IsFreshBatch (some j) b now db h =
    subst (IsFreshBatch (recompute_batch_status j now db)) (some_inj h)
      (recompute_batch_status-IsFreshBatch j now db)

-- After the recomputation for a job, its document, if it has jobs, shows the aggregate of their
-- statuses, and its batch, if it has documents, that of theirs, whatever they showed before.
pub refresh_for-IsRefreshed : (j : Job) (now : ℕ) (db : Db) → IsRefreshed j (refresh_for j now db)
refresh_for-IsRefreshed j now db = record {
  document = λ k h.
      batch_of-keeps-IsFresh j.batch_id k now (recompute_document_of j.document_id now db)
        (document_of-IsFresh j.document_id k now db h);
  batch =
      λ b h. batch_of-IsFreshBatch j.batch_id b now (recompute_document_of j.document_id now db) h;
}

-- the row after a change that was stored
pub get_job-store_job :
    (job_id : ℕ) (f : Job → Job)
    → ((j : Job) → (f j).id ≡ j.id)
    → (db : Db) (j i : Job) → get_job db job_id ≡ some j
    → get_job (store_job job_id f i db).1 job_id ≡ some (f j)
unfolding get_job store_job
get_job-store_job job_id f keeps db j i h =
    ground (arith, find-update_self job_key f keeps job_id db.jobs)

records-document_of :
    (o : Option ℕ) (now : ℕ) (db : Db) → (recompute_document_of o now db).records ≡ db.records
unfolding recompute_document_of
records-document_of none now db = refl
records-document_of (some k) now db = ground arith

records-batch_of :
    (o : Option ℕ) (now : ℕ) (db : Db) → (recompute_batch_of o now db).records ≡ db.records
unfolding recompute_batch_of
records-batch_of none now db = refl
records-batch_of (some k) now db = ground arith

pub records-refresh_for :
    (j : Job) (now : ℕ) (db : Db) → (refresh_for j now db).records ≡ db.records
records-refresh_for j now db =
    records-batch_of j.batch_id now (recompute_document_of j.document_id now db)
    ∙ records-document_of j.document_id now db
