-- ===== src/Batches/Recompute.antt =====
-- batches/repositories.py: the status of a document from its jobs, and of a batch from its
-- documents.
pub mod Aggregate
pub mod Fresh
pub mod Loops
pub mod Sweeps
use marriage_be.Prelude.{
  ℕ, Bool, true, false, ◌&&◌, ◌||◌, not, Option, none, some, List, [], ◌∷◌, map, ◌==◌, mem, refers,
  select, any, all, is_some, nat_eq, if◌then◌else◌,
}
use marriage_be.Status
use marriage_be.Status.{
  JobStatus, DocumentStatus, BatchStatus, job_status_eq, document_status_eq, batch_status_eq,
}
use marriage_be.Db.Rows.{Job, Document, Batch, Db}
use marriage_be.Db.Table.{update}
use marriage_be.Batches.Repository.{document_key, batch_key, get_document, get_batch}

unfoldable pub job_statuses : Db → ℕ → List JobStatus
unfolding select
job_statuses db document_id =
    map (λ (j : Job). j.status) (select (λ (j : Job). refers j.document_id document_id) db.jobs)

abbrev pub is_running : JobStatus → Bool
is_running s = s == JobStatus.pending || s == JobStatus.processing

-- The aggregate of the statuses of a document's jobs, where it has any.
unfoldable pub next_document_status : List JobStatus → DocumentStatus
unfolding any all
next_document_status statuses =
    if any is_running statuses
    then DocumentStatus.processing
    else if all (λ s. s == JobStatus.failed) statuses
    then DocumentStatus.failed
    else if any (λ s. s == JobStatus.cancelled) statuses
        && not (any (λ s. s == JobStatus.completed) statuses)
    then DocumentStatus.cancelled
    else DocumentStatus.processed

set_status : DocumentStatus → ℕ → Document → Document
set_status status now d =
    if d.status == status then d else record d { status = status; updated_at = now }

abbrev aggregate_document : List JobStatus → (document_id now : ℕ) → Db → Db
aggregate_document [] document_id now db = db
aggregate_document (s ∷ ss) document_id now db = record db {
  documents =
      update document_key document_id (set_status (next_document_status (s ∷ ss)) now) db.documents;
}

unfoldable pub recompute_document_status : (document_id now : ℕ) → Db → Db
unfolding get_document job_statuses set_status update
recompute_document_status document_id now db = elim (get_document db document_id) [
  | none ↦ db
  | some _ ↦ aggregate_document (job_statuses db document_id) document_id now db
]

unfoldable pub document_statuses : Db → ℕ → List DocumentStatus
unfolding select
document_statuses db batch_id =
    map (λ (d : Document). d.status)
      (select (λ (d : Document). d.batch_id == batch_id) db.documents)

-- The aggregate of the set of the statuses of a batch's documents, where it has any.
unfoldable pub next_batch_status : List DocumentStatus → BatchStatus
unfolding any all
next_batch_status statuses =
    if all (λ s. s == DocumentStatus.processed) statuses
    then BatchStatus.completed
    else if any (λ s. s == DocumentStatus.failed) statuses
    then BatchStatus.failed
    else if any (λ s. s == DocumentStatus.queued || s == DocumentStatus.processing) statuses
    then BatchStatus.processing
    else if any (λ s. s == DocumentStatus.cancelled) statuses
    then BatchStatus.cancelled
    else BatchStatus.draft

abbrev started_if : BatchStatus → Option ℕ → ℕ → Option ℕ
started_if BatchStatus.processing none now = some now
started_if _ t now = t

abbrev completed_if : BatchStatus → Option ℕ → ℕ → Option ℕ
completed_if BatchStatus.completed t now = some now
completed_if BatchStatus.failed t now = some now
completed_if BatchStatus.cancelled t now = some now
completed_if _ t now = t

set_batch_status : BatchStatus → ℕ → Batch → Batch
set_batch_status status now b = if b.status == status then b else record b {
  status = status;
  updated_at = now;
  started_at = started_if status b.started_at now;
  completed_at = completed_if status b.completed_at now;
}

abbrev aggregate_batch : List DocumentStatus → (batch_id now : ℕ) → Db → Db
aggregate_batch [] batch_id now db = db
aggregate_batch (s ∷ ss) batch_id now db = record db {
  batches =
      update batch_key batch_id (set_batch_status (next_batch_status (s ∷ ss)) now) db.batches;
}

unfoldable pub recompute_batch_status : (batch_id now : ℕ) → Db → Db
unfolding get_batch document_statuses set_batch_status update
recompute_batch_status batch_id now db = elim (get_batch db batch_id) [
  | none ↦ db
  | some _ ↦ aggregate_batch (document_statuses db batch_id) batch_id now db
]

-- `if job.document_id is not None: recompute_document_status(...)`, and the same for the batch
unfoldable pub recompute_document_of : Option ℕ → ℕ → Db → Db
unfolding recompute_document_status
recompute_document_of none now db = db
recompute_document_of (some document_id) now db = recompute_document_status document_id now db

unfoldable pub recompute_batch_of : Option ℕ → ℕ → Db → Db
unfolding recompute_batch_status
recompute_batch_of none now db = db
recompute_batch_of (some batch_id) now db = recompute_batch_status batch_id now db
