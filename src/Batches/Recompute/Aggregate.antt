-- ===== src/Batches/Recompute/Aggregate.antt =====
-- The aggregate of a document as a function of the statuses alone.
use marriage_be.Prelude.{
  Bool, false, ◌||◌, not, List, [], ◌∷◌, ◌==◌, ◌≡◌, refl, any, all, arith, if◌then◌else◌,
}
use marriage_be.Status.{
  JobStatus, DocumentStatus, job_status_eq, document_status_eq, batch_status_eq,
}
use marriage_be.Batches.Recompute.{next_document_status, is_running}

abbrev has_job : JobStatus → List JobStatus → Bool
has_job status = any (λ s. s == status)

-- a finished job is completed, failed or cancelled
all_failed-iff_none :
    (ss : List JobStatus)
    → any is_running ss ≡ false
    → all (λ s. s == JobStatus.failed) ss
      ≡ not (has_job JobStatus.completed ss || has_job JobStatus.cancelled ss)
unfolding any all
all_failed-iff_none [] h = refl
all_failed-iff_none (s ∷ ss) h = ground (arith, all_failed-iff_none ss)

-- The order of precedence that the documentation gives: running, then completed, then cancelled.
unfoldable pub document_precedence : List JobStatus → DocumentStatus
unfolding any
document_precedence ss =
    if any is_running ss
    then DocumentStatus.processing
    else if has_job JobStatus.completed ss
    then DocumentStatus.processed
    else if has_job JobStatus.cancelled ss
    then DocumentStatus.cancelled
    else DocumentStatus.failed

-- A document is processing while a job is pending or processing; otherwise processed if a job
-- completed, whatever the others did; otherwise cancelled if one was cancelled; otherwise failed.
pub next_document_status-precedence :
    (ss : List JobStatus) → next_document_status ss ≡ document_precedence ss
unfolding next_document_status document_precedence
next_document_status-precedence ss = ground (arith, all_failed-iff_none ss)
