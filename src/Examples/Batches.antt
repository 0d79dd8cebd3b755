-- ===== src/Examples/Batches.antt =====
-- A batch of two documents that is stopped and deleted.
use marriage_be.Prelude.{
  false, none, List, [], ◌∷◌, ◌≡◌, refl, ap, sym, any, select, nat_eq, string_eq, some_inj,
}
use marriage_be.Status.{JobStatus, job_status_eq}
use marriage_be.DocumentType.{document_type_eq}
use marriage_be.Db.Rows.{Document, Db}
use marriage_be.Batches.Repository.{delete_batch_row, get_document}
use marriage_be.Batches.Recompute.{next_document_status, job_statuses}
use marriage_be.Batches.Recompute.Aggregate.{document_precedence, next_document_status-precedence}
use marriage_be.Batches.Recompute.Fresh.{IsFresh}
use marriage_be.Batches.Service.Cancel.{runs_in, cancelled_db, cancel_ends_all, cancel-IsFresh}
use marriage_be.Batches.Service.Delete.{HasRecords, delete_batch_row-HasRecords}
use marriage_be.Examples.Data.{db}

cancel_ends_all_example : any (runs_in 1) (cancelled_db 1 9 db).jobs ≡ false
cancel_ends_all_example = cancel_ends_all 1 9 db

db-IsFresh : IsFresh db 1
unfolding get_document job_statuses select next_document_status any
db-IsFresh d stored some_job = ap (λ (x : Document). x.status) (sym (some_inj stored))

cancel-IsFresh_example : IsFresh (cancelled_db 1 9 db) 1
cancel-IsFresh_example = cancel-IsFresh 1 9 db 1 db-IsFresh

-- the record of `db` and a revision of it
abbrev revised_db : Db
revised_db = record db {
  revisions =
      record {
        record_id = 7;
        version = 2;
        previous_values = [];
        new_values = [];
        reviewer = none;
        note = none;
        created_at = 0;
      }
      ∷ [];
}

delete_batch_row-HasRecords_example : HasRecords (delete_batch_row 1 revised_db)
delete_batch_row-HasRecords_example =
    delete_batch_row-HasRecords 1 revised_db (unfold any in (refl, tt))

abbrev finished : List JobStatus
finished = JobStatus.completed ∷ JobStatus.failed ∷ []

next_document_status-precedence_example :
    next_document_status finished ≡ document_precedence finished
next_document_status-precedence_example = next_document_status-precedence finished
