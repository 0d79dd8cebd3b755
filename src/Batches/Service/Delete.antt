-- ===== src/Batches/Service/Delete.antt =====
-- batches/repositories.py, delete_batch_row: what is gone after a batch was deleted, and which other
-- batches, documents and jobs are as they were.
use marriage_be.Prelude.{
  ℕ, Bool, true, false, some, List, [], ◌∷◌, ◌==◌, ◌≡◌, nat_eq, arith, refers, any, select, All,
}
use marriage_be.Db.Rows.{Batch, Document, Export, Job, OcrRecord, Revision, Submission, Db}
use marriage_be.Db.Table.{delete}
use marriage_be.Db.Table.Laws.{any-delete, find-delete, All-delete}
use marriage_be.Jobs.Repository.{get_job, job_key}
use marriage_be.Batches.Repository.{
  delete_batch_row, get_batch, batch_key, get_document, document_key, of_record, in_batch,
}

-- No row that belongs to the batch is left in any table.
record IsGone (b : ℕ) (db : Db) : Type 0 where
  pub batch : any (λ (x : Batch). x.id == b) db.batches ≡ false
  pub documents : any (λ (d : Document). d.batch_id == b) db.documents ≡ false
  pub jobs : any (λ (j : Job). refers j.batch_id b) db.jobs ≡ false
  pub records : any (λ (r : OcrRecord). refers r.batch_id b) db.records ≡ false
  pub exports : any (λ (e : Export). e.batch_id == b) db.exports ≡ false
  pub submissions : any (λ (s : Submission). s.batch_id == b) db.submissions ≡ false

-- Every revision belongs to a stored record.
abbrev pub HasRecords : Db → Type 0
HasRecords db =
    All (λ (v : Revision). any (λ (r : OcrRecord). r.id == v.record_id) db.records ≡ true)
      db.revisions

-- Deleting a batch leaves no row that belongs to it: not the batch, its documents, jobs, records,
-- exports or submissions.
delete_batch_row-IsGone : (b : ℕ) (db : Db) → IsGone b (delete_batch_row b db)
unfolding delete_batch_row
delete_batch_row-IsGone b db = record {
  batch = any-delete (λ (x : Batch). x.id == b) db.batches;
  documents = any-delete (λ (d : Document). d.batch_id == b) db.documents;
  jobs = any-delete (λ (j : Job). refers j.batch_id b) db.jobs;
  records = any-delete (λ (r : OcrRecord). refers r.batch_id b) db.records;
  exports = any-delete (λ (e : Export). e.batch_id == b) db.exports;
  submissions = any-delete (λ (s : Submission). s.batch_id == b) db.submissions;
}

-- Deleting a batch leaves a stored batch that is another one, a stored document of another batch
-- and a stored job that is not of this batch exactly as they were.
delete_batch_row_others :
    (b : ℕ) (db : Db) (i k l : ℕ) (x : Batch) (d : Document) (j : Job)
    → get_batch db i ≡ some x
    → (x.id == b) ≡ false
    → get_document db k ≡ some d
    → (d.batch_id == b) ≡ false
    → get_job db l ≡ some j
    → refers j.batch_id b ≡ false
    → let db' = delete_batch_row b db in
      (get_batch db' i ≡ some x) × (get_document db' k ≡ some d) × (get_job db' l ≡ some j)
unfolding delete_batch_row get_batch get_document get_job
delete_batch_row_others b db i k l x d j batch other_batch document other_document job other_job = (
  find-delete batch_key (λ (x : Batch). x.id == b) i db.batches x batch other_batch,
  find-delete document_key (λ (d : Document). d.batch_id == b) k db.documents d document
      other_document,
  find-delete job_key (λ (j : Job). refers j.batch_id b) l db.jobs j job other_job,
)

-- a record that is found and is not among the deleted ones is still found
still_there :
    (p : OcrRecord → Bool) (v : Revision) (rs : List OcrRecord)
    → any (λ (r : OcrRecord). r.id == v.record_id) rs ≡ true
    → of_record (select p rs) v ≡ false
    → any (λ (r : OcrRecord). r.id == v.record_id) (delete p rs) ≡ true
unfolding any select delete of_record
still_there p v [] h stays = cc
still_there p v (r ∷ rs) h stays = ground (arith, still_there p v rs)

All-still_there :
    (p : OcrRecord → Bool) (rs : List OcrRecord) (vs : List Revision)
    → All
        (λ (v : Revision).
          (any (λ (r : OcrRecord). r.id == v.record_id) rs ≡ true)
          × (of_record (select p rs) v ≡ false))
        vs
    → All (λ (v : Revision). any (λ (r : OcrRecord). r.id == v.record_id) (delete p rs) ≡ true) vs
All-still_there p rs [] h = tt
All-still_there p rs (v ∷ vs) h = (still_there p v rs h.0.0 h.0.1, All-still_there p rs vs h.1)

-- Records that are deleted with their revisions leave every other revision its record.
pub delete_with_revisions :
    (p : OcrRecord → Bool) (rs : List OcrRecord) (vs : List Revision)
    → All (λ (v : Revision). any (λ (r : OcrRecord). r.id == v.record_id) rs ≡ true) vs
    → All
        (λ (v : Revision). any (λ (r : OcrRecord). r.id == v.record_id) (delete p rs) ≡ true)
        (delete (of_record (select p rs)) vs)
delete_with_revisions p rs vs h =
    All-still_there p rs _ (All-delete _ (of_record (select p rs)) vs h)

-- Deleting a batch orphans no revision: if every revision belongs to a stored record, it does so
-- afterwards, since a record's revisions go with it.
pub delete_batch_row-HasRecords :
    (b : ℕ) (db : Db) → HasRecords db → HasRecords (delete_batch_row b db)
unfolding delete_batch_row
delete_batch_row-HasRecords b db h = delete_with_revisions (in_batch b) db.records db.revisions h
