-- ===== src/Onedrive/Deleted.antt =====
-- onedrive/repositories.py, delete_submission_row: what is gone after a submission was deleted.
use marriage_be.Prelude.{
  ℕ, Bool, false, not, ◌&&◌, ◌==◌, ◌≡◌, refl, nat_eq, any, select, count, List, [], ◌∷◌, arith,
}
use marriage_be.Db.Table.{delete}
use marriage_be.Db.Rows.{Submission, Document, Job, OcrRecord, Db}
use marriage_be.Db.Table.Laws.{any-delete}
use marriage_be.Batches.Service.Delete.{HasRecords, delete_with_revisions}
use marriage_be.Onedrive.Repository.Deletion.{
  delete_submission_row, of_submission, of_documents, of_jobs,
}

count-delete :
    {A : Type 0} (p q : A → Bool) (rows : List A)
    → count q (delete p rows) ≡ count (λ r. not (p r) && q r) rows
unfolding count delete
count-delete p q [] = refl
count-delete p q (r ∷ rows) = ground (arith, count-delete p q rows)

-- Nothing of submission `k`, as the database had it before, is left in the one after it; no revision
-- has lost its record; and of the other submissions, documents, jobs and records as many are left as
-- there were, whatever they are counted by.
pub record IsCleared (k : ℕ) (before after : Db) : Type 0 where
  pub submission : any (λ (s : Submission). s.id == k) after.submissions ≡ false
  pub documents : any (of_submission k) after.documents ≡ false
  pub jobs : any (of_documents (select (of_submission k) before.documents)) after.jobs ≡ false
  pub records :
      any
        (of_jobs (select (of_documents (select (of_submission k) before.documents)) before.jobs))
        after.records
      ≡ false
  pub revisions : HasRecords after
  pub other_submissions :
      (q : Submission → Bool)
      → count q after.submissions ≡ count (λ s. not (s.id == k) && q s) before.submissions
  pub other_documents :
      (q : Document → Bool)
      → count q after.documents ≡ count (λ d. not (of_submission k d) && q d) before.documents
  pub other_jobs :
      (q : Job → Bool)
      → count q after.jobs
        ≡ count
            (λ j. not (of_documents (select (of_submission k) before.documents) j) && q j)
            before.jobs
  pub other_records :
      (q : OcrRecord → Bool)
      → count q after.records
        ≡ count
            (λ r.
              not (
                of_jobs
                  (select (of_documents (select (of_submission k) before.documents)) before.jobs)
                  r)
              && q r)
            before.records
  pub batches : after.batches ≡ before.batches
  pub exports : after.exports ≡ before.exports

-- Deleting a submission removes it with the documents that it produced, their jobs and the records
-- of these jobs, and no other submission, document, job, record, batch or export; if every revision
-- belonged to a stored record, it does so afterwards.
pub delete_submission_row-IsCleared :
    (k : ℕ) (db : Db) → HasRecords db → IsCleared k db (delete_submission_row k db)
unfolding delete_submission_row
delete_submission_row-IsCleared k db h =
    let documents = select (of_submission k) db.documents in
    let jobs = select (of_documents documents) db.jobs in
    record {
      submission = any-delete (λ (s : Submission). s.id == k) db.submissions;
      documents = any-delete (of_submission k) db.documents;
      jobs = any-delete (of_documents documents) db.jobs;
      records = any-delete (of_jobs jobs) db.records;
      other_submissions = λ q. count-delete (λ (s : Submission). s.id == k) q db.submissions;
      other_documents = λ q. count-delete (of_submission k) q db.documents;
      other_jobs = λ q. count-delete (of_documents documents) q db.jobs;
      other_records = λ q. count-delete (of_jobs jobs) q db.records;
      batches = refl;
      exports = refl;
      revisions = delete_with_revisions (of_jobs jobs) db.records db.revisions h;
    }
