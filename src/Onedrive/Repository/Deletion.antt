-- ===== src/Onedrive/Repository/Deletion.antt =====
-- onedrive/repositories.py: delete_submission_row, the cascade that the program itself performs.
use marriage_be.Prelude.{ℕ, Bool, List, ◌==◌, refers, select, any, nat_eq}
use marriage_be.Db.Rows.{Document, Job, OcrRecord, Submission, Db}
use marriage_be.Db.Table.{delete}
use marriage_be.Batches.Repository.{of_record}

unfoldable pub of_submission : ℕ → Document → Bool
of_submission submission_id d = refers d.onedrive_submission_id submission_id

-- `document_id IN (SELECT ...)`
unfoldable pub of_documents : List Document → Job → Bool
unfolding any
of_documents documents j = any (λ (d : Document). refers j.document_id d.id) documents

-- `job_id IN (SELECT ...)`
unfoldable pub of_jobs : List Job → OcrRecord → Bool
unfolding any
of_jobs jobs r = any (λ (j : Job). j.id == r.job_id) jobs

-- Each statement evaluates its subqueries anew; the rows that these select go after those that
-- refer to them.
unfoldable pub delete_submission_row : ℕ → Db → Db
unfolding delete select of_record of_submission of_documents of_jobs
delete_submission_row submission_id db0 =
    let documents = select (of_submission submission_id) db0.documents in
    let jobs = select (of_documents documents) db0.jobs in
    let records = select (of_jobs jobs) db0.records in
    let db1 = record db0 { revisions = delete (of_record records) db0.revisions } in
    let db2 = record db1 { records = delete (of_jobs jobs) db1.records } in
    let db3 = record db2 { jobs = delete (of_documents documents) db2.jobs } in
    let db4 = record db3 { documents = delete (of_submission submission_id) db3.documents } in
    record db4 { submissions = delete (λ (s : Submission). s.id == submission_id) db4.submissions }
