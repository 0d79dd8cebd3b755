-- ===== src/Onedrive/Ingest/Effects.antt =====
-- onedrive/service.py, _ingest_one_file: the submissions before and after it.
use marriage_be.Prelude.{
  ℕ, String, Bool, true, false, ◌&&◌, ◌||◌, not, Option, none, some, List, [], ◌∷◌, ◌==◌, ◌≡◌, refl,
  ◌∙◌, ap, arith, is_some, mem, string_eq, inl, inr, Bool-cases,
}
use marriage_be.DocumentType.{DocumentType, typed_document_types, document_type_eq}
use marriage_be.Db.Rows.{Document, Submission, Job, Db}
use marriage_be.Db.Table.{find}
use marriage_be.Db.Result.{
  Result, ok, err, ◌>>=◌, ◌>>◌, guard, upload_validation_error, job_transition, cannot_fail, Error,
}
use marriage_be.Jobs.Repository.{
  NewJob, create_job, job_key, mark_failed, store_job, require_job, is_active,
}
use marriage_be.Batches.Repository.{create_document}
use marriage_be.Batches.Recompute.{recompute_document_status}
use marriage_be.Batches.Ingest.{Page, split_page_count}
use marriage_be.Batches.Ingest.Pages.{IsSplit, create_document_page_jobs-IsSplit}
use marriage_be.Onedrive.Classification.{File}
use marriage_be.Onedrive.Intake.{StoredUpload, save_local_file}
use marriage_be.Onedrive.Ingest.{
  Outside, add_document, add_jobs, ingest_rows, submit_jobs, submit_job, go_on, submitted,
  after_commit, ingest_one_file, whole_job, input_dir_of, not_submitted, recompute_if,
}

-- A call that may raise leaves the table of submissions as it was.
unfoldable Keeps {ℓ} : {A : Type ℓ} → List Submission → Result (A × Db) → Type 0
Keeps t (err e) = Unit
Keeps t (ok (a, db)) = db.submissions ≡ t

bind-Keeps {ℓ κ} :
    {A : Type ℓ} {B : Type κ} (t : List Submission) (r : Result A) (next : A → Result (B × Db))
    → ((a : A) → Keeps t (next a))
    → Keeps t (r >>= next)
unfolding Keeps
bind-Keeps t (err e) next h = tt
bind-Keeps t (ok a) next h = h a

guard-Keeps {ℓ} :
    {B : Type ℓ} (t : List Submission) (condition : Bool) (e : Error) (next : Result (B × Db))
    → Keeps t next
    → Keeps t (guard condition e >> next)
unfolding Keeps
guard-Keeps t true e next h = h
guard-Keeps t false e next h = tt

split-Keeps :
    (number : ℕ) (d : Document) (pages : List Page) (db : Db) (r : Result (List ℕ × Db))
    → IsSplit number d pages db r
    → Keeps db.submissions r
unfolding Keeps
split-Keeps number d pages db (err e) split = tt
split-Keeps number d pages db (ok (ids, db')) (new, e, are) = ap (λ (x : Db). x.submissions) e

created-Keeps :
    (n : NewJob) (now : ℕ) (db : Db) (ids : List ℕ)
    → Keeps db.submissions (create_job n now db >>= λ r. ok (ids, r.1))
unfolding create_job Keeps
created-Keeps n now db ids = elim (Bool-cases (is_some (find job_key n.id db.jobs))) [
  | inl taken ↦ rw taken tt
  | inr free ↦ rw free refl
]

add_jobs-Keeps :
    (o : Outside) (batch_id : ℕ) (file : File) (t : DocumentType) (stored : StoredUpload)
    → (count : Option ℕ) (d : Document) (db : Db)
    → Keeps db.submissions (add_jobs o batch_id file t stored count d db)
unfolding add_jobs
add_jobs-Keeps o batch_id file t stored (some n) d db =
    bind-Keeps db.submissions (o.pages file) _ (λ pages.
      split-Keeps 1 d pages db _
        (create_document_page_jobs-IsSplit batch_id d t o.git_ref o.now pages db))
add_jobs-Keeps o batch_id file t stored none d db =
    created-Keeps (whole_job o batch_id file t stored) o.now db (o.job_id file ∷ [])

ingest_rows-Keeps :
    (o : Outside) (batch_id submission_id : ℕ) (file : File) (t : DocumentType) (db : Db)
    → Keeps db.submissions (ingest_rows o batch_id submission_id file t db)
unfolding ingest_rows add_document create_document Keeps
ingest_rows-Keeps o batch_id submission_id file t db =
    guard-Keeps db.submissions (not (mem t typed_document_types && not (file.extension == ".pdf")))
      (upload_validation_error 422 "TYPED_REQUIRES_PDF") _
      (bind-Keeps db.submissions
        (save_local_file o.guess o.max_upload_bytes (input_dir_of o file) file) _
        (λ (stored : StoredUpload). bind-Keeps db.submissions (o.put_file file) _ (λ put.
          bind-Keeps db.submissions (split_page_count t stored.content_type (o.page_count file)) _
            (λ (count : Option ℕ).
              let added = add_document o batch_id submission_id file t stored count db in
              add_jobs-Keeps o batch_id file t stored count added.0 added.1))))

mark_failed-Keeps :
    (job_id : ℕ) (code message : String) (now : ℕ) (db : Db)
    → Keeps db.submissions (mark_failed job_id code message now db)
unfolding mark_failed store_job Keeps
mark_failed-Keeps job_id code message now db =
    bind-Keeps db.submissions (require_job db job_id) _ (λ (job : Job).
      guard-Keeps db.submissions (is_active job) (job_transition (cannot_fail job.status)) _ refl)

go_on-submissions :
    (next : Db → Result Bool × Db)
    → ((x : Db) → (next x).1.submissions ≡ x.submissions)
    → (db : Db) (r : Result Db) → Keeps db.submissions (r >>= λ x. ok (tt {0}, x))
    → (go_on next db r).1.submissions ≡ db.submissions
unfolding Keeps
go_on-submissions next keeps db (err e) h = refl
go_on-submissions next keeps db (ok db1) h = keeps db1 ∙ h

dropped-Keeps :
    (t : List Submission) (r : Result (Job × Db))
    → Keeps t r
    → Keeps t ((r >>= λ x. ok x.1) >>= λ x. ok (tt {0}, x))
unfolding Keeps
dropped-Keeps t (err e) h = tt
dropped-Keeps t (ok (j, db)) h = h

submit_job-Keeps :
    (o : Outside) (j : ℕ) (db : Db)
    → Keeps db.submissions (submit_job o j db >>= λ x. ok (tt {0}, x))
unfolding submit_job Keeps
submit_job-Keeps o j db = elim (Bool-cases (o.accepts j)) [
  | inl accepted ↦ rw accepted refl
  | inr refused ↦ rw refused (
      dropped-Keeps db.submissions _
        (mark_failed-Keeps j "INTERNAL_PROCESSING_ERROR" not_submitted o.now db))
]

submit_jobs-submissions :
    (o : Outside) (job_ids : List ℕ) (failures : Bool) (db : Db)
    → (submit_jobs o job_ids failures db).1.submissions ≡ db.submissions
unfolding submit_jobs
submit_jobs-submissions o [] failures db = refl
submit_jobs-submissions o (j ∷ js) failures db =
    go_on-submissions (submit_jobs o js (failures || not (o.accepts j)))
      (submit_jobs-submissions o js (failures || not (o.accepts j))) db (submit_job o j db)
      (submit_job-Keeps o j db)

recomputed-submissions :
    (document_id now : ℕ) (db : Db)
    → (recompute_document_status document_id now db).submissions ≡ db.submissions
unfolding recompute_document_status
recomputed-submissions document_id now db = ground arith

recompute_if-submissions :
    (failures : Bool) (document_id now : ℕ) (db : Db)
    → (recompute_if failures document_id now db).submissions ≡ db.submissions
recompute_if-submissions true document_id now db = recomputed-submissions document_id now db
recompute_if-submissions false document_id now db = refl

submitted-submissions :
    (o : Outside) (file : File) (r : Result Bool × Db)
    → (submitted o file r).1.submissions ≡ r.1.submissions
submitted-submissions o file (err e, db) = refl
submitted-submissions o file (ok failures, db) =
    recompute_if-submissions failures (o.document_id file) o.now db

after_commit-submissions :
    (o : Outside) (file : File) (db : Db) (r : Result (List ℕ × Db))
    → Keeps db.submissions r
    → (after_commit o file db r).1.submissions ≡ db.submissions
unfolding Keeps
after_commit-submissions o file db (err e) h = refl
after_commit-submissions o file db (ok (job_ids, db1)) h =
    submitted-submissions o file (submit_jobs o job_ids false db1)
    ∙ (submit_jobs-submissions o job_ids false db1 ∙ h)

-- Ingesting a file leaves the table of submissions as it was, on success and on every error.
pub ingest_one_file-submissions :
    (o : Outside) (batch_id submission_id : ℕ) (file : File) (t : DocumentType) (db : Db)
    → (ingest_one_file o batch_id submission_id file t db).1.submissions ≡ db.submissions
unfolding ingest_one_file
ingest_one_file-submissions o batch_id submission_id file t db =
    after_commit-submissions o file db _ (ingest_rows-Keeps o batch_id submission_id file t db)
