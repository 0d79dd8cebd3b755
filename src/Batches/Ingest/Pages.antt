-- ===== src/Batches/Ingest/Pages.antt =====
-- batches/document_ingest.py, create_document_page_jobs: the page jobs of a document.
use mathlib.Core.List.{append_assoc, append-nil}
use marriage_be.Prelude.{
  ℕ, ◌+◌, String, true, false, Option, some, List, [], ◌∷◌, ◌++◌, ◌≡◌, refl, sym, ◌∙◌, ap, map,
  is_some, All, Bool-cases, inl, inr,
}
use marriage_be.Status.{JobStatus}
use marriage_be.DocumentType.{DocumentType}
use marriage_be.Db.Rows.{Document, Job, Db}
use marriage_be.Db.Table.{find}
use marriage_be.Db.Result.{integrity_error, Result, ok, err, ◌>>=◌}
use marriage_be.Jobs.Repository.{create_job, job_row, job_key}
use marriage_be.Batches.Ingest.{Page, page_job, create_page_jobs_from, create_document_page_jobs}

-- `number`, `number + 1`, ..., one for each page
abbrev numbered : (number : ℕ) → List Page → List (Option ℕ)
numbered number [] = []
numbered number (page ∷ pages) = some number ∷ numbered (number + 1) pages

-- The rows that a split adds to the jobs.
pub record ArePages (number : ℕ) (d : Document) (pages : List Page) (ids : List ℕ) (new : List Job)
    : Type 0 where
  pub job_ids : map (λ (j : Job). j.id) new ≡ ids
  pub page_ids : map (λ (page : Page). page.job_id) pages ≡ ids
  pub numbers : map (λ (j : Job). j.page_number) new ≡ numbered number pages
  pub waiting : All (λ (j : Job). (j.document_id ≡ some d.id) × (j.status ≡ JobStatus.pending)) new

-- What comes of a split: nothing where it raises.
abbrev pub IsSplit : (number : ℕ) → Document → List Page → Db → Result (List ℕ × Db) → Type 0
IsSplit number d pages db (err e) = Unit
IsSplit number d pages db (ok (ids, db')) =
    (new : List Job) × (db' ≡ record db { jobs = db.jobs ++ new }) × ArePages number d pages ids new

module _ (batch_id : ℕ) (d : Document) (t : DocumentType) (git_ref : String) (now : ℕ) where
  added : (number : ℕ) (page : Page) (db : Db) → Db
  added number page db = record db {
    jobs = db.jobs ++ job_row (page_job batch_id d t git_ref number page) now ∷ [];
  }

  one_page :
      (number : ℕ) (page : Page) (pages : List Page) (db : Db)
      → is_some (find job_key page.job_id db.jobs) ≡ false
      → create_page_jobs_from number batch_id d t git_ref now (page ∷ pages) db ≡ (
          create_page_jobs_from (number + 1) batch_id d t git_ref now pages (added number page db)
          >>= λ r. ok (page.job_id ∷ r.0, r.1))
  unfolding create_page_jobs_from added create_job page_job
  one_page number page pages db free = rw free refl

  no_page :
      (number : ℕ) (page : Page) (pages : List Page) (db : Db)
      → is_some (find job_key page.job_id db.jobs) ≡ true
      → create_page_jobs_from number batch_id d t git_ref now (page ∷ pages) db
        ≡ err integrity_error
  unfolding create_page_jobs_from create_job page_job
  no_page number page pages db taken = rw taken refl

  next_page :
      (number : ℕ) (page : Page) (pages : List Page) (db : Db) (r : Result (List ℕ × Db))
      → IsSplit (number + 1) d pages (added number page db) r
      → IsSplit number d (page ∷ pages) db (r >>= λ x. ok (page.job_id ∷ x.0, x.1))
  unfolding added page_job job_row
  next_page number page pages db (err e) split = tt
  next_page number page pages db (ok (ids, db')) (new, e, are) = (
    job_row (page_job batch_id d t git_ref number page) now ∷ new,
    e ∙ ap (λ (js : List Job). record db { jobs = js }) (append_assoc db.jobs _ new),
    record {
      job_ids = ap (λ (is : List ℕ). page.job_id ∷ is) are.job_ids;
      page_ids = ap (λ (is : List ℕ). page.job_id ∷ is) are.page_ids;
      numbers = ap (λ (ns : List (Option ℕ)). some number ∷ ns) are.numbers;
      waiting = ((refl, refl), are.waiting);
    },
  )

  from-IsSplit :
      (number : ℕ) (pages : List Page) (db : Db)
      → IsSplit number d pages db (create_page_jobs_from number batch_id d t git_ref now pages db)
  from-IsSplit number [] db =
      unfold create_page_jobs_from in
      (
        [],
        ap (λ (js : List Job). record db { jobs = js }) (sym (append-nil db.jobs)),
        record { job_ids = refl; page_ids = refl; numbers = refl; waiting = tt },
      )
  from-IsSplit number (page ∷ pages) db =
      elim (Bool-cases (is_some (find job_key page.job_id db.jobs))) [
        | inl taken ↦ rw (no_page number page pages db taken) tt
        | inr free ↦ rw (one_page number page pages db free) (
            next_page number page pages db _
              (from-IsSplit (number + 1) pages (added number page db)))
      ]

-- Splitting a document either raises or appends to the jobs exactly one PENDING job of the
-- document for each page, in the order of the pages, numbered 1, 2, ..., with the ids that are
-- returned; it changes nothing else.
pub create_document_page_jobs-IsSplit :
    (batch_id : ℕ) (d : Document) (t : DocumentType) (git_ref : String) (now : ℕ)
    (pages : List Page) (db : Db)
    → IsSplit 1 d pages db (create_document_page_jobs batch_id d t git_ref now pages db)
unfolding create_document_page_jobs
create_document_page_jobs-IsSplit batch_id d t git_ref now pages db =
    from-IsSplit batch_id d t git_ref now 1 pages db
