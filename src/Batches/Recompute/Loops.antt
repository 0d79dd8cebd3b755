-- ===== src/Batches/Recompute/Loops.antt =====
-- Recomputing the documents of a list of jobs, each document once, as batches/service.py and
-- jobs/service.py do with a set of the documents already seen.
use mathlib.Core.Path.{subst}
use marriage_be.Prelude.{
  ℕ, Bool, true, Option, none, some, List, [], ◌∷◌, ◌==◌, ◌≡◌, refl, mem, nat_eq, arith,
  if◌then◌else◌, Bool-cases, inl, inr, sym, ◌∙◌, ap, any, refers, some_inj, none≢some,
}
use marriage_be.Db.Rows.{Job, Db}
use marriage_be.Batches.Recompute.{recompute_document_status}
use marriage_be.Batches.Recompute.Fresh.{
  IsFresh, recompute_document_status-IsFresh, get_document-recompute_ne,
  job_statuses-recompute_document_status, jobs-recompute_document_status,
}

-- one turn of the loop, with the set of the documents already seen
abbrev pub visit_document : Option ℕ → List ℕ → ℕ → Db → List ℕ × Db
visit_document none seen now db = (seen, db)
visit_document (some k) seen now db =
    if mem k seen then (seen, db) else (k ∷ seen, recompute_document_status k now db)

unfoldable pub recompute_documents : List Job → List ℕ → ℕ → Db → Db
recompute_documents [] seen now db = db
recompute_documents (job ∷ jobs) seen now db =
    let (seen', db') = visit_document job.document_id seen now db in
    recompute_documents jobs seen' now db'

-- a fresh document stays fresh whatever else is recomputed
recompute-keeps-IsFresh :
    (j k now : ℕ) (db : Db) → IsFresh db k → IsFresh (recompute_document_status j now db) k
recompute-keeps-IsFresh j k now db h d e some_job = elim (Bool-cases (j == k)) [
  | inl same ↦
      subst (λ i. IsFresh (recompute_document_status i now db) k)
        (sym ((nat_eq.equal_iff j k).0 same)) (recompute_document_status-IsFresh k now db) d e
        some_job
  | inr other ↦ rw job_statuses-recompute_document_status (
      h d (sym (get_document-recompute_ne j k now db other) ∙ e)
        (rw job_statuses-recompute_document_status at some_job))
]

pub visit-keeps-IsFresh :
    (o : Option ℕ) (seen : List ℕ) (k now : ℕ) (db : Db)
    → IsFresh db k
    → IsFresh (visit_document o seen now db).1 k
visit-keeps-IsFresh none seen k now db h = h
visit-keeps-IsFresh (some j) seen k now db h = elim (Bool-cases (mem j seen)) [
  | inl old ↦ rw old h
  | inr new ↦ rw new (recompute-keeps-IsFresh j k now db h)
]

pub recompute_documents-keeps-IsFresh :
    (jobs : List Job) (seen : List ℕ) (k now : ℕ) (db : Db)
    → IsFresh db k
    → IsFresh (recompute_documents jobs seen now db) k
unfolding recompute_documents
recompute_documents-keeps-IsFresh [] seen k now db h = h
recompute_documents-keeps-IsFresh (job ∷ jobs) seen k now db h =
    recompute_documents-keeps-IsFresh jobs (visit_document job.document_id seen now db).0 k now
      (visit_document job.document_id seen now db).1
      (visit-keeps-IsFresh job.document_id seen k now db h)

-- a document that the loop has seen is fresh
abbrev pub SeenAreFresh : List ℕ → Db → Type 0
SeenAreFresh seen db = (k : ℕ) → mem k seen ≡ true → IsFresh db k

pub visit-IsFresh :
    (o : Option ℕ) (k : ℕ) (seen : List ℕ) (now : ℕ) (db : Db)
    → SeenAreFresh seen db
    → o ≡ some k
    → IsFresh (visit_document o seen now db).1 k
visit-IsFresh none k seen now db h e = absurd (none≢some e)
visit-IsFresh (some j) k seen now db h e = elim (Bool-cases (mem j seen)) [
  | inl old ↦ rw old (subst (IsFresh db) (some_inj e) (h j old))
  | inr new ↦ rw new (
      subst (IsFresh (recompute_document_status j now db)) (some_inj e)
        (recompute_document_status-IsFresh j now db))
]

pub visit-SeenAreFresh :
    (o : Option ℕ) (seen : List ℕ) (now : ℕ) (db : Db)
    → SeenAreFresh seen db
    → SeenAreFresh (visit_document o seen now db).0 (visit_document o seen now db).1
visit-SeenAreFresh none seen now db h = h
visit-SeenAreFresh (some j) seen now db h = elim (Bool-cases (mem j seen)) [
  | inl old ↦ rw old h
  | inr new ↦ rw new λ k m. elim (Bool-cases (j == k)) [
    | inl same ↦
        subst (IsFresh (recompute_document_status j now db)) ((nat_eq.equal_iff j k).0 same)
          (recompute_document_status-IsFresh j now db)
    | inr other ↦ recompute-keeps-IsFresh j k now db (h k (rw other at m))
  ]
]

-- a job of the list whose document is `k`
abbrev pub has_document : ℕ → Job → Bool
has_document k job = refers job.document_id k

pub refers-some : (o : Option ℕ) (k : ℕ) → refers o k ≡ true → o ≡ some k
refers-some none k h = cc
refers-some (some j) k h = ap some ((nat_eq.equal_iff j k).0 h)

-- After the loop the document of each listed job is fresh.
pub recompute_documents-IsFresh :
    (jobs : List Job) (seen : List ℕ) (k now : ℕ) (db : Db)
    → SeenAreFresh seen db
    → any (has_document k) jobs ≡ true
    → IsFresh (recompute_documents jobs seen now db) k
unfolding recompute_documents any
recompute_documents-IsFresh [] seen k now db h m = cc
recompute_documents-IsFresh (job ∷ jobs) seen k now db h m =
    elim (Bool-cases (has_document k job)) [
      | inl here ↦
          recompute_documents-keeps-IsFresh jobs _ k now _
            (visit-IsFresh job.document_id k seen now db h (refers-some job.document_id k here))
      | inr later ↦
          recompute_documents-IsFresh jobs (visit_document job.document_id seen now db).0 k now
            (visit_document job.document_id seen now db).1
            (visit-SeenAreFresh job.document_id seen now db h) (rw later at m)
    ]

pub jobs-visit :
    (o : Option ℕ) (seen : List ℕ) (now : ℕ) (db : Db)
    → (visit_document o seen now db).1.jobs ≡ db.jobs
jobs-visit none seen now db = refl
jobs-visit (some j) seen now db = ground (arith, jobs-recompute_document_status j now db)

pub jobs-recompute_documents :
    (jobs : List Job) (seen : List ℕ) (now : ℕ) (db : Db)
    → (recompute_documents jobs seen now db).jobs ≡ db.jobs
unfolding recompute_documents
jobs-recompute_documents [] seen now db = refl
jobs-recompute_documents (job ∷ jobs) seen now db =
    jobs-recompute_documents jobs (visit_document job.document_id seen now db).0 now
      (visit_document job.document_id seen now db).1
    ∙ jobs-visit job.document_id seen now db
