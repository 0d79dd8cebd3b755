-- ===== src/Batches/Recompute/Fresh.antt =====
-- What a recomputation leaves in the database.
use mathlib.Core.Option
use marriage_be.Prelude.{
  ℕ, false, some, List, [], ◌∷◌, ◌==◌, ◌≡◌, ◌≢◌, refl, arith, nat_eq, ap, sym, ◌∙◌, map-eq_some,
}
use marriage_be.Status.{
  JobStatus, DocumentStatus, BatchStatus, job_status_eq, document_status_eq, batch_status_eq,
}
use marriage_be.Db.Rows.{Document, Batch, Db}
use marriage_be.Db.Table.{find}
use marriage_be.Db.Table.Laws.{find-update_self, find-update_ne}
use marriage_be.Batches.Repository.{document_key, batch_key, get_document, get_batch}
use marriage_be.Batches.Recompute.{
  job_statuses, document_statuses, next_document_status, next_batch_status, set_status,
  set_batch_status, recompute_document_status, recompute_batch_status,
}

set_status-key : (s : DocumentStatus) (t : ℕ) (d : Document) → (set_status s t d).id ≡ d.id
unfolding set_status
set_status-key s t d = ground arith

set_batch_status-key : (s : BatchStatus) (t : ℕ) (b : Batch) → (set_batch_status s t b).id ≡ b.id
unfolding set_batch_status
set_batch_status-key s t b = ground arith

-- The status that a document shows is the aggregate of its jobs, once there is a job.
abbrev pub IsFresh : Db → ℕ → Type 0
IsFresh db document_id =
    (d : Document)
    → get_document db document_id ≡ some d
    → job_statuses db document_id ≢ []
    → d.status ≡ next_document_status (job_statuses db document_id)

-- The status that a batch shows is the aggregate of its documents, once there is one.
abbrev pub IsFreshBatch : Db → ℕ → Type 0
IsFreshBatch db batch_id =
    (b : Batch)
    → get_batch db batch_id ≡ some b
    → document_statuses db batch_id ≢ []
    → b.status ≡ next_batch_status (document_statuses db batch_id)

pub jobs-recompute_document_status :
    (k now : ℕ) (db : Db) → (recompute_document_status k now db).jobs ≡ db.jobs
unfolding recompute_document_status
jobs-recompute_document_status k now db = ground arith

batches-recompute_document_status :
    (k now : ℕ) (db : Db) → (recompute_document_status k now db).batches ≡ db.batches
unfolding recompute_document_status
batches-recompute_document_status k now db = ground arith

pub job_statuses-recompute_document_status :
    (k j now : ℕ) (db : Db)
    → job_statuses (recompute_document_status k now db) j ≡ job_statuses db j
unfolding job_statuses
job_statuses-recompute_document_status k j now db = rw (jobs-recompute_document_status k now db)

-- the row of the document after its own recomputation
abbrev settled : List JobStatus → ℕ → Document → Document
settled [] now d = d
settled (s ∷ ss) now d = set_status (next_document_status (s ∷ ss)) now d

get_document-recompute_self :
    (k now : ℕ) (db : Db)
    → get_document (recompute_document_status k now db) k
      ≡ Option.map (settled (job_statuses db k) now) (get_document db k)
unfolding recompute_document_status
get_document-recompute_self k now db = ground (
  arith,
  find-update_self document_key (set_status (next_document_status (job_statuses db k)) now)
      (set_status-key _ now) k db.documents,
)

-- the row of another document is left as it was
pub get_document-recompute_ne :
    (k j now : ℕ) (db : Db)
    → (k == j) ≡ false
    → get_document (recompute_document_status k now db) j ≡ get_document db j
unfolding recompute_document_status
get_document-recompute_ne k j now db ne = ground (
  arith,
  find-update_ne document_key (set_status (next_document_status (job_statuses db k)) now)
      (set_status-key _ now) k j db.documents ne,
)

status-settled :
    (ss : List JobStatus) (now : ℕ) (d : Document)
    → ss ≢ []
    → (settled ss now d).status ≡ next_document_status ss
unfolding set_status
status-settled [] now d h = absurd (h refl)
status-settled (s ∷ ss) now d h =
    ground (arith, (document_status_eq.equal_iff d.status (next_document_status (s ∷ ss))).0)

pub recompute_document_status-IsFresh :
    (k now : ℕ) (db : Db) → IsFresh (recompute_document_status k now db) k
recompute_document_status-IsFresh k now db d e some_job =
    let (c, stored, same) =
      map-eq_some (settled (job_statuses db k) now) (get_document db k)
        (sym (get_document-recompute_self k now db) ∙ e) in
    rw job_statuses-recompute_document_status (
      ap (λ (x : Document). x.status) (sym same)
      ∙ status-settled (job_statuses db k) now c
          (rw job_statuses-recompute_document_status at some_job))

-- the same for batches

pub documents-recompute_batch_status :
    (k now : ℕ) (db : Db) → (recompute_batch_status k now db).documents ≡ db.documents
unfolding recompute_batch_status
documents-recompute_batch_status k now db = ground arith

pub jobs-recompute_batch_status :
    (k now : ℕ) (db : Db) → (recompute_batch_status k now db).jobs ≡ db.jobs
unfolding recompute_batch_status
jobs-recompute_batch_status k now db = ground arith

document_statuses-recompute_batch_status :
    (k j now : ℕ) (db : Db)
    → document_statuses (recompute_batch_status k now db) j ≡ document_statuses db j
unfolding document_statuses
document_statuses-recompute_batch_status k j now db = rw (documents-recompute_batch_status k now db)

abbrev settled_batch : List DocumentStatus → ℕ → Batch → Batch
settled_batch [] now b = b
settled_batch (s ∷ ss) now b = set_batch_status (next_batch_status (s ∷ ss)) now b

get_batch-recompute_self :
    (k now : ℕ) (db : Db)
    → get_batch (recompute_batch_status k now db) k
      ≡ Option.map (settled_batch (document_statuses db k) now) (get_batch db k)
unfolding recompute_batch_status
get_batch-recompute_self k now db = ground (
  arith,
  find-update_self batch_key (set_batch_status (next_batch_status (document_statuses db k)) now)
      (set_batch_status-key _ now) k db.batches,
)

status-settled_batch :
    (ss : List DocumentStatus) (now : ℕ) (b : Batch)
    → ss ≢ []
    → (settled_batch ss now b).status ≡ next_batch_status ss
unfolding set_batch_status
status-settled_batch [] now b h = absurd (h refl)
status-settled_batch (s ∷ ss) now b h =
    ground (arith, (batch_status_eq.equal_iff b.status (next_batch_status (s ∷ ss))).0)

pub recompute_batch_status-IsFreshBatch :
    (k now : ℕ) (db : Db) → IsFreshBatch (recompute_batch_status k now db) k
recompute_batch_status-IsFreshBatch k now db b e some_document =
    let (c, stored, same) =
      map-eq_some (settled_batch (document_statuses db k) now) (get_batch db k)
        (sym (get_batch-recompute_self k now db) ∙ e) in
    rw document_statuses-recompute_batch_status (
      ap (λ (x : Batch). x.status) (sym same)
      ∙ status-settled_batch (document_statuses db k) now c
          (rw document_statuses-recompute_batch_status at some_document))

-- The row of a batch after its recomputation shows the aggregate of that moment.
pub shown_batch :
    (b now : ℕ) (db : Db) (x : Batch)
    → get_batch db b ≡ some x
    → document_statuses db b ≢ []
    → (y : Batch) × (get_batch (recompute_batch_status b now db) b ≡ some y)
      × (y.status ≡ next_batch_status (document_statuses db b))
shown_batch b now db x stored some_document = (
  settled_batch (document_statuses db b) now x,
  get_batch-recompute_self b now db
      ∙ ap (Option.map (settled_batch (document_statuses db b) now)) stored,
  status-settled_batch (document_statuses db b) now x some_document,
)

pub get_batch-recompute_document_status :
    (k now b : ℕ) (db : Db) → get_batch (recompute_document_status k now db) b ≡ get_batch db b
unfolding get_batch
get_batch-recompute_document_status k now b db =
    ap (find batch_key b) (batches-recompute_document_status k now db)
