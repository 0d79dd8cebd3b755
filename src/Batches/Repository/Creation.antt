-- ===== src/Batches/Repository/Creation.antt =====
-- batches/repositories.py: the creation of batches, documents and exports.
use marriage_be.Prelude.{ℕ, String, Option, none, some, [], ◌∷◌, ◌++◌, nat_eq, string_eq}
use marriage_be.Status.{BatchStatus, DocumentStatus, ExportStatus, batch_status_eq}
use marriage_be.DocumentType.{DocumentType}
use marriage_be.Db.Rows.{Batch, Document, Export, Db}

abbrev or_now : Option ℕ → ℕ → ℕ
or_now none now = now
or_now (some t) now = t

-- The new row's id comes from `uuid4`.
pub record NewBatch : Type 0 where
  pub name : String
  pub description : Option String
  pub created_by : Option ℕ
  pub daerah : Option String
  pub negeri : Option String
  pub status : BatchStatus
  pub started_at : Option ℕ
  pub completed_at : Option ℕ
  pub created_at : Option ℕ
  pub updated_at : Option ℕ

batch_row : NewBatch → (id now : ℕ) → Batch
batch_row n id now = record {
  id = id;
  name = n.name;
  description = n.description;
  daerah = n.daerah;
  negeri = n.negeri;
  status = n.status;
  created_by = n.created_by;
  created_at = or_now n.created_at now;
  updated_at = or_now n.updated_at now;
  started_at = n.started_at;
  completed_at = n.completed_at;
}

unfoldable pub create_batch : NewBatch → (id now : ℕ) → Db → Batch × Db
unfolding batch_row
create_batch n id now db =
    (batch_row n id now, record db { batches = db.batches ++ batch_row n id now ∷ [] })

pub record NewDocument : Type 0 where
  pub batch_id : ℕ
  pub original_filename : String
  pub safe_filename : String
  pub media_type : String
  pub size_bytes : ℕ
  pub sha256 : String
  pub storage_key : String
  pub status : DocumentStatus
  pub document_type : DocumentType
  pub page_count : Option ℕ
  pub created_at : Option ℕ
  pub updated_at : Option ℕ

document_row : NewDocument → (id now : ℕ) → Document
document_row n id now = record {
  id = id;
  batch_id = n.batch_id;
  original_filename = n.original_filename;
  safe_filename = n.safe_filename;
  media_type = n.media_type;
  size_bytes = n.size_bytes;
  sha256 = n.sha256;
  storage_key = n.storage_key;
  status = n.status;
  document_type = n.document_type;
  page_count = n.page_count;
  onedrive_submission_id = none;
  created_at = or_now n.created_at now;
  updated_at = or_now n.updated_at now;
}

-- `given` is the `id` argument, `fresh` the one of `uuid4` that stands in for it.
unfoldable pub create_document :
    NewDocument → (given : Option ℕ) (fresh now : ℕ) → Db → Document × Db
unfolding document_row
create_document n given fresh now db =
    let row = document_row n (or_now given fresh) now in
    (row, record db { documents = db.documents ++ row ∷ [] })

pub record NewExport : Type 0 where
  pub batch_id : ℕ
  pub format : String
  pub created_by : Option ℕ
  pub status : ExportStatus
  pub storage_key : Option String
  pub record_count : Option ℕ
  pub error_message : Option String
  pub created_at : Option ℕ
  pub completed_at : Option ℕ

export_row : NewExport → (id now : ℕ) → Export
export_row n id now = record {
  id = id;
  batch_id = n.batch_id;
  format = n.format;
  status = n.status;
  storage_key = n.storage_key;
  record_count = n.record_count;
  created_by = n.created_by;
  error_message = n.error_message;
  created_at = or_now n.created_at now;
  completed_at = n.completed_at;
}

unfoldable pub create_export : NewExport → (id now : ℕ) → Db → Export × Db
unfolding export_row
create_export n id now db =
    (export_row n id now, record db { exports = db.exports ++ export_row n id now ∷ [] })
