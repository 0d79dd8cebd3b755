-- ===== src/Onedrive/Skips.antt =====
-- onedrive/service.py: a reviewer's choice for a skipped file, and its download if its bytes are
-- gone. What the storage, the executors and the download answer is given.
pub mod Queue
use marriage_be.Prelude.{
  ℕ, String, Bool, true, false, ◌&&◌, ◌||◌, not, Option, none, some, List, [], ◌∷◌, map, ◌==◌, get,
  put, first, string_eq, if◌then◌else◌,
}
use marriage_be.Status.{fetching, submission_status_eq}
use marriage_be.DocumentType.{DocumentType, type_text, type_of_text}
use marriage_be.Db.Rows.{Submission, Fields, Value, text, null, other, Db}
use marriage_be.Db.Result.{
  Error, Result, ok, err, ◌>>=◌, api_error, upload_validation_error, value_error,
}
use marriage_be.Batches.Recompute.{recompute_batch_status}
use marriage_be.Onedrive.Repository.{get_submission}
use marriage_be.Onedrive.Repository.Skipped.{
  items, has, get_skipped_file, update_skipped_file, remove_skipped_file,
}
use marriage_be.Onedrive.Classification.{File}
use marriage_be.Jobs.Paths.{◌+s◌}
use marriage_be.Onedrive.Fetch.{Download, downloaded, fetch_error, crash}
use marriage_be.Onedrive.Ingest.{Outside, ingest_one_file}
use marriage_be.Onedrive.Service.{committed, is_refetching, failed_refetch, filename_of, shown}

-- What the outside world answers to one request: the bytes of an entry, from the disk or from the
-- object storage, if they are still there; whether there is an executor for downloads, and whether
-- it accepts; the instant, and its text.
record Answers : Type 0 where
  pub outside : Outside
  pub bytes : Fields → Option File
  pub has_executor : Bool
  pub accepted : Bool
  pub now : ℕ
  pub now_text : String

unfoldable pub queued_refetch : (type_name now_text : String) → Fields
queued_refetch type_name now_text =
    ("refetch_status", text "QUEUED")
    ∷ ("refetch_document_type", text type_name)
    ∷ ("refetch_error", null)
    ∷ ("refetch_updated_at", text now_text)
    ∷ []

abbrev queued_or_failed :
    Answers
    → (submission_id : ℕ) (filename : String) → Db
    → Result (Submission × Db)
    → Result Submission × Db
queued_or_failed a submission_id filename db (err e) = (err e, db)
queued_or_failed a submission_id filename db (ok (s, db1)) = if a.accepted then (ok s, db1) else (
  err (api_error 500 "INTERNAL_ERROR"),
  committed db1 (
      update_skipped_file submission_id filename
        (failed_refetch "The re-download could not be queued for background processing.") a.now
        db1),
)

unfoldable queue_skipped_file_refetch :
    Answers → (submission_id : ℕ) (filename : String) → DocumentType → Db → Result Submission × Db
unfolding queued_refetch
queue_skipped_file_refetch a submission_id filename t db =
    queued_or_failed a submission_id filename db (
      update_skipped_file submission_id filename (queued_refetch (type_text t) a.now_text) a.now db)

abbrev as_api_error : Error → Error
as_api_error (upload_validation_error http_status code) = api_error http_status code
as_api_error e = e

abbrev removed :
    Answers → (submission_id : ℕ) (filename : String) → Result ℕ × Db → Result Submission × Db
removed a submission_id filename (err e, db) = (err (as_api_error e), db)
removed a submission_id filename (ok document_id, db) =
    elim (remove_skipped_file submission_id filename a.now db) [
      | err e ↦ (err e, db)
      | ok (s, db1) ↦ (ok s, recompute_batch_status s.batch_id a.now db1)
    ]

abbrev with_bytes :
    Answers
    → Submission
    → (filename : String) → DocumentType
    → Option File
    → Db
    → Result Submission × Db
with_bytes a s filename t (some file) db =
    removed a s.id filename (ingest_one_file a.outside s.batch_id s.id file t db)
with_bytes a s filename t none db =
    if a.has_executor
    then queue_skipped_file_refetch a s.id filename t db
    else (err (api_error 409 "SKIPPED_FILE_UNAVAILABLE"), db)

abbrev classify_entry :
    Answers
    → Submission
    → (filename : String) → DocumentType
    → Option Fields
    → Db
    → Result Submission × Db
classify_entry a s filename t none db = (err (api_error 404 "SKIPPED_FILE_NOT_FOUND"), db)
classify_entry a s filename t (some entry) db =
    if has "status" "SKIPPED_JAWI" entry
    then (err (api_error 409 "SKIPPED_FILE_JAWI"), db)
    else if has "status" "DUPLICATE" entry
    then (err (api_error 409 "SKIPPED_FILE_DUPLICATE"), db)
    else if is_refetching entry
    then (err (api_error 409 "SKIPPED_FILE_REFETCHING"), db)
    else with_bytes a s filename t (a.bytes entry) db

unfoldable classify_skipped_file :
    Answers → (submission_id : ℕ) (filename : String) → DocumentType → Db → Result Submission × Db
unfolding queue_skipped_file_refetch
classify_skipped_file a submission_id filename t db = elim (get_submission db submission_id) [
  | none ↦ (err (api_error 404 "SUBMISSION_NOT_FOUND"), db)
  | some s ↦
      if s.status == fetching
      then (err (api_error 409 "SUBMISSION_BUSY"), db)
      else classify_entry a s filename t (get_skipped_file db submission_id filename) db
]

-- The failures are recorded one after the other, in one transaction.
unfoldable update_all :
    (submission_id : ℕ) (changes : Fields) (now : ℕ) → List String → Db → Result Db
update_all submission_id changes now [] db = ok db
update_all submission_id changes now (filename ∷ filenames) db =
    update_skipped_file submission_id filename changes now db >>= λ r.
    update_all submission_id changes now filenames r.1

abbrev or_rolled_back : Db → Result Db → Db
or_rolled_back db (ok db') = db'
or_rolled_back db (err e) = db

unfoldable set_refetch_failed :
    (submission_id : ℕ) (filenames : List String) (message : String) (now : ℕ) → Db → Db
unfolding update_all
set_refetch_failed submission_id filenames message now db =
    or_rolled_back db (update_all submission_id (failed_refetch message) now filenames db)

-- The type with which a queued entry is to be ingested; nothing for other entries. An entry that
-- names no document type raises.
abbrev pub named_type : String → Result (Option DocumentType)
named_type name =
    if name == ""
    then ok none
    else elim (type_of_text name) [ none ↦ err value_error | some t ↦ ok (some t) ]

unfoldable pub claim_entry : Fields → Result (Option DocumentType)
unfolding get
claim_entry item =
    if has "refetch_status" "QUEUED" item
    then named_type (shown (get "refetch_document_type" item))
    else ok none

abbrev add_claim :
    Fields → Option DocumentType → List (String × DocumentType) → List (String × DocumentType)
add_claim item none claimed = claimed
add_claim item (some t) claimed = put (filename_of item) t claimed

-- The loop over the entries; where it raises, the files claimed so far come back.
unfoldable claim_entries :
    List Fields → (claimed : List (String × DocumentType)) → List (String × DocumentType) × Bool
unfolding claim_entry put
claim_entries [] claimed = (claimed, true)
claim_entries (item ∷ rest) claimed = elim (claim_entry item) [
  | err e ↦ (claimed, false)
  | ok t ↦ claim_entries rest (add_claim item t claimed)
]

-- What the outside world answers to one background download: the files that it yields, sorted, and
-- `str.lower`.
record Refetch : Type 0 where
  pub outside : Outside
  pub download : Download
  pub lower : String → String
  pub message : Error → String
  pub now : ℕ
  pub now_text : String

abbrev in_progress : Refetch → Fields
in_progress w =
    ("refetch_status", text "IN_PROGRESS") ∷ ("refetch_updated_at", text w.now_text) ∷ []

abbrev ingest_message : Refetch → Error → String
ingest_message w (upload_validation_error http_status code) =
    w.message (upload_validation_error http_status code)
ingest_message w e = "The re-downloaded file could not be ingested."

abbrev after_ingest : Refetch → (submission_id : ℕ) (filename : String) → Result ℕ × Db → Db
after_ingest w submission_id filename (ok document_id, db) =
    committed db (remove_skipped_file submission_id filename w.now db)
after_ingest w submission_id filename (err e, db) =
    set_refetch_failed submission_id (filename ∷ []) (ingest_message w e) w.now db

abbrev refetch_from :
    Refetch → Submission → (filename : String) → DocumentType → Option File → Db → Db
refetch_from w s filename t none db =
    set_refetch_failed s.id (filename ∷ []) (filename +s " is no longer in the OneDrive link.")
      w.now db
refetch_from w s filename t (some file) db =
    after_ingest w s.id filename (ingest_one_file w.outside s.batch_id s.id file t db)

-- one claimed file, unless it was classified or deleted some other way meanwhile
abbrev refetch_one : Refetch → Submission → List File → String × DocumentType → Db → Db
refetch_one w s files (filename, t) db = elim (get_skipped_file db s.id filename) [
  | none ↦ db
  | some entry ↦
      refetch_from w s filename t (first (λ (f : File). w.lower f.name == w.lower filename) files)
        db
]

unfoldable refetch_each : Refetch → Submission → List File → List (String × DocumentType) → Db → Db
unfolding set_refetch_failed first
refetch_each w s files [] db = db
refetch_each w s files (claim ∷ claimed) db =
    refetch_each w s files claimed (refetch_one w s files claim db)

abbrev filenames : List (String × DocumentType) → List String
filenames = map (λ (c : String × DocumentType). c.0)

abbrev refetch_internal_error :
    Refetch → (submission_id : ℕ) → List (String × DocumentType) → Db → Db
refetch_internal_error w submission_id claimed db =
    set_refetch_failed submission_id (filenames claimed)
      "The re-download encountered an internal processing error." w.now db

abbrev after_refetch : Refetch → Submission → List (String × DocumentType) → Download → Db → Db
after_refetch w s claimed (downloaded files) db =
    recompute_batch_status s.batch_id w.now (refetch_each w s files claimed db)
after_refetch w s claimed (fetch_error message) db =
    set_refetch_failed s.id (filenames claimed) message w.now db
after_refetch w s claimed crash db = refetch_internal_error w s.id claimed db

abbrev run_refetch : Refetch → Submission → List (String × DocumentType) × Bool → Db → Db
run_refetch w s (claimed, false) db = refetch_internal_error w s.id claimed db
run_refetch w s ([], true) db = db
run_refetch w s (claim ∷ claimed, true) db =
    elim (update_all s.id (in_progress w) w.now (filenames (claim ∷ claimed)) db) [
      | err e ↦ refetch_internal_error w s.id (claim ∷ claimed) db
      | ok db1 ↦ after_refetch w s (claim ∷ claimed) w.download db1
    ]

unfoldable run_skipped_files_refetch : Refetch → (submission_id : ℕ) → Db → Db
unfolding claim_entries set_refetch_failed refetch_each update_all
run_skipped_files_refetch w submission_id db = elim (get_submission db submission_id) [
  | none ↦ db
  | some s ↦ run_refetch w s (claim_entries (items s.skipped_files) []) db
]
