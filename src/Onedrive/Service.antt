-- ===== src/Onedrive/Service.antt =====
-- onedrive/service.py: submitting, retrying, reclassifying and deleting a link, and the recovery of
-- runs that fell silent. Whether the executor accepts what it is handed is given.
pub mod Posts
pub mod Retries
use Prim.Native.Nat.{◌*◌}
use marriage_be.Prelude.{
  ℕ, zero, suc, ◌+◌, String, Bool, true, false, ◌&&◌, ◌||◌, not, Option, none, some, List, [], ◌∷◌,
  ◌++◌, map, ◌==◌, any, get, mem, ltb, length, refers, select, nat_eq, string_eq, if◌then◌else◌,
}
use marriage_be.Status.{SubmissionStatus, fetching, fetched, failed, submission_status_eq}
use marriage_be.Db.Rows.{Submission, Document, Job, Fields, Value, text, other, null, Db}
use marriage_be.Db.Result.{Error, Result, ok, err, ◌>>=◌, api_error}
use marriage_be.Jobs.Paths.{page1_ocr_relative_path}
use marriage_be.Batches.Recompute.{recompute_batch_status}
use marriage_be.Batches.Service.{present, nonempty}
use marriage_be.Onedrive.Repository.{
  get_submission, get_submission_by_url, create_submission, mark_fetching, restore_fetched,
  mark_failed, mark_pending_for_retry,
}
use marriage_be.Onedrive.Repository.Skipped.{
  items, has, update_skipped_file, list_submissions_with_skipped_files,
}
use marriage_be.Onedrive.Repository.Sweeps.{
  resume_or_fail_stale_fetching_submissions, requeue_lost_pending_submissions,
}
use marriage_be.Onedrive.Repository.Deletion.{delete_submission_row, of_submission, of_documents}

-- microseconds
abbrev pub stale_heartbeat : ℕ
stale_heartbeat = 600 * 1000000

abbrev max_fetch_resumes : ℕ
max_fetch_resumes = 3

abbrev lost_pending_after : ℕ
lost_pending_after = 3 * 3600 * 1000000

abbrev created_or_existing :
    Db → Result (Submission × Db) → Option Submission → Result ((Submission × Bool) × Db)
created_or_existing db (ok (s, db')) existing = ok ((s, true), db')
created_or_existing db (err e) none = err e
created_or_existing db (err e) (some s) = ok ((s, false), db)

-- `meanwhile` is what other sessions commit between the lookup and the INSERT.
unfoldable pub get_or_create_submission :
    (batch_id : ℕ) (url : String) (id now : ℕ) (meanwhile : Db → Db)
    → Db
    → Result ((Submission × Bool) × Db)
get_or_create_submission batch_id url id now meanwhile db = elim (get_submission_by_url db url) [
  | some existing ↦ ok ((existing, false), db)
  | none ↦
      created_or_existing (meanwhile db) (create_submission batch_id url id now (meanwhile db))
        (get_submission_by_url (meanwhile db) url)
]

abbrev pub committed : Db → Result (Submission × Db) → Db
committed db (ok (s, db')) = db'
committed db (err e) = db

abbrev submitted_or_failed :
    (accepted : Bool) (submission_id now : ℕ)
    → Db
    → Result (Submission × Db)
    → Result Submission × Db
submitted_or_failed accepted submission_id now db (err e) = (err e, db)
submitted_or_failed true submission_id now db (ok (s, db1)) = (ok s, db1)
submitted_or_failed false submission_id now db (ok (s, db1)) = (
  err (api_error 500 "INTERNAL_ERROR"),
  committed db1 (
      mark_failed submission_id "INTERNAL_PROCESSING_ERROR"
        "The OneDrive submission could not be resubmitted for background processing." now db1),
)

-- The error is raised after a commit, so the database comes back beside it.
unfoldable pub retry_submission :
    (submission_id : ℕ) (accepted : Bool) (now : ℕ) → Db → Result Submission × Db
retry_submission submission_id accepted now db = elim (get_submission db submission_id) [
  | none ↦ (err (api_error 404 "SUBMISSION_NOT_FOUND"), db)
  | some s ↦
      if s.status == failed
      then submitted_or_failed accepted submission_id now db
          (mark_pending_for_retry submission_id now db)
      else (err (api_error 409 "SUBMISSION_NOT_FAILED"), db)
]

abbrev pub is_refetching : Fields → Bool
is_refetching item = has "refetch_status" "QUEUED" item || has "refetch_status" "IN_PROGRESS" item

unfoldable pub is_reclassifiable : Fields → Bool
is_reclassifiable item =
    (has "status" "CLASSIFY_FAILED" item
      || has "status" "NEEDS_MANUAL_CLASSIFICATION" item
      || has "status" "INGEST_FAILED" item)
    && not (is_refetching item)

abbrev queued_or_restored :
    (accepted : Bool) (submission_id now : ℕ)
    → Db
    → Result (Submission × Db)
    → Result Submission × Db
queued_or_restored accepted submission_id now db (err e) = (err e, db)
queued_or_restored true submission_id now db (ok (s, db1)) = (ok s, db1)
queued_or_restored false submission_id now db (ok (s, db1)) =
    (err (api_error 500 "INTERNAL_ERROR"), committed db1 (restore_fetched submission_id now db1))

unfoldable pub reclassify_skipped_files :
    (submission_id : ℕ) (accepted : Bool) (now : ℕ) → Db → Result Submission × Db
unfolding any is_reclassifiable
reclassify_skipped_files submission_id accepted now db = elim (get_submission db submission_id) [
  | none ↦ (err (api_error 404 "SUBMISSION_NOT_FOUND"), db)
  | some s ↦
      if s.status == fetched
      then if any is_reclassifiable (items s.skipped_files)
        then queued_or_restored accepted submission_id now db (mark_fetching submission_id now db)
        else (err (api_error 409 "NOTHING_TO_RECLASSIFY"), db)
      else (err (api_error 409 "SUBMISSION_NOT_FETCHED"), db)
]

abbrev pub shown : Option Value → String
shown (some (text s)) = s
shown _ = ""

abbrev pub failed_refetch : (message : String) → Fields
failed_refetch message =
    ("refetch_status", text "FAILED")
    ∷ ("refetch_document_type", null)
    ∷ ("refetch_error", text message)
    ∷ []

-- `updated_at and now - fromisoformat(updated_at) < stale_after`; `read_time` is `fromisoformat`
unfoldable is_recent : (read_time : String → ℕ) (now stale_after : ℕ) → Fields → Bool
unfolding get
is_recent read_time now stale_after item =
    let updated_at = shown (get "refetch_updated_at" item) in
    not (updated_at == "") && ltb now (read_time updated_at + stale_after)

abbrev pub filename_of : Fields → String
filename_of item = shown (get "filename" item)

fail_stale_items :
    (read_time : String → ℕ) (now stale_after submission_id : ℕ) → List Fields → Db → ℕ × Db
unfolding is_recent get
fail_stale_items read_time now stale_after submission_id [] db = (0, db)
fail_stale_items read_time now stale_after submission_id (item ∷ rest) db =
    let failed_now = is_refetching item && not (is_recent read_time now stale_after item) in
    let db1 =
      if failed_now
      then committed db (
          update_skipped_file submission_id (filename_of item)
            (failed_refetch "The re-download was interrupted. Click Classify to try again.") now db)
      else db in
    let (recovered, db2) = fail_stale_items read_time now stale_after submission_id rest db1 in
    (if failed_now then suc recovered else recovered, db2)

fail_stale_all : (read_time : String → ℕ) (now stale_after : ℕ) → List Submission → Db → ℕ × Db
unfolding fail_stale_items
fail_stale_all read_time now stale_after [] db = (0, db)
fail_stale_all read_time now stale_after (s ∷ ss) db =
    let (n, db1) = fail_stale_items read_time now stale_after s.id (items s.skipped_files) db in
    let (m, db2) = fail_stale_all read_time now stale_after ss db1 in (n + m, db2)

unfoldable fail_stale_refetches : (read_time : String → ℕ) (now stale_after : ℕ) → Db → ℕ × Db
unfolding fail_stale_all
fail_stale_refetches read_time now stale_after db =
    fail_stale_all read_time now stale_after (list_submissions_with_skipped_files db) db

-- With an executor, and without one. The ids that it is handed come back beside the count.
unfoldable recover_stale_submissions :
    (has_executor : Bool) (read_time : String → ℕ) (now stale_after : ℕ) → Db → (List ℕ × ℕ) × Db
unfolding fail_stale_refetches
recover_stale_submissions has_executor read_time now stale_after db =
    let (resume, failed_now, db1) =
      resume_or_fail_stale_fetching_submissions now stale_heartbeat
        (if has_executor then max_fetch_resumes else 0) db in
    let (lost, db2) =
      if has_executor
      then requeue_lost_pending_submissions now lost_pending_after db1
      else ([], db1) in
    let (refetches, db3) = fail_stale_refetches read_time now stale_after db2 in
    ((resume ++ lost, length resume + (length lost + (length failed_now + refetches))), db3)

-- What `delete_submission` asks of the storage: object keys in the order of their deletion, and
-- the directories that are removed from the disk: `batches/<batch>/documents/<id>`, `jobs/<id>`
-- and `onedrive/<id>`.
pub record Removed : Type 0 where
  pub keys : List String
  pub document_directories : List (ℕ × ℕ)
  pub job_directories : List ℕ
  pub onedrive_directory : ℕ

abbrev nonempty_text : Option Value → Option String
nonempty_text (some (text s)) = if s == "" then none else some s
nonempty_text _ = none

unfoldable storage_key_of : Fields → Option String
unfolding get
storage_key_of item = nonempty_text (get "storage_key" item)

unfoldable removed_with : (s3 : Bool) → Submission → Db → Removed
unfolding select of_submission of_documents present nonempty storage_key_of
removed_with s3 s db =
    let documents = select (of_submission s.id) db.documents in
    let jobs = select (of_documents documents) db.jobs in
    let document_keys = map (λ (d : Document). d.storage_key) documents in
    let job_output_keys = present (map (λ (j : Job). j.output_relative_path) jobs) in
    let skipped_keys = present (map storage_key_of (items s.skipped_files)) in
    let page1_ocr_keys = map page1_ocr_relative_path (nonempty document_keys) in
    record {
      keys =
          if s3 then document_keys ++ (job_output_keys ++ (skipped_keys ++ page1_ocr_keys)) else [];
      document_directories = map (λ (d : Document). (d.batch_id, d.id)) documents;
      job_directories = map (λ (j : Job). j.id) jobs;
      onedrive_directory = s.id;
    }

unfoldable delete_submission : (s3 : Bool) (submission_id now : ℕ) → Db → Result (Removed × Db)
unfolding removed_with
delete_submission s3 submission_id now db = elim (get_submission db submission_id) [
  | none ↦ err (api_error 404 "SUBMISSION_NOT_FOUND")
  | some s ↦ ok (
    removed_with s3 s db,
    recompute_batch_status s.batch_id now (delete_submission_row submission_id db),
  )
]
