-- ===== src/Onedrive/Repository.antt =====
-- onedrive/repositories.py: lookup, listing, creation and the status of one submission.
pub mod Skipped
pub mod Sweeps
pub mod Deletion
use marriage_be.Prelude.{
  ℕ, zero, suc, ◌+◌, String, Bool, true, false, ◌&&◌, ◌||◌, not, Option, none, some, List, [], ◌∷◌,
  ◌++◌, ◌==◌, ltb, is_some, first, select, length, nat_eq, string_eq, if◌then◌else◌,
}
use marriage_be.Prelude.Sort.{sort_by, take, drop}
use marriage_be.Status.{SubmissionStatus, pending, fetching, fetched, failed, submission_status_eq}
use marriage_be.Db.Rows.{Submission, Fields, Db}
use marriage_be.Db.Table.{find, update}
use marriage_be.Batches.Repository.{get_batch}
use marriage_be.Db.Result.{Error, Result, ok, err, ◌>>=◌, ◌>>◌, guard, integrity_error, value_error}

abbrev pub submission_key : Submission → ℕ
submission_key s = s.id

unfoldable pub get_submission : Db → ℕ → Option Submission
unfolding find
get_submission db submission_id = find submission_key submission_id db.submissions

abbrev pub has_url : String → Submission → Bool
has_url url s = s.url == url

unfoldable pub get_submission_by_url : Db → String → Option Submission
unfolding first
get_submission_by_url db url = first (has_url url) db.submissions

-- ORDER BY created_at DESC, id DESC
abbrev newer : Submission → Submission → Bool
newer s t = ltb t.created_at s.created_at || (s.created_at == t.created_at && not (ltb s.id t.id))

unfoldable list_submissions : Db → (batch_id limit offset : ℕ) → List Submission
unfolding select sort_by take drop
list_submissions db batch_id limit offset = take limit (
    drop offset
      (sort_by newer (select (λ (s : Submission). s.batch_id == batch_id) db.submissions)))

unfoldable count_submissions : Db → (batch_id : ℕ) → ℕ
unfolding select
count_submissions db batch_id =
    length (select (λ (s : Submission). s.batch_id == batch_id) db.submissions)

abbrev pub submission_row : (id batch_id : ℕ) (url : String) (now : ℕ) → Submission
submission_row id batch_id url now = record {
  id = id;
  batch_id = batch_id;
  url = url;
  status = pending;
  error_code = none;
  error_message = none;
  skipped_files = none;
  created_at = now;
  updated_at = now;
  fetched_at = none;
  fetch_attempts = 0;
  title = none;
}

-- The new row's id comes from `uuid4`; the flush raises where the id or the URL is taken, or where
-- there is no such batch.
unfoldable pub create_submission :
    (batch_id : ℕ) (url : String) (id now : ℕ) → Db → Result (Submission × Db)
unfolding get_submission get_submission_by_url get_batch
create_submission batch_id url id now db = do
  guard (not (is_some (get_submission db id))) integrity_error
  guard (not (is_some (get_submission_by_url db url))) integrity_error
  guard (is_some (get_batch db batch_id)) integrity_error
  ok (
    submission_row id batch_id url now,
    record db { submissions = db.submissions ++ submission_row id batch_id url now ∷ [] },
  )

abbrev pub found : Option Submission → Result Submission
found none = err value_error
found (some s) = ok s

-- The attributes of the loaded object are set and flushed; the object is returned.
unfoldable pub store_submission : ℕ → (Submission → Submission) → Db → Result (Submission × Db)
unfolding get_submission update
store_submission submission_id change db = do
  s ← found (get_submission db submission_id)
  ok (
    change s,
    record db { submissions = update submission_key submission_id change db.submissions },
  )

unfoldable pub to_fetching : ℕ → Submission → Submission
to_fetching now s = record s { status = fetching; updated_at = now }

unfoldable pub mark_fetching : (submission_id now : ℕ) → Db → Result (Submission × Db)
unfolding store_submission to_fetching
mark_fetching submission_id now = store_submission submission_id (to_fetching now)

-- `skipped_files or None`
abbrev pub or_none : List Fields → Option (List Fields)
or_none [] = none
or_none (item ∷ items) = some (item ∷ items)

unfoldable pub to_fetched : List Fields → ℕ → Submission → Submission
to_fetched skipped_files now s = record s {
  status = fetched;
  skipped_files = or_none skipped_files;
  fetch_attempts = 0;
  fetched_at = some now;
  updated_at = now;
}

unfoldable pub mark_fetched :
    (submission_id : ℕ) → List Fields → (now : ℕ) → Db → Result (Submission × Db)
unfolding store_submission to_fetched
mark_fetched submission_id skipped_files now =
    store_submission submission_id (to_fetched skipped_files now)

unfoldable pub to_restored : ℕ → Submission → Submission
to_restored now s = record s { status = fetched; updated_at = now }

unfoldable pub restore_fetched : (submission_id now : ℕ) → Db → Result (Submission × Db)
unfolding store_submission to_restored
restore_fetched submission_id now = store_submission submission_id (to_restored now)

unfoldable pub to_failed : (error_code error_message : String) → ℕ → Submission → Submission
to_failed error_code error_message now s = record s {
  status = failed;
  error_code = some error_code;
  error_message = some error_message;
  fetched_at = some now;
  updated_at = now;
}

unfoldable pub mark_failed :
    (submission_id : ℕ) (error_code error_message : String) (now : ℕ)
    → Db
    → Result (Submission × Db)
unfolding store_submission to_failed
mark_failed submission_id error_code error_message now =
    store_submission submission_id (to_failed error_code error_message now)

unfoldable pub to_pending : ℕ → Submission → Submission
to_pending now s = record s {
  status = pending;
  error_code = none;
  error_message = none;
  fetched_at = none;
  updated_at = now;
}

unfoldable pub mark_pending_for_retry : (submission_id now : ℕ) → Db → Result (Submission × Db)
unfolding get_submission store_submission to_pending
mark_pending_for_retry submission_id now db = do
  s ← found (get_submission db submission_id)
  guard (s.status == failed) value_error
  store_submission submission_id (to_pending now) db
