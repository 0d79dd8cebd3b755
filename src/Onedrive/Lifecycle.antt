-- ===== src/Onedrive/Lifecycle.antt =====
-- The operations of the submission repository as steps of one database, in any order and number.
pub mod Rows
pub mod Keys
pub mod Exclusive
pub mod Attempts
use marriage_be.Prelude.{
  ℕ, zero, suc, ◌+◌, String, Bool, true, false, ◌&&◌, ◌||◌, Option, none, some, List, [], ◌∷◌, ◌==◌,
  mem, nat_eq, if◌then◌else◌,
}
use marriage_be.Status.{fetching, submission_status_eq}
use marriage_be.Db.Rows.{Submission, Fields, Db}
use marriage_be.Db.Table.{modify}
use marriage_be.Db.Result.{Result, ok, err}
use marriage_be.Onedrive.Repository.{
  create_submission, mark_fetching, mark_fetched, restore_fetched, mark_failed,
  mark_pending_for_retry,
}
use marriage_be.Onedrive.Repository.Skipped.{update_skipped_file, remove_skipped_file}
use marriage_be.Onedrive.Repository.Sweeps.{
  claim_for_fetch, resume_or_fail_stale_fetching_submissions, requeue_lost_pending_submissions,
  fail_stale_fetching_submissions, touched,
}
use marriage_be.Onedrive.Repository.Deletion.{delete_submission_row}

abbrev pub is_beating : (submission_id : ℕ) → Submission → Bool
is_beating submission_id s = s.id == submission_id && s.status == fetching

-- one round of the thread of `_Heartbeat`
unfoldable pub heartbeat : (submission_id now : ℕ) → Db → Db
unfolding modify touched
heartbeat submission_id now db = record db {
  submissions = modify (is_beating submission_id) (touched now) db.submissions;
}

-- A call of the repository with its arguments, or a heartbeat.
pub data Op : Type 0 where
  create : (batch_id : ℕ) (url : String) (id now : ℕ) → Op
  begin : (submission_id now : ℕ) → Op
  fetched : (submission_id : ℕ) → List Fields → (now : ℕ) → Op
  restore : (submission_id now : ℕ) → Op
  fail : (submission_id : ℕ) (code message : String) (now : ℕ) → Op
  retry : (submission_id now : ℕ) → Op
  change : (submission_id : ℕ) (filename : String) → Fields → (now : ℕ) → Op
  drop : (submission_id : ℕ) (filename : String) (now : ℕ) → Op
  claim : (submission_id now stale_after : ℕ) → Op
  beat : (submission_id now : ℕ) → Op
  resume : (now stale_after max_attempts : ℕ) → Op
  requeue : (now pending_after : ℕ) → Op
  fail_stale : (now stale_after : ℕ) → Op
  delete : (submission_id : ℕ) → Op

abbrev pub kept : Db → Result (Submission × Db) → Db
kept db (ok (s, db')) = db'
kept db (err e) = db

-- The database after a call; a call that raises leaves it as it was.
unfoldable pub perform : Op → Db → Db
unfolding heartbeat
perform (create batch_id url id now) db = kept db (create_submission batch_id url id now db)
perform (begin i now) db = kept db (mark_fetching i now db)
perform (fetched i skipped now) db = kept db (mark_fetched i skipped now db)
perform (restore i now) db = kept db (restore_fetched i now db)
perform (fail i code message now) db = kept db (mark_failed i code message now db)
perform (retry i now) db = kept db (mark_pending_for_retry i now db)
perform (change i filename changes now) db = kept db (update_skipped_file i filename changes now db)
perform (drop i filename now) db = kept db (remove_skipped_file i filename now db)
perform (claim i now stale_after) db = (claim_for_fetch i now stale_after db).1
perform (beat i now) db = heartbeat i now db
perform (resume now stale_after max_attempts) db =
    (resume_or_fail_stale_fetching_submissions now stale_after max_attempts db).2
perform (requeue now pending_after) db = (requeue_lost_pending_submissions now pending_after db).1
perform (fail_stale now stale_after) db = (fail_stale_fetching_submissions now stale_after db).1
perform (delete i) db = delete_submission_row i db

unfoldable pub perform_all : List Op → Db → Db
perform_all [] db = db
perform_all (op ∷ ops) db = perform_all ops (perform op db)
