-- ===== src/Onedrive/Lifecycle/Keys.antt =====
-- The primary key of the submissions under the operations of the repository.
use marriage_be.Prelude.{ℕ, String, ◌==◌, ◌≡◌, refl, Bool-cases, Option-cases, inl, inr, nat_eq}
use marriage_be.Status.{failed, submission_status_eq}
use marriage_be.Db.Rows.{Submission, Db}
use marriage_be.Db.Table.{update}
use marriage_be.Db.Table.Keys.{IsKeyed, modify-IsKeyed, append-IsKeyed, delete-IsKeyed, find-none}
use marriage_be.Batches.Repository.{get_batch}
use marriage_be.Onedrive.Repository.{
  submission_key, get_submission, get_submission_by_url, store_submission, submission_row,
  create_submission, mark_fetching, mark_fetched, restore_fetched, mark_failed,
  mark_pending_for_retry, to_fetching, to_fetched, to_restored, to_failed, to_pending,
}
use marriage_be.Onedrive.Repository.Skipped.{
  update_skipped_file, remove_skipped_file, with_item, without_item,
}
use marriage_be.Onedrive.Repository.Sweeps.{
  claim_for_fetch, resume_or_fail_stale_fetching_submissions, requeue_lost_pending_submissions,
  fail_stale_fetching_submissions, touched, resume_or_fail,
}
use marriage_be.Onedrive.Repository.Deletion.{delete_submission_row}
use marriage_be.Onedrive.Lifecycle
use marriage_be.Onedrive.Lifecycle.{Op, perform, kept, heartbeat}
use marriage_be.Onedrive.Lifecycle.Rows.{resume_or_fail-id}

abbrev pub HasKeys : Db → Type 0
HasKeys db = IsKeyed submission_key db.submissions

stored-HasKeys :
    (i : ℕ) (f : Submission → Submission)
    → ((s : Submission) → (f s).id ≡ s.id)
    → (db : Db) → HasKeys db
    → HasKeys (kept db (store_submission i f db))
unfolding store_submission update
stored-HasKeys i f keeps db h = elim (Option-cases (get_submission db i)) [
  | inl e ↦ rw e h
  | inr (s, e) ↦ rw e (modify-IsKeyed submission_key (λ r. r.id == i) f keeps db.submissions h)
]

retried-HasKeys :
    (i now : ℕ) (db : Db) → HasKeys db → HasKeys (kept db (mark_pending_for_retry i now db))
unfolding mark_pending_for_retry store_submission update to_pending
retried-HasKeys i now db h = elim (Option-cases (get_submission db i)) [
  | inl e ↦ rw e h
  | inr (s, e) ↦ elim (Bool-cases (s.status == failed)) [
    | inl is_failed ↦
        rw (e, is_failed)
          (modify-IsKeyed submission_key (λ r. r.id == i) (to_pending now) (λ r. refl)
            db.submissions h)
    | inr other ↦ rw (e, other) h
  ]
]

created-HasKeys :
    (b : ℕ) (url : String) (i now : ℕ) (db : Db)
    → HasKeys db
    → HasKeys (kept db (create_submission b url i now db))
unfolding create_submission
created-HasKeys b url i now db h = elim (Option-cases (get_submission db i)) [
  | inr (s, e) ↦ rw e h
  | inl e ↦ elim (Option-cases (get_submission_by_url db url)) [
    | inr (s, e') ↦ rw (e, e') h
    | inl e' ↦ elim (Option-cases (get_batch db b)) [
      | inl gone ↦ rw (e, e', gone) h
      | inr (x, there) ↦
          rw (e, e', there)
            (append-IsKeyed submission_key db.submissions (submission_row i b url now)
              (find-none submission_key i db.submissions e) h)
    ]
  ]
]

-- Every operation keeps the ids of the submissions distinct.
pub perform-HasKeys : (op : Op) (db : Db) → HasKeys db → HasKeys (perform op db)
unfolding perform to_fetching mark_fetching to_fetched mark_fetched to_restored restore_fetched
    to_failed mark_failed with_item update_skipped_file without_item remove_skipped_file
    claim_for_fetch resume_or_fail_stale_fetching_submissions requeue_lost_pending_submissions
    fail_stale_fetching_submissions touched heartbeat delete_submission_row
perform-HasKeys (Lifecycle.create b url i now) db h = created-HasKeys b url i now db h
perform-HasKeys (Lifecycle.begin i now) db h = stored-HasKeys i (to_fetching now) (λ s. refl) db h
perform-HasKeys (Lifecycle.fetched i skipped now) db h =
    stored-HasKeys i (to_fetched skipped now) (λ s. refl) db h
perform-HasKeys (Lifecycle.restore i now) db h = stored-HasKeys i (to_restored now) (λ s. refl) db h
perform-HasKeys (Lifecycle.fail i code message now) db h =
    stored-HasKeys i (to_failed code message now) (λ s. refl) db h
perform-HasKeys (Lifecycle.retry i now) db h = retried-HasKeys i now db h
perform-HasKeys (Lifecycle.change i filename changes now) db h =
    stored-HasKeys i (with_item filename changes now) (λ s. refl) db h
perform-HasKeys (Lifecycle.drop i filename now) db h =
    stored-HasKeys i (without_item filename now) (λ s. refl) db h
perform-HasKeys (Lifecycle.claim i now stale_after) db h =
    modify-IsKeyed submission_key _ (to_fetching now) (λ s. refl) db.submissions h
perform-HasKeys (Lifecycle.beat i now) db h =
    modify-IsKeyed submission_key _ (touched now) (λ s. refl) db.submissions h
perform-HasKeys (Lifecycle.resume now stale_after m) db h =
    modify-IsKeyed submission_key _ (resume_or_fail m now) (resume_or_fail-id m now) db.submissions
      h
perform-HasKeys (Lifecycle.requeue now pending_after) db h =
    modify-IsKeyed submission_key _ (touched now) (λ s. refl) db.submissions h
perform-HasKeys (Lifecycle.fail_stale now stale_after) db h =
    modify-IsKeyed submission_key _ _ (λ s. refl) db.submissions h
perform-HasKeys (Lifecycle.delete i) db h = delete-IsKeyed submission_key _ db.submissions h
