-- ===== src/Onedrive/Lifecycle/Rows.antt =====
-- What each operation does to the one row that a lookup finds.
use mathlib.Core.Option
use marriage_be.Prelude.{
  ℕ, String, Bool, false, ◌&&◌, some, List, [], ◌∷◌, ◌++◌, ◌==◌, ◌≡◌, refl, ◌∙◌, ap, arith, nat_eq,
  if◌then◌else◌,
}
use marriage_be.Status.{failed, submission_status_eq}
use marriage_be.Db.Rows.{Submission, Db}
use marriage_be.Db.Table.{find, modify}
use marriage_be.Db.Table.Laws.{find-modify, find-key, find-update_self, find-update_ne, find-delete}
use marriage_be.Onedrive.Repository.{
  submission_key, get_submission, store_submission, submission_row, create_submission,
  mark_fetching, mark_fetched, restore_fetched, mark_failed, mark_pending_for_retry, to_fetching,
  to_fetched, to_restored, to_failed, to_pending,
}
use marriage_be.Onedrive.Repository.Skipped.{
  update_skipped_file, remove_skipped_file, with_item, without_item,
}
use marriage_be.Onedrive.Repository.Sweeps.{
  claim_for_fetch, resume_or_fail_stale_fetching_submissions, requeue_lost_pending_submissions,
  fail_stale_fetching_submissions, touched, is_claimed, is_silent, is_lost, resume_or_fail,
}
use marriage_be.Onedrive.Repository.Deletion.{delete_submission_row}
use marriage_be.Onedrive.Lifecycle
use marriage_be.Onedrive.Lifecycle.{Op, perform, kept, heartbeat, is_beating}

-- the rows that an operation reaches, and what it makes of them
unfoldable pub reaches : Op → Submission → Bool
reaches (Lifecycle.create b url i now) s = false
reaches (Lifecycle.begin i now) s = s.id == i
reaches (Lifecycle.fetched i skipped now) s = s.id == i
reaches (Lifecycle.restore i now) s = s.id == i
reaches (Lifecycle.fail i code message now) s = s.id == i
reaches (Lifecycle.retry i now) s = s.id == i && s.status == failed
reaches (Lifecycle.change i filename changes now) s = s.id == i
reaches (Lifecycle.drop i filename now) s = s.id == i
reaches (Lifecycle.claim i now stale_after) s = is_claimed i now stale_after s
reaches (Lifecycle.beat i now) s = is_beating i s
reaches (Lifecycle.resume now stale_after max_attempts) s = is_silent now stale_after s
reaches (Lifecycle.requeue now pending_after) s = is_lost now pending_after s
reaches (Lifecycle.fail_stale now stale_after) s = is_silent now stale_after s
reaches (Lifecycle.delete i) s = false

pub resume_or_fail-id : (m now : ℕ) (s : Submission) → (resume_or_fail m now s).id ≡ s.id
unfolding resume_or_fail
resume_or_fail-id m now s = ground arith

unfoldable pub makes : Op → Submission → Submission
makes (Lifecycle.create b url i now) s = s
makes (Lifecycle.begin i now) s = to_fetching now s
makes (Lifecycle.fetched i skipped now) s = to_fetched skipped now s
makes (Lifecycle.restore i now) s = to_restored now s
makes (Lifecycle.fail i code message now) s = to_failed code message now s
makes (Lifecycle.retry i now) s = to_pending now s
makes (Lifecycle.change i filename changes now) s = with_item filename changes now s
makes (Lifecycle.drop i filename now) s = without_item filename now s
makes (Lifecycle.claim i now stale_after) s = to_fetching now s
makes (Lifecycle.beat i now) s = touched now s
makes (Lifecycle.resume now stale_after max_attempts) s = resume_or_fail max_attempts now s
makes (Lifecycle.requeue now pending_after) s = touched now s
makes (Lifecycle.fail_stale now stale_after) s =
    to_failed "PROCESSING_INTERRUPTED"
      "Processing was interrupted and did not complete. Retry this link to try again." now s
makes (Lifecycle.delete i) s = s

makes-id : (op : Op) (s : Submission) → (makes op s).id ≡ s.id
unfolding makes to_fetching to_fetched to_restored to_pending with_item without_item touched
    to_failed
makes-id (Lifecycle.resume now stale_after max_attempts) s = resume_or_fail-id max_attempts now s
makes-id (Lifecycle.fail i code message now) s = refl
makes-id (Lifecycle.fail_stale now stale_after) s = refl
makes-id (Lifecycle.create b url i now) s = refl
makes-id (Lifecycle.begin i now) s = refl
makes-id (Lifecycle.fetched i skipped now) s = refl
makes-id (Lifecycle.restore i now) s = refl
makes-id (Lifecycle.retry i now) s = refl
makes-id (Lifecycle.change i filename changes now) s = refl
makes-id (Lifecycle.drop i filename now) s = refl
makes-id (Lifecycle.claim i now stale_after) s = refl
makes-id (Lifecycle.beat i now) s = refl
makes-id (Lifecycle.requeue now pending_after) s = refl
makes-id (Lifecycle.delete i) s = refl

abbrev pub after : Op → Submission → Submission
after op s = if reaches op s then makes op s else s

-- a call that mutates rows where they lie
mutated-get :
    (p : Submission → Bool) (f : Submission → Submission)
    → ((s : Submission) → (f s).id ≡ s.id)
    → (db : Db) (k : ℕ) (s : Submission) → get_submission db k ≡ some s
    → get_submission (record db { submissions = modify p f db.submissions }) k
      ≡ some (if p s then f s else s)
unfolding get_submission
mutated-get p f keeps db k s h =
    find-modify submission_key p f keeps k db.submissions
    ∙ ap (Option.map (λ r. if p r then f r else r)) h

-- a call that sets the attributes of the object with a key
stored-get :
    (i : ℕ) (f : Submission → Submission)
    → ((s : Submission) → (f s).id ≡ s.id)
    → (db : Db) (k : ℕ) (s : Submission) → get_submission db k ≡ some s
    → get_submission (kept db (store_submission i f db)) k ≡ some (if s.id == i then f s else s)
unfolding get_submission store_submission
stored-get i f keeps db k s h = ground (
  arith,
  find-key submission_key k db.submissions s,
  find-update_self submission_key f keeps k db.submissions,
  find-update_ne submission_key f keeps i k db.submissions,
)

retried-get :
    (i now : ℕ) (db : Db) (k : ℕ) (s : Submission)
    → get_submission db k ≡ some s
    → get_submission (kept db (mark_pending_for_retry i now db)) k
      ≡ some (if s.id == i && s.status == failed then to_pending now s else s)
unfolding get_submission mark_pending_for_retry store_submission to_pending
retried-get i now db k s h = ground (
  arith,
  find-key submission_key k db.submissions s,
  find-update_self submission_key (to_pending now) (λ s. refl) k db.submissions,
  find-update_ne submission_key (to_pending now) (λ s. refl) i k db.submissions,
)

find-append :
    (k : ℕ) (t : List Submission) (r s : Submission)
    → find submission_key k t ≡ some s
    → find submission_key k (t ++ r ∷ []) ≡ some s
unfolding find
find-append k [] r s h = cc
find-append k (x ∷ t) r s h = ground (arith, find-append k t r s)

created-get :
    (b : ℕ) (url : String) (i now : ℕ) (db : Db) (k : ℕ) (s : Submission)
    → get_submission db k ≡ some s
    → get_submission (kept db (create_submission b url i now db)) k ≡ some s
unfolding get_submission create_submission
created-get b url i now db k s h =
    ground (arith, find-append k db.submissions (submission_row i b url now) s h)

-- the operation does not delete the submission
abbrev pub IsKeeping : ℕ → Op → Type 0
IsKeeping k (Lifecycle.delete i) = (k == i) ≡ false
IsKeeping k _ = Unit {0}

deleted-get :
    (i : ℕ) (db : Db) (k : ℕ) (s : Submission)
    → (k == i) ≡ false
    → get_submission db k ≡ some s
    → get_submission (delete_submission_row i db) k ≡ some s
unfolding get_submission delete_submission_row
deleted-get i db k s other h =
    find-delete submission_key (λ (r : Submission). r.id == i) k db.submissions s h
      (rw (find-key submission_key k db.submissions s h) other)

-- A submission that is found is found again, as the operation makes it.
pub get_submission-perform :
    (op : Op) (db : Db) (k : ℕ) (s : Submission)
    → IsKeeping k op
    → get_submission db k ≡ some s
    → get_submission (perform op db) k ≡ some (after op s)
unfolding perform reaches makes to_fetching mark_fetching store_submission to_fetched mark_fetched
    to_restored restore_fetched to_failed mark_failed with_item update_skipped_file without_item
    remove_skipped_file claim_for_fetch resume_or_fail_stale_fetching_submissions
    requeue_lost_pending_submissions fail_stale_fetching_submissions touched heartbeat
get_submission-perform (Lifecycle.create b url i now) db k s stays h =
    created-get b url i now db k s h
get_submission-perform (Lifecycle.begin i now) db k s stays h =
    stored-get i (to_fetching now) (λ s. refl) db k s h
get_submission-perform (Lifecycle.fetched i skipped now) db k s stays h =
    stored-get i (to_fetched skipped now) (λ s. refl) db k s h
get_submission-perform (Lifecycle.restore i now) db k s stays h =
    stored-get i (to_restored now) (λ s. refl) db k s h
get_submission-perform (Lifecycle.fail i code message now) db k s stays h =
    stored-get i (to_failed code message now) (λ s. refl) db k s h
get_submission-perform (Lifecycle.retry i now) db k s stays h = retried-get i now db k s h
get_submission-perform (Lifecycle.change i filename changes now) db k s stays h =
    stored-get i (with_item filename changes now) (λ s. refl) db k s h
get_submission-perform (Lifecycle.drop i filename now) db k s stays h =
    stored-get i (without_item filename now) (λ s. refl) db k s h
get_submission-perform (Lifecycle.claim i now stale_after) db k s stays h =
    mutated-get (is_claimed i now stale_after) (to_fetching now) (λ s. refl) db k s h
get_submission-perform (Lifecycle.beat i now) db k s stays h =
    mutated-get (is_beating i) (touched now) (λ s. refl) db k s h
get_submission-perform (Lifecycle.resume now stale_after max_attempts) db k s stays h =
    mutated-get (is_silent now stale_after) (resume_or_fail max_attempts now)
      (resume_or_fail-id max_attempts now) db k s h
get_submission-perform (Lifecycle.requeue now pending_after) db k s stays h =
    mutated-get (is_lost now pending_after) (touched now) (λ s. refl) db k s h
get_submission-perform (Lifecycle.fail_stale now stale_after) db k s stays h =
    mutated-get (is_silent now stale_after)
      (to_failed "PROCESSING_INTERRUPTED"
        "Processing was interrupted and did not complete. Retry this link to try again." now)
      (λ s. refl) db k s h
get_submission-perform (Lifecycle.delete i) db k s stays h = deleted-get i db k s stays h
