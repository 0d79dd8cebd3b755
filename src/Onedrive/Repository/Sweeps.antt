-- ===== src/Onedrive/Repository/Sweeps.antt =====
-- onedrive/repositories.py: claims, and the recovery of submissions whose run fell silent.
use marriage_be.Prelude.{
  ℕ, ◌+◌, String, Bool, ◌&&◌, ◌||◌, not, List, map, ◌==◌, any, ltb, select, nat_eq, if◌then◌else◌,
}
use marriage_be.Status.{pending, fetching, submission_status_eq}
use marriage_be.Db.Rows.{Submission, Db}
use marriage_be.Db.Table.{modify}
use marriage_be.Onedrive.Repository.{to_fetching, to_failed}

-- `updated_at < now - interval`, in microseconds
abbrev pub older : (now interval : ℕ) → Submission → Bool
older now interval s = ltb (s.updated_at + interval) now

abbrev pub is_silent : (now stale_after : ℕ) → Submission → Bool
is_silent now stale_after s = s.status == fetching && older now stale_after s

abbrev pub can_claim : (now stale_after : ℕ) → Submission → Bool
can_claim now stale_after s = s.status == pending || is_silent now stale_after s

abbrev pub is_claimed : (submission_id now stale_after : ℕ) → Submission → Bool
is_claimed submission_id now stale_after s = s.id == submission_id && can_claim now stale_after s

-- One conditional UPDATE, and whether it reached a row.
unfoldable pub claim_for_fetch : (submission_id now stale_after : ℕ) → Db → Bool × Db
unfolding any modify to_fetching
claim_for_fetch submission_id now stale_after db =
    let wanted = is_claimed submission_id now stale_after in
    (
      any wanted db.submissions,
      record db { submissions = modify wanted (to_fetching now) db.submissions },
    )

unfoldable pub to_resumed : ℕ → Submission → Submission
to_resumed now s = record s {
  fetch_attempts = s.fetch_attempts + 1;
  status = pending;
  updated_at = now;
}

abbrev interrupted_repeatedly : String
interrupted_repeatedly =
    "Processing was interrupted repeatedly and did not complete. Retry this link to try again."

abbrev pub can_resume : (max_attempts : ℕ) → Submission → Bool
can_resume max_attempts s = ltb s.fetch_attempts max_attempts

unfoldable pub resume_or_fail : (max_attempts now : ℕ) → Submission → Submission
unfolding to_resumed to_failed
resume_or_fail max_attempts now s =
    if can_resume max_attempts s
    then to_resumed now s
    else to_failed "PROCESSING_INTERRUPTED" interrupted_repeatedly now s

-- The ids to run again, and the submissions that failed.
unfoldable pub resume_or_fail_stale_fetching_submissions :
    (now stale_after max_attempts : ℕ) → Db → List ℕ × List Submission × Db
unfolding select modify resume_or_fail
resume_or_fail_stale_fetching_submissions now stale_after max_attempts db =
    let stale = select (is_silent now stale_after) db.submissions in
    (
      map (λ (s : Submission). s.id) (select (can_resume max_attempts) stale),
      map (resume_or_fail max_attempts now) (select (λ s. not (can_resume max_attempts s)) stale),
      record db {
        submissions =
            modify (is_silent now stale_after) (resume_or_fail max_attempts now) db.submissions;
      },
    )

unfoldable pub touched : ℕ → Submission → Submission
touched now s = record s { updated_at = now }

abbrev pub is_lost : (now pending_after : ℕ) → Submission → Bool
is_lost now pending_after s = s.status == pending && older now pending_after s

unfoldable pub requeue_lost_pending_submissions : (now pending_after : ℕ) → Db → List ℕ × Db
unfolding select modify touched
requeue_lost_pending_submissions now pending_after db = (
  map (λ (s : Submission). s.id) (select (is_lost now pending_after) db.submissions),
  record db { submissions = modify (is_lost now pending_after) (touched now) db.submissions },
)

abbrev interrupted : String
interrupted = "Processing was interrupted and did not complete. Retry this link to try again."

unfoldable pub fail_stale_fetching_submissions : (now stale_after : ℕ) → Db → List Submission × Db
unfolding select modify to_failed
fail_stale_fetching_submissions now stale_after db =
    let fail = to_failed "PROCESSING_INTERRUPTED" interrupted now in
    (
      map fail (select (is_silent now stale_after) db.submissions),
      record db { submissions = modify (is_silent now stale_after) fail db.submissions },
    )
