-- ===== src/Onedrive/Lifecycle/Attempts.antt =====
-- How often an interrupted run is resumed.
use marriage_be.Prelude.{
  ℕ, ◌+◌, ◌≤◌, Bool, false, ◌&&◌, some, List, [], ◌∷◌, ◌==◌, ◌≡◌, refl, ◌∙◌, ap, arith, nat_eq,
  if◌then◌else◌, any, select, map, mem,
}
use marriage_be.Status.{submission_status_eq}
use marriage_be.Db.Rows.{Submission, Db}
use marriage_be.Db.Table.Keys.{any-key, found_and}
use marriage_be.Db.Table.Laws.{find-key}
use marriage_be.Onedrive.Repository.{
  submission_key, get_submission, to_fetching, to_fetched, to_restored, to_failed, to_pending,
}
use marriage_be.Onedrive.Repository.Skipped.{with_item, without_item}
use marriage_be.Onedrive.Repository.Sweeps.{
  resume_or_fail_stale_fetching_submissions, is_silent, can_resume, touched, resume_or_fail,
  to_resumed,
}
use marriage_be.Onedrive.Lifecycle
use marriage_be.Onedrive.Lifecycle.{Op, perform, perform_all}
use marriage_be.Onedrive.Lifecycle.Keys.{HasKeys, perform-HasKeys}
use marriage_be.Onedrive.Lifecycle.Rows.{IsKeeping, after, reaches, makes, get_submission-perform}

-- The submission is not deleted, its run does not complete, and every sweep has the limit `m`.
abbrev IsWithin : (k m : ℕ) → Op → Type 0
IsWithin k m (Lifecycle.fetched i skipped now) = (k == i) ≡ false
IsWithin k m (Lifecycle.delete i) = (k == i) ≡ false
IsWithin k m (Lifecycle.resume now stale_after max_attempts) = max_attempts ≡ m
IsWithin k m _ = Unit {0}

abbrev AreWithin : (k m : ℕ) → List Op → Type 0
AreWithin k m [] = Unit {0}
AreWithin k m (op ∷ ops) = IsWithin k m op × AreWithin k m ops

-- the operation hands submission `k` back to be run again
unfoldable resumes : ℕ → Op → Db → Bool
resumes k (Lifecycle.resume now stale_after max_attempts) db =
    mem k (resume_or_fail_stale_fetching_submissions now stale_after max_attempts db).0
resumes k _ db = false

abbrev one_if : Bool → ℕ
one_if b = if b then 1 else 0

unfoldable pub resume_count : ℕ → List Op → Db → ℕ
unfolding resumes
resume_count k [] db = 0
resume_count k (op ∷ ops) db =
    let rest = resume_count k ops (perform op db) in one_if (resumes k op db) + rest

IsWithin-IsKeeping : (k m : ℕ) (op : Op) → IsWithin k m op → IsKeeping k op
IsWithin-IsKeeping k m (Lifecycle.delete i) h = h
IsWithin-IsKeeping k m _ h = tt

mem-column :
    (k : ℕ) (p q : Submission → Bool) (t : List Submission)
    → mem k (map (λ (s : Submission). s.id) (select q (select p t)))
      ≡ any (λ s. submission_key s == k && (p s && q s)) t
unfolding any select
mem-column k p q [] = refl
mem-column k p q (s ∷ t) = ground (arith, mem-column k p q t)

resumes_lem :
    (k now stale_after m : ℕ) (db : Db) (s : Submission)
    → HasKeys db
    → get_submission db k ≡ some s
    → mem k (resume_or_fail_stale_fetching_submissions now stale_after m db).0
      ≡ (is_silent now stale_after s && can_resume m s)
unfolding resume_or_fail_stale_fetching_submissions get_submission
resumes_lem k now stale_after m db s keys stored =
    mem-column k (is_silent now stale_after) (can_resume m) db.submissions
    ∙ (any-key submission_key (λ r. is_silent now stale_after r && can_resume m r) k db.submissions
          keys
        ∙ ap (found_and submission_key (λ r. is_silent now stale_after r && can_resume m r)) stored)

-- One operation counts the attempts up exactly if it resumes the run, and stays in the limit.
abbrev IsCounted : (k m : ℕ) → Op → Db → Submission → Type 0
IsCounted k m op db s =
    ((after op s).fetch_attempts ≡ s.fetch_attempts + one_if (resumes k op db))
    × (s.fetch_attempts ≤ m → (after op s).fetch_attempts ≤ m)

resume-IsCounted :
    (k now stale_after m : ℕ) (db : Db) (s : Submission)
    → HasKeys db
    → get_submission db k ≡ some s
    → IsCounted k m (Lifecycle.resume now stale_after m) db s
unfolding resumes reaches makes resume_or_fail to_resumed to_failed
resume-IsCounted k now stale_after m db s keys stored =
    rw (resumes_lem k now stale_after m db s keys stored) (ground arith, λ h. ground arith)

op-IsCounted :
    (k m : ℕ) (op : Op) (db : Db) (s : Submission)
    → HasKeys db
    → get_submission db k ≡ some s
    → s.id ≡ k
    → IsWithin k m op
    → IsCounted k m op db s
unfolding resumes reaches makes to_fetching to_fetched to_restored to_failed to_pending with_item
    without_item touched
op-IsCounted k m (Lifecycle.create b url i now) db s keys stored e within = (omega arith, λ h. h)
op-IsCounted k m (Lifecycle.begin i now) db s keys stored e within =
    (ground arith, λ h. ground arith)
op-IsCounted k m (Lifecycle.fetched i skipped now) db s keys stored e within =
    rw (e, within) (omega arith, λ h. h)
op-IsCounted k m (Lifecycle.restore i now) db s keys stored e within =
    (ground arith, λ h. ground arith)
op-IsCounted k m (Lifecycle.fail i code message now) db s keys stored e within =
    (ground arith, λ h. ground arith)
op-IsCounted k m (Lifecycle.retry i now) db s keys stored e within =
    (ground arith, λ h. ground arith)
op-IsCounted k m (Lifecycle.change i filename changes now) db s keys stored e within =
    (ground arith, λ h. ground arith)
op-IsCounted k m (Lifecycle.drop i filename now) db s keys stored e within =
    (ground arith, λ h. ground arith)
op-IsCounted k m (Lifecycle.claim i now stale_after) db s keys stored e within =
    (ground arith, λ h. ground arith)
op-IsCounted k m (Lifecycle.beat i now) db s keys stored e within =
    (ground arith, λ h. ground arith)
op-IsCounted k m (Lifecycle.resume now stale_after n) db s keys stored e within =
    rw within (resume-IsCounted k now stale_after m db s keys stored)
op-IsCounted k m (Lifecycle.requeue now pending_after) db s keys stored e within =
    (ground arith, λ h. ground arith)
op-IsCounted k m (Lifecycle.fail_stale now stale_after) db s keys stored e within =
    (ground arith, λ h. ground arith)
op-IsCounted k m (Lifecycle.delete i) db s keys stored e within = (omega arith, λ h. h)

id_of : (k : ℕ) (db : Db) (s : Submission) → get_submission db k ≡ some s → s.id ≡ k
unfolding get_submission
id_of k db s stored = find-key submission_key k db.submissions s stored

-- Where the submissions have distinct ids, between two completed fetches an interrupted submission is resumed at most `m` times: over any
-- operations whose sweeps have that limit and that neither complete its run nor delete it, its
-- attempts grow by exactly the number of times that it was handed back, and stay within `m`.
pub resume_count-bound :
    (k m : ℕ) (ops : List Op) (db : Db) (s : Submission)
    → HasKeys db
    → get_submission db k ≡ some s
    → s.fetch_attempts ≤ m
    → AreWithin k m ops
    → (t : Submission) × (get_submission (perform_all ops db) k ≡ some t)
      × (t.fetch_attempts ≡ s.fetch_attempts + resume_count k ops db)
      × (s.fetch_attempts + resume_count k ops db ≤ m)
unfolding resume_count perform_all
resume_count-bound k m [] db s keys stored bound within = (s, stored, omega arith, omega arith)
resume_count-bound k m (op ∷ ops) db s keys stored bound (now, later) =
    let (counted, limited) = op-IsCounted k m op db s keys stored (id_of k db s stored) now in
    let (t, found, total, limit) =
      resume_count-bound k m ops (perform op db) (after op s) (perform-HasKeys op db keys)
        (get_submission-perform op db k s (IsWithin-IsKeeping k m op now) stored) (limited bound)
        later in
    (t, found, omega (arith, total, counted), omega (arith, limit, counted))
