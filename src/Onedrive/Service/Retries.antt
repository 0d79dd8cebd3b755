-- ===== src/Onedrive/Service/Retries.antt =====
-- onedrive/service.py, retry_submission: the row that a retry leaves.
use mathlib.Core.Option
use marriage_be.Prelude.{
  ℕ, nat_beq_iff, String, Bool, true, false, none, some, sym, Bool-cases, inl, inr, ◌==◌, ◌≡◌, refl,
  ◌∙◌, ap, any, nat_eq, if◌then◌else◌,
}
use marriage_be.Status.{pending, fetching, fetched, failed, submission_status_eq}
use marriage_be.Db.Rows.{Submission, Db}
use marriage_be.Db.Table.{update}
use marriage_be.Db.Table.Laws.{find-update_self, find-update_ne}
use marriage_be.Db.Result.{ok, err, api_error}
use marriage_be.Onedrive.Repository.{
  submission_key, get_submission, store_submission, mark_fetching, restore_fetched, mark_failed,
  mark_pending_for_retry, to_pending, to_failed, to_fetching, to_restored,
}
use marriage_be.Onedrive.Repository.Skipped.{items}
use marriage_be.Onedrive.Service.{retry_submission, reclassify_skipped_files, is_reclassifiable}

-- A store of a stored submission returns it changed, and a later lookup finds it so.
pub stored :
    (k : ℕ) (f : Submission → Submission) (db : Db) (s : Submission)
    → ((r : Submission) → (f r).id ≡ r.id)
    → get_submission db k ≡ some s
    → (db' : Db) × (store_submission k f db ≡ ok (f s, db')) × (get_submission db' k ≡ some (f s))
unfolding store_submission get_submission
stored k f db s keeps h = (
  record db { submissions = update submission_key k f db.submissions },
  rw h refl,
  find-update_self submission_key f keeps k db.submissions ∙ ap (Option.map f) h,
)

retry_allowed :
    (k now : ℕ) (db : Db) (s : Submission)
    → get_submission db k ≡ some s
    → s.status ≡ failed
    → mark_pending_for_retry k now db ≡ store_submission k (to_pending now) db
unfolding mark_pending_for_retry
retry_allowed k now db s h is_failed = rw (h, is_failed) refl

abbrev pub not_resubmitted : String
not_resubmitted = "The OneDrive submission could not be resubmitted for background processing."

-- the database with the row of one submission changed
abbrev put_row : ℕ → (Submission → Submission) → Db → Db
put_row k f db = record db { submissions = update submission_key k f db.submissions }

module _ (k : ℕ) (f : Submission → Submission) (keeps : (r : Submission) → (f r).id ≡ r.id)
    (db : Db) where
  store_submission-put_row :
      (s : Submission)
      → get_submission db k ≡ some s
      → store_submission k f db ≡ ok (f s, put_row k f db)
  unfolding store_submission get_submission
  store_submission-put_row s h = rw h refl

  get_submission-put_row :
      (s : Submission)
      → get_submission db k ≡ some s
      → get_submission (put_row k f db) k ≡ some (f s)
  unfolding get_submission
  get_submission-put_row s h =
      find-update_self submission_key f keeps k db.submissions ∙ ap (Option.map f) h

  get_submission-put_row_other :
      (i : ℕ) → (k == i) ≡ false → get_submission (put_row k f db) i ≡ get_submission db i
  unfolding get_submission
  get_submission-put_row_other i other =
      find-update_ne submission_key f keeps k i db.submissions other

-- The row of a submission that waits for its run, and of one that could not be handed to it: no
-- other column differs from the row before.
abbrev pub waiting_row : (now : ℕ) → Submission → Submission
waiting_row now s = record s {
  status = pending;
  error_code = none;
  error_message = none;
  fetched_at = none;
  updated_at = now;
}

abbrev pub refused_row : (now : ℕ) → Submission → Submission
refused_row now s = record s {
  status = failed;
  error_code = some "INTERNAL_PROCESSING_ERROR";
  error_message = some not_resubmitted;
  fetched_at = some now;
  updated_at = now;
}

-- What a retry of the failed submission `s` answers and leaves in the database, if the executor
-- takes it and if not, and what a further retry at any later time does.
abbrev pub IsRetried : (accepted : Bool) (k now : ℕ) → Db → Submission → Type 0
IsRetried true k now db s =
    let (answer, db') = retry_submission k true now db in
    (answer ≡ ok (waiting_row now s))
    × ((i : ℕ)
        → get_submission db' i ≡ (if k == i then some (waiting_row now s) else get_submission db i))
    × ((later : ℕ) (accepted : Bool)
        → retry_submission k accepted later db'
          ≡ (err (api_error 409 "SUBMISSION_NOT_FAILED"), db'))
IsRetried false k now db s =
    let (answer, db') = retry_submission k false now db in
    (answer ≡ err (api_error 500 "INTERNAL_ERROR"))
    × ((i : ℕ)
        → get_submission db' i ≡ (if k == i then some (refused_row now s) else get_submission db i))
    × ((later : ℕ) → (retry_submission k true later db').0 ≡ ok (waiting_row later s))

accepted_run :
    (k now : ℕ) (db : Db) (s : Submission)
    → get_submission db k ≡ some s
    → s.status ≡ failed
    → retry_submission k true now db ≡ (ok (waiting_row now s), put_row k (to_pending now) db)
unfolding to_pending retry_submission
accepted_run k now db s h is_failed =
    rw
      (
        retry_submission,
        h,
        is_failed,
        retry_allowed k now db s h is_failed,
        store_submission-put_row k (to_pending now) (λ r. refl) db s h,
      )
      refl

refused_db : (k now : ℕ) → Db → Db
refused_db k now db =
    put_row k (to_failed "INTERNAL_PROCESSING_ERROR" not_resubmitted now)
      (put_row k (to_pending now) db)

refused_run :
    (k now : ℕ) (db : Db) (s : Submission)
    → get_submission db k ≡ some s
    → s.status ≡ failed
    → retry_submission k false now db ≡ (err (api_error 500 "INTERNAL_ERROR"), refused_db k now db)
unfolding to_pending to_failed retry_submission mark_failed refused_db
refused_run k now db s h is_failed =
    rw
      (
        retry_submission,
        h,
        is_failed,
        retry_allowed k now db s h is_failed,
        store_submission-put_row k (to_pending now) (λ r. refl) db s h,
        mark_failed,
        store_submission-put_row k (to_failed "INTERNAL_PROCESSING_ERROR" not_resubmitted now)
            (λ r. refl) (put_row k (to_pending now) db) (to_pending now s)
            (get_submission-put_row k (to_pending now) (λ r. refl) db s h),
      )
      refl

get_submission-refused_db :
    (k now : ℕ) (db : Db) (s : Submission)
    → get_submission db k ≡ some s
    → get_submission (refused_db k now db) k ≡ some (refused_row now s)
unfolding refused_db to_pending to_failed
get_submission-refused_db k now db s h =
    get_submission-put_row k (to_failed "INTERNAL_PROCESSING_ERROR" not_resubmitted now) (λ r. refl)
      (put_row k (to_pending now) db) (to_pending now s)
      (get_submission-put_row k (to_pending now) (λ r. refl) db s h)

get_submission-refused_db_other :
    (k now : ℕ) (db : Db) (i : ℕ)
    → (k == i) ≡ false
    → get_submission (refused_db k now db) i ≡ get_submission db i
unfolding refused_db to_pending to_failed
get_submission-refused_db_other k now db i other =
    get_submission-put_row_other k _ (λ r. refl) (put_row k (to_pending now) db) i other
    ∙ get_submission-put_row_other k (to_pending now) (λ r. refl) db i other

looked_up :
    (k : ℕ) (db db' : Db) (s : Submission)
    → get_submission db' k ≡ some s
    → ((i : ℕ) → (k == i) ≡ false → get_submission db' i ≡ get_submission db i)
    → (i : ℕ) → get_submission db' i ≡ (if k == i then some s else get_submission db i)
looked_up k db db' s found others i = elim (Bool-cases (k == i)) [
  | inl same ↦ rw same (ap (get_submission db') (sym ((nat_beq_iff k i).0 same)) ∙ found)
  | inr other ↦ rw other (others i other)
]

not_failed :
    (k later : ℕ) (accepted : Bool) (db : Db) (s : Submission)
    → get_submission db k ≡ some s
    → s.status ≡ pending
    → retry_submission k accepted later db ≡ (err (api_error 409 "SUBMISSION_NOT_FAILED"), db)
unfolding retry_submission
not_failed k later accepted db s h waits = rw (retry_submission, h, waits) refl

-- A retry of a stored, failed submission. If the executor takes it, the submission is returned and
-- stored PENDING with its error and its fetch time cleared, and a further retry is refused with 409
-- and changes nothing. Otherwise a 500 is raised and the submission is FAILED with the code and the
-- message that say so, and a further retry that the executor takes makes it PENDING. No other column
-- of it differs, and no other submission.
pub retry_submission_lem :
    (k now : ℕ) (accepted : Bool) (db : Db) (s : Submission)
    → get_submission db k ≡ some s
    → s.status ≡ failed
    → IsRetried accepted k now db s
unfolding to_pending
retry_submission_lem k now true db s h is_failed =
    let found : get_submission (put_row k (to_pending now) db) k ≡ some (waiting_row now s) =
      get_submission-put_row k (to_pending now) (λ r. refl) db s h in
    rw (accepted_run k now db s h is_failed) (
      refl,
      looked_up k db _ (waiting_row now s) found
          (get_submission-put_row_other k (to_pending now) (λ r. refl) db),
      λ later accepted. not_failed k later accepted _ (waiting_row now s) found refl,
    )
retry_submission_lem k now false db s h is_failed =
    let found = get_submission-refused_db k now db s h in
    rw (refused_run k now db s h is_failed) (
      refl,
      looked_up k db _ (refused_row now s) found (get_submission-refused_db_other k now db),
      λ later. rw (accepted_run k later (refused_db k now db) (refused_row now s) found refl) refl,
    )

-- A reclassification of a fetched submission that has a skipped file for it: if the executor takes
-- it, the submission is FETCHING; otherwise a 500 is raised and the submission is FETCHED again
-- with the skipped files that it had. In either case only its status and the time of its last
-- change are different.
reclassify_skipped_files_lem :
    (k now : ℕ) (accepted : Bool) (db : Db) (s : Submission)
    → get_submission db k ≡ some s
    → s.status ≡ fetched
    → any is_reclassifiable (items s.skipped_files) ≡ true
    → (db' : Db) × (reclassify_skipped_files k accepted now db ≡ (
      (if accepted then ok (to_fetching now s) else err (api_error 500 "INTERNAL_ERROR")),
      db',
    ))
      × (get_submission db' k
          ≡ some (record s { status = if accepted then fetching else fetched; updated_at = now }))
unfolding to_fetching to_restored reclassify_skipped_files stored mark_fetching restore_fetched
reclassify_skipped_files_lem k now true db s h is_fetched wanted =
    let (db1, done, found) = stored k (to_fetching now) db s (λ r. refl) h in
    (db1, rw (reclassify_skipped_files, h, is_fetched, wanted, mark_fetching, done) refl, found)
reclassify_skipped_files_lem k now false db s h is_fetched wanted =
    let (db1, done, found) = stored k (to_fetching now) db s (λ r. refl) h in
    let (db2, restored, found2) =
      stored k (to_restored now) db1 (to_fetching now s) (λ r. refl) found in
    (
      db2,
      rw
          (
            reclassify_skipped_files, h, is_fetched, wanted, mark_fetching, done, restore_fetched,
            restored,
          )
          refl,
      found2,
    )
