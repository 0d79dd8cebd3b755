-- ===== src/Onedrive/Fetch/Endings.antt =====
-- How a run ends.
use mathlib.Core.Path.{subst}
use marriage_be.Prelude.{
  ℕ, String, true, false, Option, none, some, List, [], ◌∷◌, ◌==◌, ◌≡◌, ◌⊎◌, refl, sym, ◌∙◌, arith,
  inl, inr, Bool-cases, string_eq, if◌then◌else◌,
}
use marriage_be.Status.{fetched, failed}
use marriage_be.Db.Rows.{Submission, Fields, Db}
use marriage_be.Db.Result.{Result, ok, err}
use marriage_be.Batches.Recompute.{recompute_batch_status}
use marriage_be.Batches.Repository.{get_batch}
use marriage_be.Onedrive.Repository.{
  get_submission, mark_fetched, mark_failed, to_fetched, to_failed,
}
use marriage_be.Onedrive.Repository.Sweeps.{claim_for_fetch, can_claim}
use marriage_be.Onedrive.Classification.{Classified, File, Route, ingest, skip, route}
use marriage_be.Onedrive.Ingest.Effects.{ingest_one_file-submissions}
use marriage_be.Onedrive.Lifecycle
use marriage_be.Onedrive.Lifecycle.{perform}
use marriage_be.Onedrive.Lifecycle.Keys.{HasKeys}
use marriage_be.Onedrive.Lifecycle.Rows.{after, get_submission-perform}
use marriage_be.Onedrive.Lifecycle.Exclusive.{claim_for_fetch_lem, id_of}
use marriage_be.Onedrive.Service.{stale_heartbeat}
use marriage_be.Onedrive.Service.Retries.{stored}
use marriage_be.Onedrive.Fetch.{
  World, run_onedrive_fetch, run_claimed, process_files, place_files, place_file, finish, end,
  place_and_end, mark_submission_failed_safe, store_title_safe, titled, after_download, name_of,
  Download, downloaded, fetch_error, crash,
}

-- The submission is stored.
abbrev pub IsStored : ℕ → Db → Type 0
IsStored k db = (s : Submission) × (get_submission db k ≡ some s)

-- The run of the submission is over, and its row says how.
abbrev pub IsEnded : ℕ → Db → Type 0
IsEnded k db =
    (t : Submission) × (get_submission db k ≡ some t)
    × ((t.status ≡ fetched) × (t.fetch_attempts ≡ 0) ⊎ (t.status ≡ failed))

pub same-IsStored :
    (k : ℕ) (db db' : Db) → db'.submissions ≡ db.submissions → IsStored k db → IsStored k db'
unfolding get_submission
same-IsStored k db db' e (s, h) = (s, rw e h)

failed-IsEnded :
    (k : ℕ) (code message : String) (now : ℕ) (db : Db)
    → IsStored k db
    → IsEnded k (mark_submission_failed_safe k code message now db)
unfolding mark_submission_failed_safe mark_failed to_failed
failed-IsEnded k code message now db (s, h) =
    let (db', done, found) = stored k (to_failed code message now) db s (λ r. refl) h in
    rw done (to_failed code message now s, found, inr refl)

place_file-submissions :
    (w : World) (b k : ℕ) (file : File) (r : Route) (db : Db)
    → (place_file w b k file r db).1.submissions ≡ db.submissions
unfolding place_file
place_file-submissions w b k file (skip status) db = refl
place_file-submissions w b k file (ingest t) db =
    ingest_one_file-submissions w.outside b k file t db

place_files-submissions :
    (w : World) (b k : ℕ) (files : List Classified) (db : Db)
    → (place_files w b k files db).1.submissions ≡ db.submissions
unfolding place_files
place_files-submissions w b k [] db = refl
place_files-submissions w b k ((file, c) ∷ files) db =
    place_files-submissions w b k files (place_file w b k file (route c) db).1
    ∙ place_file-submissions w b k file (route c) db

submissions-recomputed :
    (b now : ℕ) (db : Db) → (recompute_batch_status b now db).submissions ≡ db.submissions
unfolding recompute_batch_status
submissions-recomputed b now db = ground arith

pub recomputed-IsStored :
    (k b now : ℕ) (db : Db) (s : Submission)
    → get_submission db k ≡ some s
    → get_submission (recompute_batch_status b now db) k ≡ some s
unfolding get_submission
recomputed-IsStored k b now db s h = rw (submissions-recomputed b now db) h

finish-IsEnded :
    (w : World) (b k : ℕ) (skipped : List Fields) (db : Db)
    → IsStored k db
    → IsEnded k (end w k db (finish w b k skipped db))
unfolding mark_fetched to_fetched
finish-IsEnded w b k skipped db (s, h) =
    let (db', done, found) = stored k (to_fetched skipped w.ended_at) db s (λ r. refl) h in
    rw done (
      to_fetched skipped w.ended_at s,
      recomputed-IsStored k b w.ended_at db' (to_fetched skipped w.ended_at s) found,
      inl (refl, refl),
    )

place_and_end-IsEnded :
    (w : World) (s : Submission) (name : String) (duplicates : List Fields) (db : Db)
    → (r : Result (List Fields × List Classified)) → IsStored s.id db
    → IsEnded s.id (place_and_end w s name duplicates db r)
place_and_end-IsEnded w s name duplicates db (err e) h =
    failed-IsEnded s.id "INTERNAL_PROCESSING_ERROR"
      "The OneDrive submission encountered an internal processing error." w.ended_at db h
place_and_end-IsEnded w s name duplicates db (ok (unclassified, classified)) h =
    finish-IsEnded w s.batch_id s.id _ _
      (same-IsStored s.id db _ (place_files-submissions w s.batch_id s.id _ db) h)

after_download-IsEnded :
    (w : World) (s : Submission) (name : String) (d : Download) (db : Db)
    → IsStored s.id db
    → IsEnded s.id (after_download w s name d db)
unfolding process_files
after_download-IsEnded w s name (downloaded fs) db h = place_and_end-IsEnded w s name _ db _ h
after_download-IsEnded w s name (fetch_error message) db h =
    failed-IsEnded s.id "ONEDRIVE_FETCH_FAILED" message w.ended_at db h
after_download-IsEnded w s name crash db h =
    failed-IsEnded s.id "INTERNAL_PROCESSING_ERROR"
      "The OneDrive submission encountered an internal processing error." w.ended_at db h

titled-IsStored :
    (k : ℕ) (title : Option String) (now : ℕ) (db : Db)
    → IsStored k db
    → IsStored k (store_title_safe k title now db)
unfolding store_title_safe titled
titled-IsStored k none now db h = h
titled-IsStored k (some title) now db (s, h) = elim (Bool-cases (title == "")) [
  | inl empty ↦ rw empty (s, h)
  | inr given ↦
      let (db', done, found) = stored k (titled title now) db s (λ r. refl) h in
      rw (given, done) (titled title now s, found)
]

run_granted :
    (w : World) (k : ℕ) (db : Db) (s : Submission)
    → get_submission db k ≡ some s
    → (claim_for_fetch k w.claimed_at stale_heartbeat db).0 ≡ true
    → run_onedrive_fetch w k db
      ≡ run_claimed w s
          (name_of (get_batch db s.batch_id))
          (claim_for_fetch k w.claimed_at stale_heartbeat db).1
unfolding run_onedrive_fetch
run_granted w k db s h granted = rw (run_onedrive_fetch, h, granted) refl

run_refused :
    (w : World) (k : ℕ) (db : Db) (s : Submission)
    → get_submission db k ≡ some s
    → (claim_for_fetch k w.claimed_at stale_heartbeat db).0 ≡ false
    → run_onedrive_fetch w k db ≡ db
unfolding run_onedrive_fetch
run_refused w k db s h refused = rw (run_onedrive_fetch, h, refused) refl

claimed-IsStored :
    (k now : ℕ) (db : Db) (s : Submission)
    → get_submission db k ≡ some s
    → IsStored k (claim_for_fetch k now stale_heartbeat db).1
claimed-IsStored k now db s h =
    let op = Lifecycle.claim k now stale_heartbeat in
    (after op s, unfold perform in get_submission-perform op db k s tt h)

granted-IsEnded :
    (w : World) (k : ℕ) (db : Db) (s : Submission)
    → get_submission db k ≡ some s
    → (claim_for_fetch k w.claimed_at stale_heartbeat db).0 ≡ true
    → IsEnded k (run_onedrive_fetch w k db)
unfolding run_claimed
granted-IsEnded w k db s h granted =
    let e : s.id ≡ k = id_of k db s h in
    let db1 = (claim_for_fetch k w.claimed_at stale_heartbeat db).1 in
    let stored_still : IsStored s.id db1 =
      subst (λ (j : ℕ). IsStored j db1) (sym e) (claimed-IsStored k w.claimed_at db s h) in
    rw (run_granted w k db s h granted) (
      subst (λ (j : ℕ). IsEnded j (run_claimed w s (name_of (get_batch db s.batch_id)) db1)) e
        (after_download-IsEnded w s (name_of (get_batch db s.batch_id)) w.download _
          (titled-IsStored s.id w.title w.claimed_at db1 stored_still)))

-- Where the submissions have distinct ids, a run that is granted its claim comes to an end, whatever the download, the classifier, the
-- storage and the executor answer: the submission is FETCHED, with its attempts reset, or FAILED,
-- and never left FETCHING. A run that is refused, because another one is alive or the submission is
-- done, changes nothing.
pub run_onedrive_fetch-IsEnded :
    (w : World) (k : ℕ) (db : Db) (s : Submission)
    → HasKeys db
    → get_submission db k ≡ some s
    → (if can_claim w.claimed_at stale_heartbeat s
        then IsEnded k (run_onedrive_fetch w k db)
        else run_onedrive_fetch w k db ≡ db)
run_onedrive_fetch-IsEnded w k db s keys h =
    elim (Bool-cases (can_claim w.claimed_at stale_heartbeat s)) [
      | inr refused ↦ rw refused (
          run_refused w k db s h
            (claim_for_fetch_lem k w.claimed_at stale_heartbeat db s keys h ∙ refused))
      | inl granted ↦ rw granted (
          granted-IsEnded w k db s h
            (claim_for_fetch_lem k w.claimed_at stale_heartbeat db s keys h ∙ granted))
    ]
