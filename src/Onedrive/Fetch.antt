-- ===== src/Onedrive/Fetch.antt =====
-- onedrive/service.py: run_onedrive_fetch, from the claim of a submission to its end. What the
-- `marriage-ocr` command, the disk and the storage answer is given. The heartbeats of the run, which
-- touch only `updated_at`, are the `beat` of Onedrive.Lifecycle.
pub mod Duplicates
pub mod Stacks
pub mod Endings
use Prim.Native.Char.{code}
use Prim.Native.String
use marriage_be.Prelude.{
  ℕ, zero, suc, String, Bool, true, false, ◌&&◌, ◌||◌, not, Option, none, some, List, [], ◌∷◌, ◌++◌,
  ◌==◌, get, nat_eq, string_eq, if◌then◌else◌,
}
use marriage_be.DocumentType.{DocumentType}
use marriage_be.Db.Rows.{Batch, Submission, Fields, text, Db}
use marriage_be.Db.Table.{update}
use marriage_be.Db.Result.{Error, Result, ok, err, ◌>>=◌, foreign, upload_validation_error}
use marriage_be.Jobs.Paths.{◌+s◌}
use marriage_be.Batches.Repository.{get_batch}
use marriage_be.Batches.Recompute.{recompute_batch_status}
use marriage_be.Onedrive.Repository.{get_submission, store_submission, mark_fetched, mark_failed}
use marriage_be.Onedrive.Repository.Sweeps.{claim_for_fetch}
use marriage_be.Onedrive.Classification.{
  File, Classification, Classified, Route, ingest, skip, route, apply_neighbor_fallback,
  apply_nikah_batch_fallback,
}
use marriage_be.Onedrive.Ingest.{Outside, ingest_one_file}
use marriage_be.Onedrive.Service.{stale_heartbeat, committed}
use marriage_be.Onedrive.Fetch.Duplicates.{sort_out}
use marriage_be.Onedrive.Fetch.Stacks.{Runner, Verdicts, classify_files}

-- What came of the download.
pub data Download : Type 0 where
  downloaded : List File → Download
  fetch_error : (message : String) → Download
  crash : Download

-- Everything that the outside world answers during one run.
pub record World : Type 0 where
  pub claimed_at : ℕ
  pub ended_at : ℕ
  pub title : Option String
  pub download : Download
  pub runner : Runner
  pub outside : Outside
  pub preserved : File → Bool

-- the entry of a file that was not ingested, with its place if its bytes could be kept
unfoldable skipped_entry : World → (submission_id : ℕ) → File → (status : String) → Fields
skipped_entry w submission_id file status =
    ("filename", text file.name)
    ∷ ("status", text status)
    ∷ (if w.preserved file
        then (
          "storage_key",
          text ("onedrive/" +s w.outside.id_text submission_id +s "/skipped/" +s file.name),
        )
          ∷ []
        else [])

abbrev verdict_of : Option (Option Classification) → Result (Option Classification)
verdict_of none = err (foreign "KeyError")
verdict_of (some v) = ok v

abbrev add_verdict :
    World
    → (submission_id : ℕ) → File
    → Option Classification
    → List Fields × List Classified
    → List Fields × List Classified
add_verdict w submission_id file none (skipped, classified) =
    (skipped_entry w submission_id file "CLASSIFY_FAILED" ∷ skipped, classified)
add_verdict w submission_id file (some c) (skipped, classified) = (skipped, (file, c) ∷ classified)

-- the files that could not be classified, and those that were
unfoldable read_verdicts :
    World → (submission_id : ℕ) → Verdicts → List File → Result (List Fields × List Classified)
unfolding get skipped_entry
read_verdicts w submission_id results [] = ok ([], [])
read_verdicts w submission_id results (file ∷ files) = do
  verdict ← verdict_of (get file.path results)
  rest ← read_verdicts w submission_id results files
  ok (add_verdict w submission_id file verdict rest)

-- the status with which a file whose ingestion raised is skipped
abbrev pub skip_status : Error → String
skip_status (upload_validation_error http_status code) = code
skip_status _ = "INGEST_FAILED"

abbrev skipped_if : World → (submission_id : ℕ) → File → Result ℕ → List Fields
skipped_if w submission_id file (ok document_id) = []
skipped_if w submission_id file (err e) = skipped_entry w submission_id file (skip_status e) ∷ []

-- one classified file: its entry if it is skipped, and the database
unfoldable pub place_file :
    World → (batch_id submission_id : ℕ) → File → Route → Db → List Fields × Db
unfolding skipped_entry
place_file w batch_id submission_id file (skip status) db =
    (skipped_entry w submission_id file status ∷ [], db)
place_file w batch_id submission_id file (ingest t) db =
    let (answer, db1) = ingest_one_file w.outside batch_id submission_id file t db in
    (skipped_if w submission_id file answer, db1)

unfoldable pub place_files :
    World → (batch_id submission_id : ℕ) → List Classified → Db → List Fields × Db
unfolding place_file
place_files w batch_id submission_id [] db = ([], db)
place_files w batch_id submission_id ((file, c) ∷ classified) db =
    let (skipped, db1) = place_file w batch_id submission_id file (route c) db in
    let (rest, db2) = place_files w batch_id submission_id classified db1 in (skipped ++ rest, db2)

abbrev pub name_of : Option Batch → String
name_of none = ""
name_of (some b) = b.name

abbrev pub fallbacks : List Classified → (batch_name : String) → List Classified
fallbacks classified batch_name =
    apply_nikah_batch_fallback (apply_neighbor_fallback classified) batch_name

abbrev pub finish :
    World → (batch_id submission_id : ℕ) (skipped : List Fields) → Db → Result (Submission × Db)
finish w batch_id submission_id skipped db =
    mark_fetched submission_id skipped w.ended_at db >>= λ r.
    ok (r.0, recompute_batch_status batch_id w.ended_at r.1)

-- the failure is recorded in a session of its own, which swallows every exception
unfoldable pub mark_submission_failed_safe :
    (submission_id : ℕ) (error_code message : String) (now : ℕ) → Db → Db
mark_submission_failed_safe submission_id error_code message now db =
    committed db (mark_failed submission_id error_code message now db)

abbrev pub internal_error : World → (submission_id : ℕ) → Db → Db
internal_error w submission_id db =
    mark_submission_failed_safe submission_id "INTERNAL_PROCESSING_ERROR"
      "The OneDrive submission encountered an internal processing error." w.ended_at db

abbrev pub end : World → (submission_id : ℕ) → Db → Result (Submission × Db) → Db
end w submission_id db (err e) = internal_error w submission_id db
end w submission_id db (ok (s, db')) = db'

abbrev pub place_and_end :
    World
    → Submission
    → (batch_name : String) (duplicates : List Fields) → Db
    → Result (List Fields × List Classified)
    → Db
place_and_end w s batch_name duplicates db (err e) = internal_error w s.id db
place_and_end w s batch_name duplicates db (ok (unclassified, classified)) =
    let (skipped, db1) = place_files w s.batch_id s.id (fallbacks classified batch_name) db in
    end w s.id db1 (finish w s.batch_id s.id (duplicates ++ (unclassified ++ skipped)) db1)

-- the run after the download
unfoldable pub process_files : World → Submission → (batch_name : String) → List File → Db → Db
unfolding place_files read_verdicts mark_submission_failed_safe
process_files w s batch_name files db =
    let (duplicates, to_classify) = sort_out w.outside.id_text s.id db.documents files [] in
    place_and_end w s batch_name duplicates db
      (classify_files w.runner to_classify >>= λ results. read_verdicts w s.id results to_classify)

-- `title[:n]`
shorten : ℕ → String → String
shorten zero title = String.[]
shorten (suc n) String.[] = String.[]
shorten (suc n) (String.◌∷◌ c title) = String.◌∷◌ c (shorten n title)

unfoldable pub titled : (title : String) (now : ℕ) → Submission → Submission
unfolding shorten
titled title now s = record s { title = some (shorten 512 title); updated_at = now }

unfoldable pub store_title_safe : (submission_id : ℕ) → Option String → (now : ℕ) → Db → Db
unfolding titled
store_title_safe submission_id none now db = db
store_title_safe submission_id (some title) now db =
    if title == "" then db else committed db (store_submission submission_id (titled title now) db)

abbrev pub after_download : World → Submission → (batch_name : String) → Download → Db → Db
after_download w s batch_name (downloaded fs) db = process_files w s batch_name fs db
after_download w s batch_name (fetch_error message) db =
    mark_submission_failed_safe s.id "ONEDRIVE_FETCH_FAILED" message w.ended_at db
after_download w s batch_name crash db = internal_error w s.id db

unfoldable pub run_claimed : World → Submission → (batch_name : String) → Db → Db
unfolding process_files store_title_safe
run_claimed w s batch_name db =
    after_download w s batch_name w.download (store_title_safe s.id w.title w.claimed_at db)

unfoldable pub run_onedrive_fetch : World → (submission_id : ℕ) → Db → Db
unfolding run_claimed
run_onedrive_fetch w submission_id db = elim (get_submission db submission_id) [
  | none ↦ db
  | some s ↦
      let batch_name = name_of (get_batch db s.batch_id) in
      let (claimed, db1) = claim_for_fetch submission_id w.claimed_at stale_heartbeat db in
      if claimed then run_claimed w s batch_name db1 else db
]
