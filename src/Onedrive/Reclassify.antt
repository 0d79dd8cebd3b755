-- ===== src/Onedrive/Reclassify.antt =====
-- onedrive/service.py: run_skipped_files_reclassify, which classifies the skipped files of a link
-- again. The preserved bytes of an entry and what the classifier answers are given.
pub mod Restored
use marriage_be.Prelude.{
  ℕ, String, Bool, true, false, Option, none, some, List, [], ◌∷◌, ◌++◌, get, put, is_some,
  string_eq, if◌then◌else◌,
}
use marriage_be.Prelude.Sort.{sort_by}
use marriage_be.Prelude.Lower.{text_leq}
use marriage_be.Db.Rows.{Submission, Fields, text, Db}
use marriage_be.Db.Result.{Result, ok, err, ◌>>=◌, foreign}
use marriage_be.Batches.Repository.{get_batch}
use marriage_be.Batches.Recompute.{recompute_batch_status}
use marriage_be.Onedrive.Repository.{get_submission, restore_fetched}
use marriage_be.Onedrive.Repository.Skipped.{
  items, has, get_skipped_file, update_skipped_file, remove_skipped_file,
}
use marriage_be.Onedrive.Classification.{
  File, Classification, Classified, Route, ingest, skip, route,
}
use marriage_be.Onedrive.Ingest.{Outside, ingest_one_file}
use marriage_be.Onedrive.Fetch.{skip_status, fallbacks, name_of}
use marriage_be.Onedrive.Fetch.Duplicates.{
  Known, fresh, already_ingested, duplicate, duplicate_of, remember,
}
use marriage_be.Onedrive.Service.{committed, filename_of, is_reclassifiable}

-- What the outside world answers to one run; a ClassifyError is `none`, and any
-- other exception of the classifier an error.
pub record Reclassify : Type 0 where
  pub outside : Outside
  pub bytes : Fields → Option File
  pub classify : File → Result (Option Classification)
  pub now : ℕ

-- `item["filename"]`, for the entries to classify again
abbrev with_entry : Fields → List (String × Fields) → Result (List (String × Fields))
with_entry item entries =
    if is_reclassifiable item
    then if is_some (get "filename" item)
      then ok (put (filename_of item) item entries)
      else err (foreign "KeyError")
    else ok entries

-- the entries by their file names
unfoldable entries_of : List Fields → List (String × Fields) → Result (List (String × Fields))
unfolding put get is_reclassifiable
entries_of [] entries = ok entries
entries_of (item ∷ rest) entries = with_entry item entries >>= entries_of rest

abbrev classified_as : File → Option Classification → List Classified
classified_as file none = []
classified_as file (some c) = (file, c) ∷ []

-- what a file with these bytes adds to the classified ones, and the database
abbrev sorted_again :
    Reclassify
    → (submission_id : ℕ) (filename : String) → File
    → Known
    → Db
    → Result (List Classified × Db)
sorted_again w submission_id filename file fresh db =
    w.classify file >>= λ verdict. ok (classified_as file verdict, db)
sorted_again w submission_id filename file already_ingested db =
    remove_skipped_file submission_id filename w.now db >>= λ r. ok ([], r.1)
sorted_again w submission_id filename file (duplicate of) db =
    update_skipped_file submission_id filename
      (("status", text "DUPLICATE") ∷ ("duplicate_of", text of) ∷ []) w.now db
    >>= λ r. ok ([], r.1)

abbrev then_rest : List Classified → Option (List Classified) × Db → Option (List Classified) × Db
then_rest new (none, db) = (none, db)
then_rest new (some rest, db) = (some (new ++ rest), db)

abbrev then_next :
    (next : Db → Option (List Classified) × Db)
    → Db
    → Result (List Classified × Db)
    → Option (List Classified) × Db
then_next next db (err e) = (none, db)
then_next next db (ok (new, db1)) = then_rest new (next db1)

-- one entry, with its bytes if they are still there, and then the next ones
abbrev read_entry :
    Reclassify
    → (submission_id : ℕ) (filename : String) (seen : List (String × String)) → Db
    → (next : List (String × String) → Db → Option (List Classified) × Db) → Option File
    → Option (List Classified) × Db
read_entry w submission_id filename seen db next none = next seen db
read_entry w submission_id filename seen db next (some file) =
    let known = duplicate_of w.outside.id_text submission_id db.documents seen file in
    then_next (next (remember file known seen)) db
      (sorted_again w submission_id filename file known db)

-- The loop over the entries; `none` if an exception ends it, after what was committed so far.
unfoldable classify_again :
    Reclassify
    → (submission_id : ℕ) → List (String × Fields)
    → (seen : List (String × String)) → Db
    → Option (List Classified) × Db
unfolding duplicate_of put
classify_again w submission_id [] seen db = (some [], db)
classify_again w submission_id ((filename, item) ∷ rest) seen db =
    read_entry w submission_id filename seen db (classify_again w submission_id rest) (w.bytes item)

-- the database after the commit, or as it was if the call raises
abbrev or_raised : Db → Result (Submission × Db) → Bool × Db
or_raised db (ok (s, db1)) = (true, db1)
or_raised db (err e) = (false, db)

abbrev with_status : Reclassify → Submission → File → (status : String) → Db → Bool × Db
with_status w s file status db =
    or_raised db (update_skipped_file s.id file.name (("status", text status) ∷ []) w.now db)

abbrev ingested_again : Reclassify → Submission → File → Result ℕ × Db → Bool × Db
ingested_again w s file (ok document_id, db) =
    or_raised db (remove_skipped_file s.id file.name w.now db)
ingested_again w s file (err e, db) = with_status w s file (skip_status e) db

abbrev place_again : Reclassify → Submission → File → Fields → Route → Db → Bool × Db
place_again w s file entry (skip status) db =
    if has "status" status entry then (true, db) else with_status w s file status db
place_again w s file entry (ingest t) db =
    ingested_again w s file (ingest_one_file w.outside s.batch_id s.id file t db)

abbrev place_if : Reclassify → Submission → Classified → Option Fields → Db → Bool × Db
place_if w s (file, c) none db = (true, db)
place_if w s (file, c) (some entry) db = place_again w s file entry (route c) db

abbrev place_next : (next : Db → Bool × Db) → Bool × Db → Bool × Db
place_next next (true, db) = next db
place_next next (false, db) = (false, db)

-- The second loop, and whether it came to its end.
unfoldable place_all : Reclassify → Submission → List Classified → Db → Bool × Db
unfolding ingest_one_file
place_all w s [] db = (true, db)
place_all w s ((file, c) ∷ files) db =
    place_next (place_all w s files)
      (place_if w s (file, c) (get_skipped_file db s.id file.name) db)

unfoldable restore_fetched_safe : (submission_id now : ℕ) → Db → Db
restore_fetched_safe submission_id now db = committed db (restore_fetched submission_id now db)

abbrev after_places : Reclassify → Submission → Bool × Db → Db
after_places w s (false, db) = restore_fetched_safe s.id w.now db
after_places w s (true, db) = elim (restore_fetched s.id w.now db) [
  | err e ↦ restore_fetched_safe s.id w.now db
  | ok (restored, db1) ↦ recompute_batch_status s.batch_id w.now db1
]

abbrev after_classify :
    Reclassify → Submission → (batch_name : String) → Option (List Classified) × Db → Db
after_classify w s batch_name (none, db) = restore_fetched_safe s.id w.now db
after_classify w s batch_name (some classified, db) =
    after_places w s (place_all w s (fallbacks classified batch_name) db)

-- the entries to classify again, `sorted` by their names
unfoldable sorted_entries : Submission → Result (List (String × Fields))
unfolding entries_of
sorted_entries s = entries_of (items s.skipped_files) [] >>= λ entries.
    ok (sort_by (λ (a b : String × Fields). text_leq a.0 b.0) entries)

abbrev classify_entries :
    Reclassify
    → (submission_id : ℕ) → Db
    → Result (List (String × Fields))
    → Option (List Classified) × Db
classify_entries w submission_id db (err e) = (none, db)
classify_entries w submission_id db (ok entries) = classify_again w submission_id entries [] db

unfoldable pub run_skipped_files_reclassify : Reclassify → (submission_id : ℕ) → Db → Db
unfolding sorted_entries classify_again place_all restore_fetched_safe
run_skipped_files_reclassify w submission_id db = elim (get_submission db submission_id) [
  | none ↦ db
  | some s ↦
      after_classify w s (name_of (get_batch db s.batch_id))
        (classify_entries w submission_id db (sorted_entries s))
]
