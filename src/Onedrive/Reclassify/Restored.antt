-- ===== src/Onedrive/Reclassify/Restored.antt =====
-- How a reclassification ends.
use mathlib.Core.Path.{subst}
use marriage_be.Prelude.{
  ℕ, String, Bool, true, false, Option, none, some, List, [], ◌∷◌, ◌≡◌, refl, sym, inl, inr,
  Bool-cases,
}
use marriage_be.Status.{fetched}
use marriage_be.Db.Rows.{Submission, Fields, text, Db}
use marriage_be.Db.Result.{Result, ok, err, ◌>>=◌}
use marriage_be.Batches.Repository.{get_batch}
use marriage_be.Onedrive.Repository.{get_submission, to_restored, restore_fetched}
use marriage_be.Onedrive.Repository.Skipped.{
  has, get_skipped_file, with_item, update_skipped_file, without_item, remove_skipped_file,
}
use marriage_be.Onedrive.Classification.{
  File, Classification, Classified, Route, ingest, skip, route,
}
use marriage_be.Onedrive.Ingest.{ingest_one_file}
use marriage_be.Onedrive.Ingest.Effects.{ingest_one_file-submissions}
use marriage_be.Onedrive.Lifecycle.Exclusive.{id_of}
use marriage_be.Onedrive.Fetch.{skip_status, fallbacks, name_of}
use marriage_be.Onedrive.Fetch.Duplicates.{Known, fresh, already_ingested, duplicate, duplicate_of}
use marriage_be.Onedrive.Fetch.Endings.{IsStored, same-IsStored, recomputed-IsStored}
use marriage_be.Onedrive.Service.Retries.{stored}
use marriage_be.Onedrive.Reclassify.{
  Reclassify, classified_as, classify_entries, sorted_again, then_rest, then_next, read_entry,
  classify_again, or_raised, ingested_again, place_again, place_if, place_next, place_all,
  restore_fetched_safe, after_places, after_classify, sorted_entries, run_skipped_files_reclassify,
}

-- The submission is FETCHED.
abbrev pub IsRestored : ℕ → Db → Type 0
IsRestored k db = (t : Submission) × (get_submission db k ≡ some t) × (t.status ≡ fetched)

update-IsStored :
    (k : ℕ) (filename : String) (changes : Fields) (now : ℕ) (db : Db)
    → IsStored k db
    → IsStored k (or_raised db (update_skipped_file k filename changes now db)).1
unfolding update_skipped_file with_item
update-IsStored k filename changes now db (s, h) =
    let (db', done, found) = stored k (with_item filename changes now) db s (λ r. refl) h in
    rw done (with_item filename changes now s, found)

remove-IsStored :
    (k : ℕ) (filename : String) (now : ℕ) (db : Db)
    → IsStored k db
    → IsStored k (or_raised db (remove_skipped_file k filename now db)).1
unfolding remove_skipped_file without_item
remove-IsStored k filename now db (s, h) =
    let (db', done, found) = stored k (without_item filename now) db s (λ r. refl) h in
    rw done (without_item filename now s, found)

-- The submission is stored where the step succeeds.
abbrev StaysStored : ℕ → Result (List Classified × Db) → Type 0
StaysStored k (err e) = Unit {0}
StaysStored k (ok (new, db)) = IsStored k db

checked-StaysStored :
    (k : ℕ) (file : File) (db : Db) (verdict : Result (Option Classification))
    → IsStored k db
    → StaysStored k (verdict >>= λ v. ok (classified_as file v, db))
checked-StaysStored k file db (err e) h = tt
checked-StaysStored k file db (ok v) h = h

sorted_again-StaysStored :
    (w : Reclassify) (k : ℕ) (filename : String) (file : File) (known : Known) (db : Db)
    → IsStored k db
    → StaysStored k (sorted_again w k filename file known db)
unfolding update_skipped_file with_item remove_skipped_file without_item
sorted_again-StaysStored w k filename file fresh db h =
    checked-StaysStored k file db (w.classify file) h
sorted_again-StaysStored w k filename file already_ingested db (s, h) =
    let (db', done, found) = stored k (without_item filename w.now) db s (λ r. refl) h in
    rw done (without_item filename w.now s, found)
sorted_again-StaysStored w k filename file (duplicate of) db (s, h) =
    let changes = ("status", text "DUPLICATE") ∷ ("duplicate_of", text of) ∷ [] in
    let (db', done, found) = stored k (with_item filename changes w.now) db s (λ r. refl) h in
    rw done (with_item filename changes w.now s, found)

then_rest-IsStored :
    (k : ℕ) (new : List Classified) (r : Option (List Classified) × Db)
    → IsStored k r.1
    → IsStored k (then_rest new r).1
then_rest-IsStored k new (none, db) h = h
then_rest-IsStored k new (some rest, db) h = h

then_next-IsStored :
    (k : ℕ) (next : Db → Option (List Classified) × Db) (db : Db)
    (r : Result (List Classified × Db))
    → ((d : Db) → IsStored k d → IsStored k (next d).1)
    → IsStored k db
    → StaysStored k r
    → IsStored k (then_next next db r).1
then_next-IsStored k next db (err e) keeps h step = h
then_next-IsStored k next db (ok (new, db1)) keeps h step =
    then_rest-IsStored k new (next db1) (keeps db1 step)

read_entry-IsStored :
    (w : Reclassify) (k : ℕ) (filename : String) (seen : List (String × String)) (db : Db)
    (next : List (String × String) → Db → Option (List Classified) × Db) (bytes : Option File)
    → ((seen' : List (String × String)) (d : Db) → IsStored k d → IsStored k (next seen' d).1)
    → IsStored k db
    → IsStored k (read_entry w k filename seen db next bytes).1
read_entry-IsStored w k filename seen db next none keeps h = keeps seen db h
read_entry-IsStored w k filename seen db next (some file) keeps h =
    then_next-IsStored k _ db _ (keeps _) h (
      sorted_again-StaysStored w k filename file
        (duplicate_of w.outside.id_text k db.documents seen file) db h)

classify_again-IsStored :
    (w : Reclassify) (k : ℕ) (entries : List (String × Fields)) (seen : List (String × String))
    (db : Db)
    → IsStored k db
    → IsStored k (classify_again w k entries seen db).1
unfolding classify_again
classify_again-IsStored w k [] seen db h = h
classify_again-IsStored w k ((filename, item) ∷ rest) seen db h =
    read_entry-IsStored w k filename seen db (classify_again w k rest) (w.bytes item)
      (classify_again-IsStored w k rest) h

classify_entries-IsStored :
    (w : Reclassify) (k : ℕ) (db : Db) (entries : Result (List (String × Fields)))
    → IsStored k db
    → IsStored k (classify_entries w k db entries).1
classify_entries-IsStored w k db (err e) h = h
classify_entries-IsStored w k db (ok entries) h = classify_again-IsStored w k entries [] db h

ingested_again-IsStored :
    (w : Reclassify) (s : Submission) (file : File) (r : Result ℕ × Db)
    → IsStored s.id r.1
    → IsStored s.id (ingested_again w s file r).1
ingested_again-IsStored w s file (ok document_id, db) h = remove-IsStored s.id file.name w.now db h
ingested_again-IsStored w s file (err e, db) h =
    update-IsStored s.id file.name (("status", text (skip_status e)) ∷ []) w.now db h

place_again-IsStored :
    (w : Reclassify) (s : Submission) (file : File) (entry : Fields) (r : Route) (db : Db)
    → IsStored s.id db
    → IsStored s.id (place_again w s file entry r db).1
place_again-IsStored w s file entry (skip status) db h =
    elim (Bool-cases (has "status" status entry)) [
      | inl same ↦ rw same h
      | inr other ↦
          rw other (update-IsStored s.id file.name (("status", text status) ∷ []) w.now db h)
    ]
place_again-IsStored w s file entry (ingest t) db h =
    ingested_again-IsStored w s file (ingest_one_file w.outside s.batch_id s.id file t db)
      (same-IsStored s.id db _ (ingest_one_file-submissions w.outside s.batch_id s.id file t db) h)

place_if-IsStored :
    (w : Reclassify) (s : Submission) (f : Classified) (entry : Option Fields) (db : Db)
    → IsStored s.id db
    → IsStored s.id (place_if w s f entry db).1
place_if-IsStored w s (file, c) none db h = h
place_if-IsStored w s (file, c) (some entry) db h =
    place_again-IsStored w s file entry (route c) db h

place_next-IsStored :
    (k : ℕ) (next : Db → Bool × Db) (r : Bool × Db)
    → ((d : Db) → IsStored k d → IsStored k (next d).1)
    → IsStored k r.1
    → IsStored k (place_next next r).1
place_next-IsStored k next (true, db) keeps h = keeps db h
place_next-IsStored k next (false, db) keeps h = h

place_all-IsStored :
    (w : Reclassify) (s : Submission) (files : List Classified) (db : Db)
    → IsStored s.id db
    → IsStored s.id (place_all w s files db).1
unfolding place_all
place_all-IsStored w s [] db h = h
place_all-IsStored w s ((file, c) ∷ files) db h =
    place_next-IsStored s.id (place_all w s files) _ (place_all-IsStored w s files)
      (place_if-IsStored w s (file, c) (get_skipped_file db s.id file.name) db h)

restored : (k now : ℕ) (db : Db) → IsStored k db → IsRestored k (restore_fetched_safe k now db)
unfolding restore_fetched_safe restore_fetched to_restored
restored k now db (s, h) =
    let (db', done, found) = stored k (to_restored now) db s (λ r. refl) h in
    rw done (to_restored now s, found, refl)

after_places-IsRestored :
    (w : Reclassify) (s : Submission) (r : Bool × Db)
    → IsStored s.id r.1
    → IsRestored s.id (after_places w s r)
unfolding restore_fetched to_restored
after_places-IsRestored w s (false, db) h = restored s.id w.now db h
after_places-IsRestored w s (true, db) (t, h) =
    let (db', done, found) = stored s.id (to_restored w.now) db t (λ r. refl) h in
    rw (after_places, done)
      (
        to_restored w.now t,
        recomputed-IsStored s.id s.batch_id w.now db' (to_restored w.now t) found,
        refl,
      )

after_classify-IsRestored :
    (w : Reclassify) (s : Submission) (name : String) (r : Option (List Classified) × Db)
    → IsStored s.id r.1
    → IsRestored s.id (after_classify w s name r)
after_classify-IsRestored w s name (none, db) h = restored s.id w.now db h
after_classify-IsRestored w s name (some classified, db) h =
    after_places-IsRestored w s _ (place_all-IsStored w s (fallbacks classified name) db h)

-- A reclassification leaves its submission FETCHED, whatever the disk, the classifier, the storage
-- and the executor answer and wherever it raises.
pub run_skipped_files_reclassify-IsRestored :
    (w : Reclassify) (k : ℕ) (db : Db) (s : Submission)
    → get_submission db k ≡ some s
    → IsRestored k (run_skipped_files_reclassify w k db)
unfolding run_skipped_files_reclassify
run_skipped_files_reclassify-IsRestored w k db s h =
    let e : s.id ≡ k = id_of k db s h in
    rw (run_skipped_files_reclassify, h)
      (subst
        (λ (j : ℕ). IsRestored j (
          after_classify w s (name_of (get_batch db s.batch_id))
            (classify_entries w k db (sorted_entries s))))
        e
        (after_classify-IsRestored w s (name_of (get_batch db s.batch_id)) _ (
          subst (λ (j : ℕ). IsStored j (classify_entries w k db (sorted_entries s)).1) (sym e)
            (classify_entries-IsStored w k db (sorted_entries s) (s, h)))))
