-- ===== src/Onedrive/Fetch/Duplicates.antt =====
-- onedrive/service.py: files whose bytes are known are not classified again.
use marriage_be.Prelude.{
  ℕ, String, Option, none, some, List, [], ◌∷◌, get, put, refers, string_eq, if◌then◌else◌,
}
use marriage_be.Db.Rows.{Document, Fields, text}
use marriage_be.Jobs.Paths.{◌+s◌}
use marriage_be.Batches.Repository.{find_document_by_sha256}
use marriage_be.Onedrive.Classification.{File}

-- What a file's bytes are: new, already ingested by this submission, or those of something else.
pub data Known : Type 0 where
  fresh already_ingested : Known
  duplicate : (of : String) → Known

abbrev seen_before : Option String → Known
seen_before none = fresh
seen_before (some name) = duplicate ("file:" +s name)

abbrev known_document : (id_text : ℕ → String) (submission_id : ℕ) → ℕ × Option ℕ → Known
known_document id_text submission_id (document_id, owner) =
    if refers owner submission_id
    then already_ingested
    else duplicate ("document:" +s id_text document_id)

unfoldable pub duplicate_of :
    (id_text : ℕ → String) (submission_id : ℕ)
    → List Document
    → (seen : List (String × String)) → File
    → Known
unfolding get find_document_by_sha256
duplicate_of id_text submission_id documents seen file =
    elim (find_document_by_sha256 documents file.digest) [
      | some existing ↦ known_document id_text submission_id existing
      | none ↦ seen_before (get file.digest seen)
    ]

abbrev sorted_in : File → Known → List Fields × List File → List Fields × List File
sorted_in file fresh (duplicates, to_classify) = (duplicates, file ∷ to_classify)
sorted_in file already_ingested rest = rest
sorted_in file (duplicate of) (duplicates, to_classify) = (
  (("filename", text file.name) ∷ ("status", text "DUPLICATE") ∷ ("duplicate_of", text of) ∷ [])
      ∷ duplicates,
  to_classify,
)

abbrev pub remember : File → Known → List (String × String) → List (String × String)
remember file fresh seen = put file.digest file.name seen
remember file _ seen = seen

-- The loop over the files: the entries of the duplicates, and the files to classify.
unfoldable pub sort_out :
    (id_text : ℕ → String) (submission_id : ℕ)
    → List Document
    → List File
    → (seen : List (String × String)) → List Fields × List File
unfolding duplicate_of put
sort_out id_text submission_id documents [] seen = ([], [])
sort_out id_text submission_id documents (file ∷ files) seen =
    let known = duplicate_of id_text submission_id documents seen file in
    sorted_in file known (sort_out id_text submission_id documents files (remember file known seen))
