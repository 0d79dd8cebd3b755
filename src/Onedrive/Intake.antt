-- ===== src/Onedrive/Intake.antt =====
-- onedrive/local_intake.py and the checks of storage/local.py: a downloaded file is validated
-- before it is stored. `filetype.guess` is given by the MIME type that it reports.
use marriage_be.Prelude.{
  ℕ, String, Bool, ◌&&◌, ◌||◌, Option, none, some, List, [], ◌∷◌, ◌==◌, get, ltb, nat_eq, string_eq,
  if◌then◌else◌,
}
use marriage_be.Prelude.Lower.{starts_with}
use marriage_be.Db.Result.{Result, ok, err, ◌>>=◌, upload_validation_error}
use marriage_be.Jobs.Paths.{◌+s◌}
use marriage_be.Onedrive.Classification.{File}

pub record StoredUpload : Type 0 where
  pub stored_filename : String
  pub content_type : String
  pub file_size_bytes : ℕ
  pub input_relative_path : String
  pub sha256 : String

abbrev allowed_extensions_to_content_types : List (String × String)
allowed_extensions_to_content_types =
    (".pdf", "application/pdf")
    ∷ (".jpg", "image/jpeg")
    ∷ (".jpeg", "image/jpeg")
    ∷ (".png", "image/png")
    ∷ (".tif", "image/tiff")
    ∷ (".tiff", "image/tiff")
    ∷ []

abbrev mismatch : Result String
mismatch = err (upload_validation_error 415 "FILE_SIGNATURE_MISMATCH")

abbrev is_pdf_sample : List ℕ → Bool
is_pdf_sample = starts_with (37 ∷ 80 ∷ 68 ∷ 70 ∷ 45 ∷ [])

abbrev is_tiff_sample : List ℕ → Bool
is_tiff_sample sample =
    starts_with (73 ∷ 73 ∷ 42 ∷ 0 ∷ []) sample || starts_with (77 ∷ 77 ∷ 0 ∷ 42 ∷ []) sample

abbrev guessed_type : (expected : String) → Option String → Result String
guessed_type expected none = mismatch
guessed_type expected (some mime) = if mime == expected then ok mime else mismatch

unfoldable detect_content_type :
    (guess : List ℕ → Option String) (sample : List ℕ) (extension expected : String) → Result String
unfolding starts_with
detect_content_type guess sample extension expected =
    if extension == ".pdf"
    then if is_pdf_sample sample then ok expected else mismatch
    else if (extension == ".tif" || extension == ".tiff") && is_tiff_sample sample
    then ok expected
    else guessed_type expected (guess sample)

-- The file's copy lies in `input_dir`, relative to the storage root.
unfoldable pub save_local_file :
    (guess : List ℕ → Option String) (max_upload_bytes : ℕ) (input_dir : String)
    → File
    → Result StoredUpload
unfolding get detect_content_type
save_local_file guess max_upload_bytes input_dir file =
    elim (get file.extension allowed_extensions_to_content_types) [
      | none ↦ err (upload_validation_error 415 "UNSUPPORTED_FILE_TYPE")
      | some expected ↦
          if file.size == 0
          then err (upload_validation_error 400 "EMPTY_FILE")
          else if ltb max_upload_bytes file.size
          then err (upload_validation_error 413 "UPLOAD_TOO_LARGE")
          else do
            content_type ← detect_content_type guess file.sample file.extension expected
            ok (record {
              stored_filename = "source" +s file.extension;
              content_type = content_type;
              file_size_bytes = file.size;
              input_relative_path = input_dir +s "/source" +s file.extension;
              sha256 = file.digest;
            })
    ]
