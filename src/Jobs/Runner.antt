-- ===== src/Jobs/Runner.antt =====
-- jobs/runner.py: the command line of a run, and what its outcome means.
use marriage_be.Prelude.{
  ℕ, String, Bool, true, ◌&&◌, not, Option, none, some, List, [], ◌∷◌, ◌==◌, nat_eq, string_eq,
  if◌then◌else◌,
}
use marriage_be.DocumentType.{DocumentType, typed_borang_4b, document_type_eq}
use marriage_be.DocumentType.Routing.{cli_command, config_filename}
use marriage_be.Jobs.Paths.{◌+s◌}

record OcrRunRequest : Type 0 where
  pub input_path : String
  pub output_path : String
  pub debug_path : String
  pub document_type : DocumentType
  pub page1_ocr_path : Option String

-- `return_code` is 0 or not; the duration is only logged.
pub record OcrRunResult : Type 0 where
  pub return_code_is_zero : Bool
  pub timed_out : Bool
  pub cancelled : Bool

-- The settings that the command line is made from.
record RunnerSettings : Type 0 where
  pub ocr_python_executable : String
  pub ocr_module : String
  pub ocr_config_dir : String
  pub ocr_config_path_handwritten : String
  pub ocr_config_path_typed : String
  pub typed_reader : String

unfoldable config_path_for : RunnerSettings → DocumentType → String
unfolding config_filename
config_path_for settings t = elim (config_filename t) [
  | some filename ↦ settings.ocr_config_dir +s "/" +s filename
  | none ↦
      if t == typed_borang_4b
      then settings.ocr_config_path_typed
      else settings.ocr_config_path_handwritten
]

page1_args : Option String → Bool → List String
page1_args (some path) true = "--page1-ocr" ∷ path ∷ []
page1_args _ _ = []

reader_args : RunnerSettings → OcrRunRequest → List String
unfolding cli_command page1_args
reader_args settings request =
    let is_typed = cli_command request.document_type == "process-typed" in
    let page1 = page1_args request.page1_ocr_path is_typed in
    if is_typed && settings.typed_reader == "gemini" then "--reader" ∷ "gemini" ∷ page1 else page1

unfoldable build_command : RunnerSettings → OcrRunRequest → List String
unfolding cli_command config_path_for reader_args
build_command settings request =
    settings.ocr_python_executable
    ∷ "-m"
    ∷ settings.ocr_module
    ∷ cli_command request.document_type
    ∷ "--input"
    ∷ request.input_path
    ∷ "--output"
    ∷ request.output_path
    ∷ "--debug"
    ∷ request.debug_path
    ∷ "--config"
    ∷ config_path_for settings request.document_type
    ∷ "--reset-output"
    ∷ reader_args settings request

-- `output_size` is the size of the output file, if there is one.
unfoldable pub failure_code_for_run : OcrRunResult → (output_size : Option ℕ) → Option String
failure_code_for_run result output_size =
    if result.timed_out
    then some "OCR_PROCESS_TIMEOUT"
    else if not result.return_code_is_zero
    then some "OCR_PROCESS_FAILED"
    else elim output_size [
      | none ↦ some "OCR_OUTPUT_MISSING"
      | some size ↦ if size == 0 then some "OCR_OUTPUT_MISSING" else none
    ]
