-- ===== src/Jobs/Paths.antt =====
-- jobs/paths.py: where a job's files lie, relative to the storage root. The job's id is given by
-- its text.
use Prim.Native.String
use marriage_be.Prelude.{String}

infixr 66 ◌+s◌
abbrev pub ◌+s◌ : String → String → String
a +s b = String.◌++◌ a b

pub record JobPaths : Type 0 where
  pub input_relative_path : String
  pub output_relative_path : String
  pub debug_relative_path : String
  pub stdout_log_relative_path : String
  pub stderr_log_relative_path : String

-- `normalized` is the extension in lower case.
unfoldable pub build_job_paths : (job_id normalized : String) → JobPaths
build_job_paths job_id normalized = record {
  input_relative_path = "jobs/" +s job_id +s "/input/source" +s normalized;
  output_relative_path = "jobs/" +s job_id +s "/output/result.xlsx";
  debug_relative_path = "jobs/" +s job_id +s "/debug";
  stdout_log_relative_path = "jobs/" +s job_id +s "/logs/stdout.log";
  stderr_log_relative_path = "jobs/" +s job_id +s "/logs/stderr.log";
}

unfoldable pub page1_ocr_relative_path : String → String
page1_ocr_relative_path input_relative_path = input_relative_path +s ".page1-ocr.json"
