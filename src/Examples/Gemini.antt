-- ===== src/Examples/Gemini.antt =====
-- Jobs in Gemini Batch Mode: one that is stuck, and one that is cancelled while it finishes.
use marriage_be.Prelude.{◌+◌, true, false, some, [], ◌∷◌, nat_eq}
use marriage_be.Status.{JobStatus, GeminiStage, job_status_eq}
use marriage_be.Db.Rows.{Job, Db}
use marriage_be.Db.Result.{ok}
use marriage_be.Jobs.Gemini.{Settings}
use marriage_be.Jobs.Processing.{World}
use marriage_be.Jobs.Submission.{TickSettings}
use marriage_be.Jobs.Tick.{Finish}
use marriage_be.Examples.Data.{db, job_of}

abbrev stuck : Job
stuck = record (job_of 1 (some 1) (some 1) JobStatus.processing) {
  gemini_batch_stage = some GeminiStage.finishing;
  gemini_batch_updated_at = some 3;
}

abbrev limits : TickSettings
limits = record {
  stuck_step_after = 5;
  gemini_batch_fallback_after = 20;
  gemini_batch_max_jobs = 10;
}

abbrev settings : Settings
settings = record {
  storage_is_s3 = false;
  gemini_batch_enabled = true;
  typed_reader = "gemini";
  auto_approve_not_recorded = false;
}

abbrev world : World
world = record {
  at = record { started_at = 1; prepared_at = 2; finished_at = 3; failed_at = 4 };
  materialized = ok tt;
  preparation = record { prepared_by_command = ok true; pushed = ok tt };
  run = ok (record { return_code_is_zero = true; timed_out = false; cancelled = false });
  output_size = some 10;
  stderr_excerpt = "";
  output_pushed = ok tt;
  imported_rows = ok [];
  fresh_id = λ i. i + 100;
  during_run = λ d. d;
}

abbrev finish : Finish
finish = record { finished = ok true; during_finish = λ d. d; world = world }

abbrev stopped : Job
stopped = job_of 1 (some 1) (some 1) JobStatus.cancelled

abbrev stopped_db : Db
stopped_db = record db { jobs = stopped ∷ [] }
