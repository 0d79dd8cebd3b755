-- ===== src/Jobs/Processing.antt =====
-- jobs/processing.py: one OCR job from its start to its end, transaction by transaction. What the
-- storage, the OCR run and the output file give is a parameter, and so is what other sessions
-- commit while the OCR runs.
pub mod Steps
pub mod Cancelled
pub mod Outcomes
pub mod Endings
use Prim.Native.String
use Prim.Native.Char.{code}
use marriage_be.Prelude.{
  ℕ, ◌+◌, String, Bool, true, false, ◌&&◌, ◌||◌, not, Option, none, some, List, [], ◌∷◌, ◌==◌, mem,
  nat_eq, string_eq, if◌then◌else◌,
}
use marriage_be.Status.{JobStatus, job_status_eq}
use marriage_be.DocumentType.{DocumentType, typed_document_types, document_type_eq}
use marriage_be.Db.Rows.{Job, Db}
use marriage_be.Db.Result.{Error, Result, ok, err, ◌>>=◌, ◌>>◌, lookup_error}
use marriage_be.Records.Repository.{Payload, create_record_if_missing}
use marriage_be.Jobs.Paths.{◌+s◌}
use marriage_be.Jobs.Repository.{
  get_job, mark_processing, mark_completed, mark_failed, mark_cancelled,
}
use marriage_be.Jobs.Service.{refresh_for}
use marriage_be.Jobs.Gemini.{Settings, should_batch, Preparation, prepare_job}
use marriage_be.Jobs.Runner.{OcrRunResult, failure_code_for_run}

-- The instants that the run reads, in their order.
pub record Instants : Type 0 where
  pub started_at : ℕ
  pub prepared_at : ℕ
  pub finished_at : ℕ
  pub failed_at : ℕ

-- Everything that the outside world answers during one run.
pub record World : Type 0 where
  pub at : Instants
  pub materialized : Result (Unit {0})
  pub preparation : Preparation
  pub run : Result OcrRunResult
  pub output_size : Option ℕ
  pub stderr_excerpt : String
  pub output_pushed : Result (Unit {0})
  pub imported_rows : Result (List Payload)
  pub fresh_id : ℕ → ℕ
  pub during_run : Db → Db

-- the part of a relative path before its last slash
before_last_slash : String → Option String
before_last_slash String.[] = none
before_last_slash (String.◌∷◌ c s) = elim (before_last_slash s) [
  | some p ↦ some (String.◌∷◌ c p)
  | none ↦ if code c == b'/' then some "" else none
]

parent : Option String → String
parent none = "."
parent (some p) = p

unfoldable pub output_relative_path : Job → (is_typed : Bool) → String
unfolding before_last_slash parent
output_relative_path job is_typed =
    parent (before_last_slash job.debug_relative_path)
    +s "/output/result"
    +s (if is_typed then ".csv" else ".xlsx")

-- The rows of the output, each created where its key is new; the number of created records.
unfoldable pub import_rows :
    (job_id : ℕ) (batch_id document_id : Option ℕ) (fresh_id : ℕ → ℕ) (index now : ℕ)
    → List Payload
    → Db
    → Result (ℕ × Db)
import_rows job_id batch_id document_id fresh_id index now [] db = ok (0, db)
import_rows job_id batch_id document_id fresh_id index now (p ∷ ps) db = do
  (created, db1) ← create_record_if_missing job_id batch_id document_id p (fresh_id index) now db
  (count, db2) ← import_rows job_id batch_id document_id fresh_id (index + 1) now ps db1
  ok ((if created then count + 1 else count), db2)

-- The transaction of `_mark_failed_safe`: an exception is logged and rolled back.
unfoldable pub mark_failed_safe : (job_id : ℕ) (error_code message : String) (now : ℕ) → Db → Db
mark_failed_safe job_id error_code message now db =
    elim (mark_failed job_id error_code message now db) [
      | ok (job, db1) ↦ refresh_for job now db1
      | err e ↦ db
    ]

-- `complete_job` up to its commit: an exception rolls everything back.
unfoldable pub complete_job : Settings → World → Job → (output : String) → Db → Result Db
unfolding import_rows
complete_job settings world job output db = do
  (if settings.storage_is_s3 then world.output_pushed else ok tt)
  (completed, db1) ← mark_completed job.id output world.at.finished_at db
  rows ← world.imported_rows
  (count, db2) ←
      import_rows job.id job.batch_id job.document_id world.fresh_id 0 world.at.finished_at rows db1
  ok (refresh_for job world.at.finished_at db2)

-- What the first session decides.
pub data Start : Type 0 where
  skipped : Start
  started : Job → Start

begin_found : Job → (job_id now : ℕ) → Db → Result (Start × Db)
begin_found job job_id now db = if job.status == JobStatus.cancelled then ok (skipped, db) else do
  (running, db1) ← mark_processing job_id now db
  ok (started running, refresh_for running now db1)

unfoldable pub begin : (job_id now : ℕ) → Db → Result (Start × Db)
unfolding begin_found
begin job_id now db = elim (get_job db job_id) [
  | none ↦ err lookup_error
  | some job ↦ begin_found job job_id now db
]

failure_message : World → String → String
failure_message world failure_code =
    if failure_code == "OCR_PROCESS_TIMEOUT"
    then "OCR processing timed out."
    else if failure_code == "OCR_OUTPUT_MISSING"
    then "OCR processing completed without producing an output file."
    else if world.stderr_excerpt == ""
    then "OCR processing failed."
    else world.stderr_excerpt

unfoldable pub finish_cancelled : World → Job → Db → Result Db
finish_cancelled world job db = do
  (cancelled, db1) ← mark_cancelled job.id world.at.finished_at db
  ok (refresh_for job world.at.finished_at db1)

-- Whether an exception is on its way to the outermost handler, and what is committed.
abbrev Outcome : Type 0
Outcome = Bool × Db

-- a transaction over `db`
abbrev pub committed : Db → Result Db → Outcome
committed db (ok db') = (false, db')
committed db (err e) = (true, db)

unfoldable pub by_failure :
    Settings → World → Job → (is_typed : Bool) → Db → Option String → Outcome
unfolding output_relative_path failure_message
by_failure settings world job is_typed db none =
    committed db (complete_job settings world job (output_relative_path job is_typed) db)
by_failure settings world job is_typed db (some failure_code) = (
  false,
  mark_failed_safe job.id failure_code (failure_message world failure_code) world.at.failed_at db,
)

unfoldable pub finish_run : Settings → World → Job → (is_typed : Bool) → OcrRunResult → Db → Outcome
unfolding by_failure finish_cancelled
finish_run settings world job is_typed result db =
    if result.cancelled
    then committed db (finish_cancelled world job db)
    else by_failure settings world job is_typed db (failure_code_for_run result world.output_size)

unfoldable pub ran : Settings → World → Job → Result OcrRunResult → Db → Outcome
unfolding finish_run
ran settings world job (err e) db = (true, db)
ran settings world job (ok result) db =
    finish_run settings world job (mem job.document_type typed_document_types) result db

-- Other sessions commit while the subprocess runs.
unfoldable pub live_run : Settings → World → Job → Db → Outcome
unfolding ran
live_run settings world job db = ran settings world job world.run (world.during_run db)

prepared_or_live : Settings → World → Job → Bool × Db → Outcome
unfolding live_run
prepared_or_live settings world job (prepared, db) =
    if prepared then (false, db) else live_run settings world job db

batched_or_live : Settings → World → Job → Db → Outcome
unfolding prepared_or_live
batched_or_live settings world job db =
    if should_batch settings job
    then prepared_or_live settings world job
        (prepare_job settings world.preparation job.id world.at.prepared_at db)
    else live_run settings world job db

unfoldable pub run_started : Settings → World → Job → Db → Outcome
unfolding batched_or_live
run_started settings world job db = elim world.materialized [
  | err e ↦ (true, db)
  | ok _ ↦ batched_or_live settings world job db
]

-- `except Exception` of the whole job
unfoldable pub handled : World → (job_id : ℕ) → Outcome → Db
handled world job_id (false, db) = db
handled world job_id (true, db) =
    mark_failed_safe job_id "INTERNAL_PROCESSING_ERROR"
      "The OCR job encountered an internal processing error." world.at.failed_at db

after_begin : Settings → World → (job_id : ℕ) → Db → Result (Start × Db) → Db
unfolding handled
after_begin settings world job_id db (err e) = handled world job_id (true, db)
after_begin settings world job_id db (ok (skipped, db1)) = db1
after_begin settings world job_id db (ok (started job, db1)) =
    handled world job_id (run_started settings world job db1)

-- The function returns in every case: no exception leaves it.
unfoldable pub process_ocr_job : Settings → World → (job_id : ℕ) → Db → Db
unfolding after_begin
process_ocr_job settings world job_id db =
    after_begin settings world job_id db (begin job_id world.at.started_at db)
