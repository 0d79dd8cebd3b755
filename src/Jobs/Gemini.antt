-- ===== src/Jobs/Gemini.antt =====
-- jobs/gemini_batch.py: which jobs are batched, their preparation, the claims on a stage and the
-- way back to a live run. What the `marriage-ocr` commands and the object storage answer is given.
use marriage_be.Prelude.{
  ℕ, String, Bool, true, false, ◌&&◌, ◌||◌, not, Option, none, some, List, [], ◌∷◌, ◌==◌, ◌≡◌,
  arith, mem, nat_eq, string_eq, any, if◌then◌else◌, is_some,
}
use marriage_be.Status.{JobStatus, GeminiStage, prepared, sync, job_status_eq}
use marriage_be.DocumentType.{handwritten_document_types, typed_document_types, document_type_eq}
use marriage_be.Db.Rows.{Job, Db}
use marriage_be.Db.Table.{modify}
use marriage_be.Db.Table.Laws.{any-modify, modify_none}
use marriage_be.Db.Result.{Result, ok, err, ◌>>=◌, ◌>>◌}

-- The settings of core/config.py that the jobs read.
pub record Settings : Type 0 where
  pub storage_is_s3 : Bool
  pub gemini_batch_enabled : Bool
  pub typed_reader : String
  pub auto_approve_not_recorded : Bool

unfoldable pub should_batch : Settings → Job → Bool
should_batch settings job =
    if not settings.gemini_batch_enabled || is_some job.gemini_batch_stage
    then false
    else mem job.document_type handwritten_document_types
      || (mem job.document_type typed_document_types && settings.typed_reader == "gemini")

to_stage : GeminiStage → Option String → ℕ → Job → Job
to_stage stage none now job = record job {
  gemini_batch_stage = some stage;
  gemini_batch_updated_at = some now;
  updated_at = now;
}
to_stage stage (some name) now job = record job {
  gemini_batch_stage = some stage;
  gemini_batch_name = some name;
  gemini_batch_updated_at = some now;
  updated_at = now;
}

-- One UPDATE statement: the status is not looked at, and `updated_at` follows by `onupdate`.
unfoldable pub set_stage : List ℕ → GeminiStage → Option String → (now : ℕ) → Db → Db
unfolding modify to_stage
set_stage job_ids stage name now db = record db {
  jobs = modify (λ (j : Job). mem j.id job_ids) (to_stage stage name now) db.jobs;
}

-- What the command and the storage answer while a job is prepared.
pub record Preparation : Type 0 where
  pub prepared_by_command : Result Bool
  pub pushed : Result (Unit {0})

store_prepared : Settings → Preparation → (job_id now : ℕ) → Db → Result Db
unfolding set_stage
store_prepared settings answers job_id now db = do
  (if settings.storage_is_s3 then answers.pushed else ok tt)
  ok (set_stage (job_id ∷ []) prepared none now db)

after_command : Bool → Settings → Preparation → (job_id now : ℕ) → Db → Result (Bool × Db)
unfolding store_prepared
after_command false settings answers job_id now db = ok (false, db)
after_command true settings answers job_id now db = do
  db1 ← store_prepared settings answers job_id now db
  ok (true, db1)

-- `except Exception: return False`
caught : Db → Result (Bool × Db) → Bool × Db
caught db (ok r) = r
caught db (err e) = (false, db)

unfoldable pub prepare_job : Settings → Preparation → (job_id now : ℕ) → Db → Bool × Db
unfolding after_command caught
prepare_job settings answers job_id now db =
    caught db
      (do done ← answers.prepared_by_command; after_command done settings answers job_id now db)

unfoldable pub is_processing : ℕ → Job → Bool
is_processing job_id j = j.id == job_id && j.status == JobStatus.processing

unfoldable pub to_live : ℕ → Job → Job
to_live now job = record job {
  status = JobStatus.pending;
  started_at = none;
  gemini_batch_stage = some sync;
  gemini_batch_updated_at = some now;
  updated_at = now;
}

-- The transaction of `fall_back_to_live`, and the ids that are submitted after it.
unfoldable pub fall_back_to_live : List ℕ → (now : ℕ) → Db → List ℕ × Db
unfolding any modify is_processing to_live
fall_back_to_live [] now db = ([], db)
fall_back_to_live (job_id ∷ job_ids) now db =
    let changed = any (is_processing job_id) db.jobs in
    let (requeued, db') =
      fall_back_to_live job_ids now
        (record db { jobs = modify (is_processing job_id) (to_live now) db.jobs }) in
    (if changed then job_id ∷ requeued else requeued, db')

abbrev pub in_stage : GeminiStage → Option GeminiStage → Bool
in_stage prepared (some prepared) = true
in_stage GeminiStage.submitting (some GeminiStage.submitting) = true
in_stage GeminiStage.submitted (some GeminiStage.submitted) = true
in_stage GeminiStage.finishing (some GeminiStage.finishing) = true
in_stage sync (some sync) = true
in_stage _ _ = false

claimable : ℕ → GeminiStage → Job → Bool
claimable job_id from j = is_processing job_id j && in_stage from j.gemini_batch_stage

to_claimed : GeminiStage → ℕ → Job → Job
to_claimed stage now job = record job {
  gemini_batch_stage = some stage;
  gemini_batch_updated_at = some now;
  updated_at = now;
}

-- The conditional UPDATE that doubles as a claim: whether it matched, and its effect.
unfoldable pub claim : (job_id : ℕ) (from to : GeminiStage) (now : ℕ) → Db → Bool × Db
unfolding any modify is_processing claimable to_claimed
claim job_id from to now db = (
  any (claimable job_id from) db.jobs,
  record db { jobs = modify (claimable job_id from) (to_claimed to now) db.jobs },
)

-- A claim is exclusive: whatever the claimed stage is, as long as it is another one, a second
-- claim of the same step fails and changes nothing.
claim_twice :
    (job_id : ℕ) (from to : GeminiStage) (now later : ℕ) (db : Db)
    → in_stage from (some to) ≡ false
    → claim job_id from to later (claim job_id from to now db).1
      ≡ (false, (claim job_id from to now db).1)
unfolding claim
claim_twice job_id from to now later db h =
    let again : any (claimable job_id from)
          (modify (claimable job_id from) (to_claimed to now) db.jobs)
        ≡ false =
      any-modify (claimable job_id from) (claimable job_id from) (to_claimed to now)
        (λ r. ground arith) (λ r c. c) db.jobs in
    rw (again, modify_none (claimable job_id from) (to_claimed to later) _ again)
