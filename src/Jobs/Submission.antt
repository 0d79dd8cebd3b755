-- ===== src/Jobs/Submission.antt =====
-- jobs/gemini_batch.py: stuck steps, and the submission of prepared jobs as Gemini batches. The
-- ids that a step hands to the executor come back in its result. What the `marriage-ocr` command
-- answers, and what other sessions commit while it runs, is given.
pub mod Stuck
use marriage_be.Prelude.{
  ℕ, zero, suc, ◌+◌, String, Bool, true, false, ◌&&◌, ◌||◌, not, Option, none, some, List, [], ◌∷◌,
  ◌++◌, map, ◌==◌, mem, nat_eq, string_eq, ltb, leb, select, if◌then◌else◌, is_some,
}
use marriage_be.Status.{
  JobStatus, GeminiStage, prepared, submitting, submitted, finishing, job_status_eq,
}
use marriage_be.Db.Rows.{Job, Db}
use marriage_be.Db.Result.{Error, Result, ok, err, ◌>>=◌, ◌>>◌}
use marriage_be.DocumentType.{typed_document_types, document_type_eq}
use marriage_be.Jobs.Repository.{get_job}
use marriage_be.Jobs.Gemini.{Settings, claim, set_stage, fall_back_to_live, in_stage}
use marriage_be.Jobs.Processing.{World, complete_job, output_relative_path}

-- an interval and a number of jobs, from the code and from core/config.py
pub record TickSettings : Type 0 where
  pub stuck_step_after : ℕ
  pub gemini_batch_fallback_after : ℕ
  pub gemini_batch_max_jobs : ℕ

abbrev pub waits_in : GeminiStage → Job → Bool
waits_in stage j = j.status == JobStatus.processing && in_stage stage j.gemini_batch_stage

unfoldable pub ids : List Job → List ℕ
ids = map (λ j. j.id)

abbrev before : Option ℕ → ℕ → ℕ → Bool
before none interval now = true
before (some t) interval now = ltb (t + interval) now

-- in `submitting` or `finishing` since before the cutoff, or since no one knows when
abbrev pub is_stuck : TickSettings → (now : ℕ) → Job → Bool
is_stuck limits now j =
    (waits_in submitting j || waits_in finishing j)
    && before j.gemini_batch_updated_at limits.stuck_step_after now

unfoldable pub recover_stuck_steps : TickSettings → (now : ℕ) → Db → List ℕ × Db
unfolding ids select
recover_stuck_steps limits now db =
    fall_back_to_live (ids (select (is_stuck limits now) db.jobs)) now db

-- ORDER BY gemini_batch_updated_at, nulls last
abbrev at_most : Option ℕ → Option ℕ → Bool
at_most _ none = true
at_most none (some _) = false
at_most (some t) (some u) = leb t u

insert_by_time : Job → List Job → List Job
insert_by_time j [] = j ∷ []
insert_by_time j (i ∷ is) =
    let rest = insert_by_time j is in
    if at_most j.gemini_batch_updated_at i.gemini_batch_updated_at then j ∷ i ∷ is else i ∷ rest

by_time : List Job → List Job
unfolding insert_by_time
by_time [] = []
by_time (j ∷ js) = insert_by_time j (by_time js)

limit : ℕ → List Job → List Job
limit zero js = []
limit (suc n) [] = []
limit (suc n) (j ∷ js) = j ∷ limit n js

-- the candidates whose claim succeeded, each claimed by an UPDATE of its own
unfoldable claim_all : List ℕ → (from to : GeminiStage) (now : ℕ) → Db → List ℕ × Db
claim_all [] from to now db = ([], db)
claim_all (job_id ∷ job_ids) from to now db =
    let (claimed, db1) = claim job_id from to now db in
    let (rest, db2) = claim_all job_ids from to now db1 in
    (if claimed then job_id ∷ rest else rest, db2)

-- the batches that `submit` created: their names, and their jobs
store_batches : List (String × List ℕ) → (now : ℕ) → Db → Db
store_batches [] now db = db
store_batches ((name, keys) ∷ batches) now db =
    store_batches batches now (set_stage keys submitted (some name) now db)

-- What preparing the files and the `submit` command answer.
pub record SubmitAnswers : Type 0 where
  pub batches : Result (List (String × List ℕ))
  pub during_submit : Db → Db

submit_claimed : SubmitAnswers → List ℕ → (now : ℕ) → Db → List ℕ × Db
unfolding store_batches
submit_claimed answers [] now db = ([], db)
submit_claimed answers (job_id ∷ job_ids) now db = elim answers.batches [
  | ok batches ↦ ([], store_batches batches now (answers.during_submit db))
  | err e ↦ fall_back_to_live (job_id ∷ job_ids) now (answers.during_submit db)
]

unfoldable pub submit_prepared : TickSettings → SubmitAnswers → (now : ℕ) → Db → List ℕ × Db
unfolding ids select by_time limit claim_all submit_claimed
submit_prepared limits answers now db =
    let candidates =
      ids (limit limits.gemini_batch_max_jobs (by_time (select (waits_in prepared) db.jobs))) in
    let (job_ids, db1) = claim_all candidates prepared submitting now db in
    submit_claimed answers job_ids now db1
