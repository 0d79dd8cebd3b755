-- ===== src/Jobs/Tick.antt =====
-- jobs/gemini_batch.py: one scheduler pass over the jobs that wait on a Gemini batch, and the end
-- of their `finish` command. The names of `collect` come in any order, as DISTINCT gives them.
pub mod Finishing
use marriage_be.Prelude.{
  ℕ, zero, suc, ◌+◌, String, Bool, true, false, ◌&&◌, ◌||◌, not, Option, none, some, List, [], ◌∷◌,
  ◌++◌, map, ◌==◌, mem, nat_eq, string_eq, ltb, leb, select, if◌then◌else◌, is_some,
}
use marriage_be.Status.{
  JobStatus, GeminiStage, prepared, submitting, submitted, finishing, job_status_eq,
}
use marriage_be.Db.Rows.{Job, Db}
use marriage_be.Db.Result.{Error, Result, ok, err, ◌>>=◌, ◌>>◌}
use marriage_be.DocumentType.{typed_document_types, document_type_eq}
use marriage_be.Jobs.Repository.{get_job}
use marriage_be.Jobs.Gemini.{Settings, claim, set_stage, fall_back_to_live, in_stage}
use marriage_be.Jobs.Processing.{World, complete_job, output_relative_path}
use marriage_be.Jobs.Submission.{
  TickSettings, waits_in, ids, SubmitAnswers, recover_stuck_steps, submit_prepared,
}

-- What materializing the files and the `finish` command answer: whether there is an output file.
-- `world` has the rest, from the storage and from the output file.
pub record Finish : Type 0 where
  pub finished : Result Bool
  pub during_finish : Db → Db
  pub world : World

-- `except Exception`: the transaction of `complete_job` is rolled back.
abbrev pub completed_or_live : (job_id now : ℕ) → Db → Result Db → Bool × (List ℕ × Db)
completed_or_live job_id now db (ok db') = (true, ([], db'))
completed_or_live job_id now db (err e) = (false, fall_back_to_live (job_id ∷ []) now db)

unfoldable pub after_finish :
    Settings → Finish → Job → (job_id now : ℕ) → Result Bool → Db → Bool × (List ℕ × Db)
after_finish settings answers job job_id now (err e) db =
    (false, fall_back_to_live (job_id ∷ []) now db)
after_finish settings answers job job_id now (ok false) db =
    (false, fall_back_to_live (job_id ∷ []) now db)
after_finish settings answers job job_id now (ok true) db = completed_or_live job_id now db (
    complete_job settings answers.world job
      (output_relative_path job (mem job.document_type typed_document_types)) db)

finish_claimed : Settings → Finish → (job_id now : ℕ) → Option Job → Db → Bool × (List ℕ × Db)
unfolding after_finish
finish_claimed settings answers job_id now none db = (false, ([], db))
finish_claimed settings answers job_id now (some job) db =
    after_finish settings answers job job_id now answers.finished (answers.during_finish db)

-- Whether the job was completed, the ids for the executor, and the database. A claimed job has a
-- row: the code asserts it.
unfoldable finish_job : Settings → Finish → (job_id now : ℕ) → Db → Bool × (List ℕ × Db)
unfolding finish_claimed
finish_job settings answers job_id now db =
    let (claimed, db1) = claim job_id submitted finishing now db in
    let done = finish_claimed settings answers job_id now (get_job db1 job_id) db1 in
    if claimed then done else (false, ([], db1))

-- What the `collect` command answers for a batch.
record Summary : Type 0 where
  pub is_done : Bool
  pub has_succeeded : Bool

-- Everything that the outside world answers during one pass.
record TickWorld : Type 0 where
  pub submission : SubmitAnswers
  pub summary : String → Result Summary
  pub during_collect : String → Db → Db
  pub finish : ℕ → Finish

-- the count of completed jobs, the ids for the executor, and the database
abbrev Collected : Type 0
Collected = ℕ × (List ℕ × Db)

finish_all : Settings → TickWorld → List ℕ → (now : ℕ) → Db → Collected
unfolding finish_job
finish_all settings world [] now db = (0, ([], db))
finish_all settings world (job_id ∷ job_ids) now db =
    let (done, (requeued, db1)) = finish_job settings (world.finish job_id) job_id now db in
    let (count, (others, db2)) = finish_all settings world job_ids now db1 in
    ((if done then count + 1 else count), (requeued ++ others, db2))

-- `min(..., default=None)` of the times that are set
oldest : List Job → Option ℕ
oldest [] = none
oldest (j ∷ js) = elim j.gemini_batch_updated_at [
  | none ↦ oldest js
  | some t ↦ elim (oldest js) [ none ↦ some t | some u ↦ some (if leb t u then t else u) ]
]

is_overdue : TickSettings → (now : ℕ) → List Job → Bool
unfolding oldest
is_overdue limits now rows = elim (oldest rows) [
  | none ↦ false
  | some t ↦ ltb (t + limits.gemini_batch_fallback_after) now
]

abbrev has_name : String → Option String → Bool
has_name name none = false
has_name name (some other) = other == name

collect_done :
    Settings → TickWorld → Summary → (overdue : Bool) → List ℕ → (now : ℕ) → Db → Collected
unfolding finish_all
collect_done settings world summary overdue job_ids now db =
    if summary.is_done
    then (if summary.has_succeeded
        then finish_all settings world job_ids now db
        else (0, fall_back_to_live job_ids now db))
    else (if overdue then (0, fall_back_to_live job_ids now db) else (0, ([], db)))

collect_batch : Settings → TickSettings → TickWorld → (name : String) → (now : ℕ) → Db → Collected
unfolding collect_done is_overdue ids select
collect_batch settings limits world name now db =
    let rows = select (λ j. waits_in submitted j && has_name name j.gemini_batch_name) db.jobs in
    let db1 = world.during_collect name db in
    elim (world.summary name) [
      | err e ↦ (0, ([], db1))
      | ok summary ↦
          collect_done settings world summary (is_overdue limits now rows) (ids rows) now db1
    ]

-- DISTINCT, less null and the empty name
add_name : Option String → List String → List String
add_name none names = names
add_name (some name) names = if name == "" || mem name names then names else name ∷ names

batch_names : List Job → List String
unfolding add_name
batch_names [] = []
batch_names (j ∷ js) = add_name j.gemini_batch_name (batch_names js)

collect_batches : Settings → TickSettings → TickWorld → List String → (now : ℕ) → Db → Collected
unfolding collect_batch
collect_batches settings limits world [] now db = (0, ([], db))
collect_batches settings limits world (name ∷ names) now db =
    let (count, (requeued, db1)) = collect_batch settings limits world name now db in
    let (counts, (others, db2)) = collect_batches settings limits world names now db1 in
    (count + counts, (requeued ++ others, db2))

unfoldable collect_submitted : Settings → TickSettings → TickWorld → (now : ℕ) → Db → Collected
unfolding collect_batches batch_names select
collect_submitted settings limits world now db =
    collect_batches settings limits world (batch_names (select (waits_in submitted) db.jobs)) now db

-- new batches, or the jobs that are left over when batching was switched off
submit_or_release : Settings → TickSettings → TickWorld → (now : ℕ) → Db → List ℕ × Db
unfolding submit_prepared ids select
submit_or_release settings limits world now db =
    if settings.gemini_batch_enabled
    then submit_prepared limits world.submission now db
    else fall_back_to_live (ids (select (waits_in prepared) db.jobs)) now db

unfoldable tick : Settings → TickSettings → TickWorld → (now : ℕ) → Db → Collected
unfolding recover_stuck_steps submit_or_release collect_submitted
tick settings limits world now db =
    let (stuck, db1) = recover_stuck_steps limits now db in
    let (released, db2) = submit_or_release settings limits world now db1 in
    let (count, (requeued, db3)) = collect_submitted settings limits world now db2 in
    (count, (stuck ++ (released ++ requeued), db3))
