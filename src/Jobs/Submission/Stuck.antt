-- ===== src/Jobs/Submission/Stuck.antt =====
-- jobs/gemini_batch.py: jobs whose step is stuck and that go back to a live run.
use marriage_be.Prelude.{
  ℕ, Bool, true, false, ◌&&◌, ◌||◌, not, some, List, [], ◌∷◌, ◌==◌, ◌≡◌, refl, sym, ◌∙◌, arith, mem,
  nat_eq, any, all, map, select, if◌then◌else◌,
}
use marriage_be.Status.{JobStatus, job_status_eq}
use marriage_be.Db.Rows.{Job, Db}
use marriage_be.Db.Table.{modify}
use marriage_be.Db.Table.Laws.{find-modify}
use marriage_be.Jobs.Repository.{get_job, job_key}
use marriage_be.Jobs.Gemini.{fall_back_to_live, is_processing, to_live}
use marriage_be.Jobs.Submission.{TickSettings, is_stuck, recover_stuck_steps}

-- the rows that a call changes
abbrev is_released : List ℕ → Job → Bool
is_released job_ids j = mem j.id job_ids && j.status == JobStatus.processing

modify-modify :
    (i now : ℕ) (is : List ℕ) (js : List Job)
    → modify (is_released is) (to_live now) (modify (is_processing i) (to_live now) js)
      ≡ modify (is_released (i ∷ is)) (to_live now) js
unfolding modify is_processing to_live
modify-modify i now is [] = refl
modify-modify i now is (j ∷ js) = ground (arith, modify-modify i now is js)

modify_no_id : (now : ℕ) (js : List Job) → modify (is_released []) (to_live now) js ≡ js
unfolding modify
modify_no_id now [] = refl
modify_no_id now (j ∷ js) = ground (arith, modify_no_id now js)

jobs-fall_back_to_live :
    (is : List ℕ) (now : ℕ) (db : Db)
    → (fall_back_to_live is now db).1.jobs ≡ modify (is_released is) (to_live now) db.jobs
unfolding fall_back_to_live
jobs-fall_back_to_live [] now db = sym (modify_no_id now db.jobs)
jobs-fall_back_to_live (i ∷ is) now db =
    jobs-fall_back_to_live is now _ ∙ modify-modify i now is db.jobs

-- A job that is handed back to a live run is pending in stage `sync`, and its start time is
-- cleared, if it is listed and was still processing; every other stored job keeps its row.
pub get_job-fall_back_to_live :
    (is : List ℕ) (now : ℕ) (db : Db) (k : ℕ) (j : Job)
    → get_job db k ≡ some j
    → get_job (fall_back_to_live is now db).1 k
      ≡ some (if mem j.id is && j.status == JobStatus.processing then to_live now j else j)
unfolding get_job
get_job-fall_back_to_live is now db k j h = rw jobs-fall_back_to_live (
    ground (
      arith,
      find-modify job_key (is_released is) (to_live now) (unfold to_live in λ r. refl) k db.jobs,
    ))

module _ (limits : TickSettings) (now : ℕ) where
  -- no stuck row has an id that is not listed
  abbrev are_listed : List ℕ → List Job → Bool
  are_listed is = all (λ j. not (is_stuck limits now j) || mem j.id is)

  are_listed-cons :
      (i : ℕ) (is : List ℕ) (js : List Job)
      → are_listed is js ≡ true
      → are_listed (i ∷ is) js ≡ true
  unfolding all
  are_listed-cons i is [] h = refl
  are_listed-cons i is (j ∷ js) h = ground (arith, are_listed-cons i is js)

  are_listed-select :
      (js : List Job) → are_listed (map (λ j. j.id) (select (is_stuck limits now) js)) js ≡ true
  unfolding all select
  are_listed-select [] = refl
  are_listed-select (j ∷ js) = ground (
    arith,
    are_listed-select js,
    are_listed-cons j.id (map (λ i. i.id) (select (is_stuck limits now) js)) js,
  )

  released :
      (is : List ℕ) (js : List Job)
      → are_listed is js ≡ true
      → any (is_stuck limits now) (modify (is_released is) (to_live now) js) ≡ false
  unfolding all any modify to_live
  released is [] h = refl
  released is (j ∷ js) h = ground (arith, released is js)

-- After the recovery of stuck steps no processing job is left in `submitting` or `finishing` whose
-- stage was last changed before the cutoff or has no time.
recover_stuck_steps_ends :
    (limits : TickSettings) (now : ℕ) (db : Db)
    → any (is_stuck limits now) (recover_stuck_steps limits now db).1.jobs ≡ false
unfolding recover_stuck_steps
recover_stuck_steps_ends limits now db =
    rw jobs-fall_back_to_live (released limits now _ db.jobs (are_listed-select limits now db.jobs))
