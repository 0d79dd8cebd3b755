-- ===== src/Jobs/Tick/Finishing.antt =====
-- A job that is cancelled while its Gemini results are turned into an output file.
use marriage_be.Prelude.{
  ℕ, String, Bool, true, false, some, List, [], ◌∷◌, ◌≡◌, refl, ◌∙◌, arith, nat_eq,
}
use marriage_be.Status.{JobStatus, job_status_eq}
use marriage_be.DocumentType.{document_type_eq}
use marriage_be.Db.Rows.{Job, Db}
use marriage_be.Db.Result.{Result, ok, err}
use marriage_be.Jobs.Repository.{get_job, mark_completed}
use marriage_be.Jobs.Gemini.{Settings, fall_back_to_live}
use marriage_be.Jobs.Processing.{complete_job}
use marriage_be.Jobs.Tick.{Finish, after_finish, completed_or_live}
use marriage_be.Jobs.Submission.Stuck.{get_job-fall_back_to_live}

-- Handing jobs back touches no record.
records-fall_back_to_live :
    (is : List ℕ) (now : ℕ) (db : Db) → (fall_back_to_live is now db).1.records ≡ db.records
unfolding fall_back_to_live
records-fall_back_to_live [] now db = refl
records-fall_back_to_live (i ∷ is) now db = records-fall_back_to_live is now _

module _ (settings : Settings) (answers : Finish) (job : Job) (now : ℕ) (db : Db) (j : Job)
    (stored : get_job db job.id ≡ some j) (stopped : j.status ≡ JobStatus.cancelled) where
  completion_refused :
      (output : String)
      → completed_or_live job.id now db (complete_job settings answers.world job output db)
        ≡ (false, fall_back_to_live (job.id ∷ []) now db)
  unfolding complete_job mark_completed
  completion_refused output = ground arith

  abbrev IsLeftAlone : Bool × (List ℕ × Db) → Type 0
  IsLeftAlone result =
      (result.0 ≡ false) × (get_job result.1.1 job.id ≡ some j) × (result.1.1.records ≡ db.records)

  handed_back-IsLeftAlone : IsLeftAlone (false, fall_back_to_live (job.id ∷ []) now db)
  handed_back-IsLeftAlone = (
    refl,
    get_job-fall_back_to_live (job.id ∷ []) now db job.id j stored ∙ ground arith,
    records-fall_back_to_live (job.id ∷ []) now db,
  )

  -- Once a job was cancelled, the end of its `finish` command, whatever it is, neither completes it
  -- nor hands its row back to a live run, and imports nothing: its row and all records are kept.
  after_finish_cancelled :
      (finished : Result Bool)
      → let (done, (requeued, db')) = after_finish settings answers job job.id now finished db in
        (done ≡ false) × (get_job db' job.id ≡ some j) × (db'.records ≡ db.records)
  unfolding after_finish
  after_finish_cancelled (err e) = handed_back-IsLeftAlone
  after_finish_cancelled (ok false) = handed_back-IsLeftAlone
  after_finish_cancelled (ok true) = rw completion_refused handed_back-IsLeftAlone
