-- ===== src/Jobs/Processing/Endings.antt =====
-- How a run of a job that nobody stopped ends.
use marriage_be.Prelude.{
  ℕ, ◌+◌, String, Bool, true, false, Option, none, some, List, [], ◌∷◌, ◌≡◌, ◌⊎◌, refl, sym, ◌∙◌,
  ap, arith, nat_eq, string_eq, Bool-cases, inl, inr,
}
use marriage_be.Status.{JobStatus, job_status_eq}
use marriage_be.Db.Rows.{Job, Db}
use marriage_be.Db.Table.{find}
use marriage_be.Db.Result.{Result, ok, err, ◌>>=◌, ◌>>◌}
use marriage_be.Records.Repository.{Payload, create_record_if_missing, create_record}
use marriage_be.Jobs.Repository.{
  get_job, job_key, is_active, mark_completed, mark_cancelled, to_failed, to_completed,
  to_cancelled, store_job,
}
use marriage_be.Jobs.Service.{refresh_for}
use marriage_be.Jobs.Service.Refresh.{get_job-store_job, get_job-refresh_for, records-refresh_for}
use marriage_be.Jobs.Runner.{OcrRunResult}
use marriage_be.Jobs.Gemini.{Settings}
use marriage_be.Jobs.Processing.{
  World, import_rows, mark_failed_safe, complete_job, finish_run, by_failure, ran, live_run,
  handled, finish_cancelled, committed,
}
use marriage_be.Jobs.Processing.Steps.{get_job-mark_failed_safe, records-mark_failed_safe}

-- a chain of statements that returned
bind_ok {ℓ κ} :
    {A : Type ℓ} {B : Type κ} (m : Result A) (f : A → Result B) (b : B)
    → (m >>= f) ≡ ok b
    → (a : A) × (m ≡ ok a) × (f a ≡ ok b)
bind_ok (ok a) f b h = (a, refl, h)
bind_ok (err e) f b h = cc

then_ok {ℓ} :
    {B : Type ℓ} (m : Result (Unit {0})) (r : Result B) (b : B) → (m >> r) ≡ ok b → r ≡ ok b
then_ok (ok _) r b h = h
then_ok (err e) r b h = cc

ok_inj {ℓ} : {A : Type ℓ} {a b : A} → ok a ≡ ok b → a ≡ b
ok_inj h = cc

jobs_of : (n m : ℕ) (d e : Db) → ◌≡◌ {A = Result (ℕ × Db)} (ok (n, d)) (ok (m, e)) → e.jobs ≡ d.jobs
jobs_of n m d e h = sym (ap (λ (x : ℕ × Db). x.1.jobs) (ok_inj h))

-- Importing a row touches no job.
jobs-create_record_if_missing :
    (job_id : ℕ) (batch_id document_id : Option ℕ) (p : Payload) (id now : ℕ) (db : Db) (b : Bool)
    (d : Db)
    → create_record_if_missing job_id batch_id document_id p id now db ≡ ok (b, d)
    → d.jobs ≡ db.jobs
unfolding create_record_if_missing create_record
jobs-create_record_if_missing job_id batch_id document_id p id now db b d h = ground arith

jobs-import_rows :
    (job_id : ℕ) (batch_id document_id : Option ℕ) (fresh_id : ℕ → ℕ) (index now : ℕ)
    (ps : List Payload) (db : Db) (n : ℕ) (d : Db)
    → import_rows job_id batch_id document_id fresh_id index now ps db ≡ ok (n, d)
    → d.jobs ≡ db.jobs
unfolding import_rows
jobs-import_rows job_id batch_id document_id fresh_id index now [] db n d h = jobs_of 0 n db d h
jobs-import_rows job_id batch_id document_id fresh_id index now (p ∷ ps) db n d h =
    let ((created, db1), first, h1) =
      bind_ok (create_record_if_missing job_id batch_id document_id p (fresh_id index) now db) _
        (n, d) h in
    let ((count, db2), rest, h2) =
      bind_ok (import_rows job_id batch_id document_id fresh_id (index + 1) now ps db1) _ (n, d)
        h1 in
    jobs_of _ n db2 d h2
    ∙ (jobs-import_rows job_id batch_id document_id fresh_id (index + 1) now ps db1 count db2 rest
        ∙ jobs-create_record_if_missing job_id batch_id document_id p (fresh_id index) now db
            created db1 first)

get_job-same_jobs : (d e : Db) (k : ℕ) → d.jobs ≡ e.jobs → get_job d k ≡ get_job e k
unfolding get_job
get_job-same_jobs d e k h = ap (find job_key k) h

module _ (settings : Settings) (world : World) (job : Job) (db : Db) (j : Job)
    (stored : get_job db job.id ≡ some j) (started : j.status ≡ JobStatus.processing) where
  completed_first :
      (output : String)
      → mark_completed job.id output world.at.finished_at db
        ≡ ok (store_job job.id (to_completed output world.at.finished_at) j db)
  unfolding mark_completed
  completed_first output = ground arith

  get_job-complete_job :
      (output : String) (d : Db)
      → complete_job settings world job output db ≡ ok d
      → get_job d job.id ≡ some (to_completed output world.at.finished_at j)
  unfolding complete_job
  get_job-complete_job output d h =
      let ((c, db1), first, h1) =
        bind_ok (mark_completed job.id output world.at.finished_at db) _ d (then_ok _ _ d h) in
      let (rows, parsed, h2) = bind_ok world.imported_rows _ d h1 in
      let ((count, db2), imported, h3) =
        bind_ok
          (import_rows job.id job.batch_id job.document_id world.fresh_id 0 world.at.finished_at
            rows db1)
          _ d h2 in
      ap (λ x. get_job x job.id) (sym (ok_inj h3))
      ∙ (get_job-refresh_for job world.at.finished_at db2 job.id
          ∙ (get_job-same_jobs db2 db1 job.id (
                jobs-import_rows job.id job.batch_id job.document_id world.fresh_id 0
                  world.at.finished_at rows db1 count db2 imported)
              ∙ (ap (λ (x : Job × Db). get_job x.1 job.id)
                    (ok_inj (sym first ∙ completed_first output))
                  ∙ get_job-store_job job.id (to_completed output world.at.finished_at)
                      (unfold to_completed in λ i. refl) db j j stored)))

  -- The job is finished, and only a completed one has new records.
  abbrev IsEnded : Db → Type 0
  IsEnded db' =
      (j' : Job) × (get_job db' job.id ≡ some j')
      × (is_active j' ≡ false)
      × ((j'.status ≡ JobStatus.completed) ⊎ (db'.records ≡ db.records))

  active : is_active j ≡ true
  active = ground arith

  failed-IsEnded :
      (code message : String) (t : ℕ) → IsEnded (mark_failed_safe job.id code message t db)
  failed-IsEnded code message t = (
    to_failed code message t j,
    get_job-mark_failed_safe job.id code message t db j stored ∙ rw active refl,
    unfold to_failed in refl,
    inr (records-mark_failed_safe job.id code message t db j stored),
  )

  raised-IsEnded : IsEnded (handled world job.id (true, db))
  unfolding handled
  raised-IsEnded = failed-IsEnded _ _ world.at.failed_at

  completed-IsEnded :
      (output : String) (d : Db) → complete_job settings world job output db ≡ ok d → IsEnded d
  completed-IsEnded output d h = (
    to_completed output world.at.finished_at j,
    get_job-complete_job output d h,
    unfold to_completed in refl,
    inl (unfold to_completed in refl),
  )

  committed-IsEnded :
      (result : Result Db)
      → ((d : Db) → result ≡ ok d → IsEnded d)
      → IsEnded (handled world job.id (committed db result))
  committed-IsEnded (err e) h = raised-IsEnded
  committed-IsEnded (ok d) h = unfold handled in h d refl

  cancelled-IsEnded : (d : Db) → finish_cancelled world job db ≡ ok d → IsEnded d
  unfolding finish_cancelled mark_cancelled
  cancelled-IsEnded d h =
      let cancelled : ok (
            refresh_for job world.at.finished_at
              (store_job job.id (to_cancelled world.at.finished_at) j db).1)
          ≡ ok d =
        ground arith in
      rw (← ok_inj cancelled) (
        to_cancelled world.at.finished_at j,
        get_job-refresh_for job world.at.finished_at _ job.id
            ∙ get_job-store_job job.id (to_cancelled world.at.finished_at)
                (unfold to_cancelled in λ i. refl) db j j stored,
        unfold to_cancelled in refl,
        inr (records-refresh_for job world.at.finished_at _ ∙ unfold store_job in refl),
      )

  by_failure-IsEnded :
      (is_typed : Bool) (failure : Option String)
      → IsEnded (handled world job.id (by_failure settings world job is_typed db failure))
  unfolding by_failure
  by_failure-IsEnded is_typed none = committed-IsEnded _ (completed-IsEnded _)
  by_failure-IsEnded is_typed (some code) = unfold handled in failed-IsEnded _ _ world.at.failed_at

  finish_run-IsEnded :
      (is_typed : Bool) (result : OcrRunResult)
      → IsEnded (handled world job.id (finish_run settings world job is_typed result db))
  unfolding finish_run
  finish_run-IsEnded is_typed result = elim (Bool-cases result.cancelled) [
    | inl stop ↦ rw stop (committed-IsEnded _ cancelled-IsEnded)
    | inr ran_out ↦ rw ran_out (by_failure-IsEnded is_typed _)
  ]

  ran-IsEnded :
      (outcome : Result OcrRunResult)
      → IsEnded (handled world job.id (ran settings world job outcome db))
  unfolding ran
  ran-IsEnded (err e) = raised-IsEnded
  ran-IsEnded (ok result) = finish_run-IsEnded _ result

-- A job that is still processing when its OCR ends is neither pending nor processing after the
-- run, whatever exceptions come; and its output is imported whole or not at all: where the job did
-- not become completed, the records are those that were there when the OCR ended.
pub live_run_ends :
    (settings : Settings) (world : World) (job : Job) (db : Db) (j : Job)
    → get_job (world.during_run db) job.id ≡ some j
    → j.status ≡ JobStatus.processing
    → let db' = handled world job.id (live_run settings world job db) in
      (j' : Job) × (get_job db' job.id ≡ some j')
      × (is_active j' ≡ false)
      × ((j'.status ≡ JobStatus.completed) ⊎ (db'.records ≡ (world.during_run db).records))
unfolding live_run
live_run_ends settings world job db j stored started =
    ran-IsEnded settings world job (world.during_run db) j stored started world.run
