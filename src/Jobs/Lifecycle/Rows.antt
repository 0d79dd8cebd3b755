-- ===== src/Jobs/Lifecycle/Rows.antt =====
-- What a call of the repository does to one row.
use marriage_be.Prelude.{
  ℕ, Bool, ◌&&◌, Option, none, some, List, [], ◌∷◌, ◌++◌, ◌==◌, ◌≡◌, refl, refers, if◌then◌else◌,
  nat_eq, arith,
}
use marriage_be.Status.{JobStatus, job_status_eq}
use marriage_be.Db.Rows.{Job, Db}
use marriage_be.Db.Table.{find}
use marriage_be.Db.Table.Laws.{find-modify, find-key, find-update_self, find-update_ne}
use marriage_be.Db.Result.{Result, ok, Error, guard, ◌>>=◌, ◌>>◌}
use marriage_be.Jobs.Repository
use marriage_be.Jobs.Repository.{
  NewJob, create_job, mark_processing, mark_completed, mark_failed, mark_pending_for_retry,
  mark_cancelled, cancel_pending_and_processing_jobs_for_batch, fail_interrupted_jobs,
  fail_stale_processing_jobs, to_processing, to_completed, to_failed, to_pending, to_cancelled,
  job_key, store_job, is_active, is_retryable, is_cancellable, is_interrupted, is_stale,
  stalled_message, sweep, require_job, get_job, found,
}
use marriage_be.Jobs.Lifecycle.{
  Op, create, start, complete, fail, retry, cancel, cancel_batch, fail_interrupted, fail_stale,
  perform, kept,
}

-- The new content of a row: the change where the call is about this row and its status allows it.
unfoldable pub effect : Op → Job → Job
unfolding to_processing to_completed to_failed to_pending to_cancelled
effect (create n now) j = j
effect (start id t) j = if j.id == id && j.status == JobStatus.pending then to_processing t j else j
effect (complete id output t) j =
    if j.id == id && j.status == JobStatus.processing then to_completed output t j else j
effect (fail id code message t) j =
    if j.id == id && is_active j then to_failed code message t j else j
effect (retry id now) j = if j.id == id && is_retryable j then to_pending now j else j
effect (cancel id t) j = if j.id == id && is_cancellable j then to_cancelled t j else j
effect (cancel_batch b t) j = if refers j.batch_id b && is_active j then to_cancelled t j else j
effect (fail_interrupted t) j =
    if is_interrupted j
    then to_failed "PROCESS_INTERRUPTED" "OCR processing was interrupted by an application restart."
        t j
    else j
effect (fail_stale now stale_after) j =
    if is_stale now stale_after j
    then to_failed "PROCESS_STALLED" (stalled_message stale_after) now j
    else j

-- a guarded change of the row with a key
guarded : ℕ → (Job → Bool) → (Job → Error) → (Job → Job) → Db → Result (Job × Db)
guarded id allowed fault change db = do
  job ← require_job db id
  guard (allowed job) (fault job)
  ok (store_job id change job db)

guarded-get_job :
    (id : ℕ) (allowed : Job → Bool) (fault : Job → Error) (change : Job → Job)
    → ((j : Job) → (change j).id ≡ j.id)
    → (db : Db) (k : ℕ) (j : Job) → get_job db k ≡ some j
    → get_job (kept db (guarded id allowed fault change db)) k
      ≡ some (if j.id == id && allowed j then change j else j)
unfolding guarded require_job store_job get_job
guarded-get_job id allowed fault change keeps db k j h = ground (
  arith,
  find-key job_key k db.jobs j,
  find-update_self job_key change keeps k db.jobs,
  find-update_ne job_key change keeps id k db.jobs,
)

swept-get_job :
    (wanted : Job → Bool) (change : Job → Job)
    → ((j : Job) → (change j).id ≡ j.id)
    → (db : Db) (k : ℕ) (j : Job) → get_job db k ≡ some j
    → get_job (sweep wanted change db).1 k ≡ some (if wanted j then change j else j)
unfolding sweep get_job
swept-get_job wanted change keeps db k j h =
    ground (arith, find-modify job_key wanted change keeps k db.jobs)

find-append_found :
    (t : List Job) (r : Job) (k : ℕ) (j : Job)
    → find job_key k t ≡ some j
    → find job_key k (t ++ r ∷ []) ≡ some j
unfolding find
find-append_found [] r k j h = cc
find-append_found (s ∷ t) r k j h = ground (arith, find-append_found t r k j)

created-get_job :
    (n : NewJob) (now : ℕ) (db : Db) (k : ℕ) (j : Job)
    → get_job db k ≡ some j
    → get_job (kept db (create_job n now db)) k ≡ some j
unfolding create_job get_job
created-get_job n now db k j h =
    ground (arith, find-append_found db.jobs (Repository.job_row n now) k j)

-- A call of the repository acts on each stored job by itself: the row with a key becomes its
-- `effect`, a refused call included, and no job disappears.
pub get_job-perform :
    (op : Op) (db : Db) (k : ℕ) (j : Job)
    → get_job db k ≡ some j
    → get_job (perform op db) k ≡ some (effect op j)
unfolding perform effect
get_job-perform (create n now) db k j h = created-get_job n now db k j h
get_job-perform (start id t) db k j h =
    unfold mark_processing guarded in guarded-get_job id _ _ (to_processing t) (λ j. refl) db k j h
get_job-perform (complete id output t) db k j h =
    unfold mark_completed guarded in
    guarded-get_job id _ _ (to_completed output t) (λ j. refl) db k j h
get_job-perform (fail id code message t) db k j h =
    unfold mark_failed guarded in
    guarded-get_job id _ _ (to_failed code message t) (λ j. refl) db k j h
get_job-perform (retry id now) db k j h =
    unfold mark_pending_for_retry guarded in
    guarded-get_job id _ _ (to_pending now) (λ j. refl) db k j h
get_job-perform (cancel id t) db k j h =
    unfold mark_cancelled guarded in guarded-get_job id _ _ (to_cancelled t) (λ j. refl) db k j h
get_job-perform (cancel_batch b t) db k j h =
    unfold cancel_pending_and_processing_jobs_for_batch in
    swept-get_job _ (to_cancelled t) (λ j. refl) db k j h
get_job-perform (fail_interrupted t) db k j h =
    unfold fail_interrupted_jobs in swept-get_job is_interrupted _ (λ j. refl) db k j h
get_job-perform (fail_stale now stale_after) db k j h =
    unfold fail_stale_processing_jobs in
    swept-get_job (is_stale now stale_after) _ (λ j. refl) db k j h

guarded-get_job-none :
    (id : ℕ) (allowed : Job → Bool) (fault : Job → Error) (change : Job → Job)
    → ((j : Job) → (change j).id ≡ j.id)
    → (db : Db) (k : ℕ) → get_job db k ≡ none
    → get_job (kept db (guarded id allowed fault change db)) k ≡ none
unfolding guarded require_job store_job get_job
guarded-get_job-none id allowed fault change keeps db k h = ground (
  arith,
  find-update_self job_key change keeps k db.jobs,
  find-update_ne job_key change keeps id k db.jobs,
)

swept-get_job-none :
    (wanted : Job → Bool) (change : Job → Job)
    → ((j : Job) → (change j).id ≡ j.id)
    → (db : Db) (k : ℕ) → get_job db k ≡ none
    → get_job (sweep wanted change db).1 k ≡ none
unfolding sweep get_job
swept-get_job-none wanted change keeps db k h =
    ground (arith, find-modify job_key wanted change keeps k db.jobs)

find-append_none :
    (t : List Job) (r : Job) (k : ℕ)
    → find job_key k t ≡ none
    → find job_key k (t ++ r ∷ []) ≡ (if r.id == k then some r else none)
unfolding find
find-append_none [] r k h = refl
find-append_none (s ∷ t) r k h = ground (arith, find-append_none t r k)

-- the row that a call adds, if it adds one with this key
unfoldable pub added : Op → ℕ → Option Job
added (create n now) k = if n.id == k then some (Repository.job_row n now) else none
added _ k = none

created-get_job-none :
    (n : NewJob) (now : ℕ) (db : Db) (k : ℕ)
    → get_job db k ≡ none
    → get_job (kept db (create_job n now db)) k
      ≡ (if n.id == k then some (Repository.job_row n now) else none)
unfolding create_job get_job
created-get_job-none n now db k h =
    ground (arith, find-append_none db.jobs (Repository.job_row n now) k)

-- Where no job is stored, a call stores none, but for the row that `create_job` adds.
pub get_job-perform-none :
    (op : Op) (db : Db) (k : ℕ) → get_job db k ≡ none → get_job (perform op db) k ≡ added op k
unfolding perform added
get_job-perform-none (create n now) db k h = created-get_job-none n now db k h
get_job-perform-none (start id t) db k h =
    unfold mark_processing guarded in
    guarded-get_job-none id _ _ (to_processing t) (λ j. refl) db k h
get_job-perform-none (complete id output t) db k h =
    unfold mark_completed guarded in
    guarded-get_job-none id _ _ (to_completed output t) (λ j. refl) db k h
get_job-perform-none (fail id code message t) db k h =
    unfold mark_failed guarded in
    guarded-get_job-none id _ _ (to_failed code message t) (λ j. refl) db k h
get_job-perform-none (retry id now) db k h =
    unfold mark_pending_for_retry guarded in
    guarded-get_job-none id _ _ (to_pending now) (λ j. refl) db k h
get_job-perform-none (cancel id t) db k h =
    unfold mark_cancelled guarded in guarded-get_job-none id _ _ (to_cancelled t) (λ j. refl) db k h
get_job-perform-none (cancel_batch b t) db k h =
    unfold cancel_pending_and_processing_jobs_for_batch in
    swept-get_job-none _ (to_cancelled t) (λ j. refl) db k h
get_job-perform-none (fail_interrupted t) db k h =
    unfold fail_interrupted_jobs in swept-get_job-none is_interrupted _ (λ j. refl) db k h
get_job-perform-none (fail_stale now stale_after) db k h =
    unfold fail_stale_processing_jobs in
    swept-get_job-none (is_stale now stale_after) _ (λ j. refl) db k h
