-- ===== src/Jobs/Lifecycle/Moves.antt =====
-- The status diagram of a job, and what the calls of the repository do to it.
use marriage_be.Prelude.{
  ℕ, Bool, true, false, some, List, [], ◌∷◌, ◌≡◌, ◌⊎◌, inl, inr, refl, nat_eq, arith,
}
use marriage_be.Status.{JobStatus, pending, processing, completed, failed, cancelled, job_status_eq}
use marriage_be.Db.Rows.{Job, Db}
use marriage_be.Jobs.Repository.{get_job}
use marriage_be.Jobs.Lifecycle.{Op, create, perform, perform_all}
use marriage_be.Jobs.Lifecycle.Rows.{effect, get_job-perform}

-- The edges of the diagram. A finished job has none, and among the calls of
-- db/repositories.py only a retry leads back to `pending`; jobs/gemini_batch.py does so too.
pub data Move : JobStatus → JobStatus → Type 0 where
  starts : Move pending processing
  completes : Move processing completed
  fails_unstarted : Move pending failed
  fails : Move processing failed
  cancels_unstarted : Move pending cancelled
  cancels : Move processing cancelled
  retries_failed : Move failed pending
  retries_cancelled : Move cancelled pending

abbrev pub MoveOrStay : JobStatus → JobStatus → Type 0
MoveOrStay s t = (s ≡ t) ⊎ Move s t

-- the edge that a changed row takes, by the status before and after
move_between : (s t : JobStatus) → Bool
move_between pending processing = true
move_between pending failed = true
move_between pending cancelled = true
move_between processing completed = true
move_between processing failed = true
move_between processing cancelled = true
move_between failed pending = true
move_between cancelled pending = true
move_between _ _ = false

edge_of : (s t : JobStatus) → move_between s t ≡ true → Move s t
unfolding move_between
edge_of pending processing h = starts
edge_of pending failed h = fails_unstarted
edge_of pending cancelled h = cancels_unstarted
edge_of processing completed h = completes
edge_of processing failed h = fails
edge_of processing cancelled h = cancels
edge_of failed pending h = retries_failed
edge_of cancelled pending h = retries_cancelled
edge_of _ _ h = cc

effect-move_between :
    (op : Op) (j : Job)
    → (j.status ≡ (effect op j).status) ⊎ (move_between j.status (effect op j).status ≡ true)
unfolding effect move_between
effect-move_between (create n now) j = inl refl
effect-move_between _ j = ground arith

as_move : (s t : JobStatus) → (s ≡ t) ⊎ (move_between s t ≡ true) → MoveOrStay s t
as_move s t (inl same) = inl same
as_move s t (inr h) = inr (edge_of s t h)

effect-batch_id : (op : Op) (j : Job) → (effect op j).batch_id ≡ j.batch_id
unfolding effect
effect-batch_id (create n now) j = refl
effect-batch_id _ j = ground arith

effect-document_id : (op : Op) (j : Job) → (effect op j).document_id ≡ j.document_id
unfolding effect
effect-document_id (create n now) j = refl
effect-document_id _ j = ground arith

effect-document_type : (op : Op) (j : Job) → (effect op j).document_type ≡ j.document_type
unfolding effect
effect-document_type (create n now) j = refl
effect-document_type _ j = ground arith

-- Whatever call is made, with whatever arguments, each stored job stays stored, keeps its batch,
-- document and type, and its status stays or moves along one edge of the diagram.
pub perform-MoveOrStay :
    (op : Op) (db : Db) (k : ℕ) (j : Job)
    → get_job db k ≡ some j
    → (j' : Job) × (get_job (perform op db) k ≡ some j')
      × MoveOrStay j.status j'.status
      × (j'.batch_id ≡ j.batch_id)
      × (j'.document_id ≡ j.document_id)
      × (j'.document_type ≡ j.document_type)
perform-MoveOrStay op db k j h = (
  effect op j,
  get_job-perform op db k j h,
  as_move j.status (effect op j).status (effect-move_between op j),
  effect-batch_id op j,
  effect-document_id op j,
  effect-document_type op j,
)

effect-completed : (op : Op) (j : Job) → j.status ≡ completed → effect op j ≡ j
unfolding effect
effect-completed (create n now) j h = refl
effect-completed _ j h = ground arith

-- A completed job is never changed again: after any calls its row, its output path and its
-- timestamps are what they were.
pub completed_is_final :
    (ops : List Op) (db : Db) (k : ℕ) (j : Job)
    → get_job db k ≡ some j
    → j.status ≡ completed
    → get_job (perform_all ops db) k ≡ some j
unfolding perform_all
completed_is_final [] db k j h done = h
completed_is_final (op ∷ ops) db k j h done =
    completed_is_final ops (perform op db) k j
      (rw (← effect-completed op j done) (get_job-perform op db k j h)) done
