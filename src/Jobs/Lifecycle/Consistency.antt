-- ===== src/Jobs/Lifecycle/Consistency.antt =====
-- Which columns of a job are set in which status.
use mathlib.Core.Path.{subst}
use marriage_be.Prelude.{
  ℕ, Bool, true, false, Option, some, List, [], ◌∷◌, ◌==◌, ◌≡◌, inl, inr, nat_eq, arith, All,
  Bool-cases, Option-cases, some_inj, none≢some, sym, ◌∙◌, is_some, not,
}
use marriage_be.Status.{JobStatus, pending, processing, completed, failed, cancelled, job_status_eq}
use marriage_be.Db.Rows.{Job, Db}
use marriage_be.Jobs.Repository.{get_job, job_row}
use marriage_be.Jobs.Lifecycle.{Op, create, start, perform, perform_all}
use marriage_be.Jobs.Lifecycle.Rows.{effect, added, get_job-perform, get_job-perform-none}

abbrev expected_started : JobStatus → Option ℕ → Bool
expected_started pending t = not (is_some t)
expected_started processing t = is_some t
expected_started completed t = is_some t
expected_started failed t = true
expected_started cancelled t = true

abbrev is_finished : JobStatus → Bool
is_finished pending = false
is_finished processing = false
is_finished completed = true
is_finished failed = true
is_finished cancelled = true

-- An output path exactly when completed, an error exactly when failed, a completion time exactly
-- when finished, a start time when processing or completed and none when pending.
pub record IsConsistent (j : Job) : Type 0 where
  pub output : is_some j.output_relative_path ≡ (j.status == completed)
  pub code : is_some j.error_code ≡ (j.status == failed)
  pub message : is_some j.error_message ≡ (j.status == failed)
  pub finished : is_some j.completed_at ≡ is_finished j.status
  pub started : expected_started j.status j.started_at ≡ true

effect-IsConsistent : (op : Op) (j : Job) → IsConsistent j → IsConsistent (effect op j)
unfolding effect
effect-IsConsistent (create n now) j h = h
effect-IsConsistent _ j h = ground arith

abbrev pub AreConsistent : Db → Type 0
AreConsistent db = (k : ℕ) (j : Job) → get_job db k ≡ some j → IsConsistent j

-- New rows are consistent: what a caller of `create_job` owes.
abbrev pub IsAdmissible : Op → Type 0
IsAdmissible (create n now) = IsConsistent (job_row n now)
IsAdmissible _ = Unit {0}

added-IsConsistent :
    (op : Op) (k : ℕ) (j : Job) → IsAdmissible op → added op k ≡ some j → IsConsistent j
unfolding added
added-IsConsistent (create n now) k j h e = elim (Bool-cases (n.id == k)) [
  | inl same ↦ subst IsConsistent (some_inj (rw same at e)) h
  | inr other ↦ absurd (none≢some (rw other at e))
]
added-IsConsistent (start _ _) k j h e = cc
added-IsConsistent _ k j h e = cc

perform-AreConsistent :
    (op : Op) (db : Db) → IsAdmissible op → AreConsistent db → AreConsistent (perform op db)
perform-AreConsistent op db new h k j e = elim (Option-cases (get_job db k)) [
  | inl missing ↦ added-IsConsistent op k j new (sym (get_job-perform-none op db k missing) ∙ e)
  | inr (i, stored) ↦
      subst IsConsistent (some_inj (sym (get_job-perform op db k i stored) ∙ e))
        (effect-IsConsistent op i (h k i stored))
]

-- If the stored jobs and the new rows are consistent, then after any calls, refused ones included,
-- so is every stored job: an output path exactly when completed, an error code and message exactly when failed, a
-- completion time exactly when finished, a start time when processing or completed, and none when
-- pending.
pub perform_all-AreConsistent :
    (ops : List Op) (db : Db)
    → All IsAdmissible ops
    → AreConsistent db
    → AreConsistent (perform_all ops db)
unfolding perform_all
perform_all-AreConsistent [] db new h = h
perform_all-AreConsistent (op ∷ ops) db new h =
    perform_all-AreConsistent ops (perform op db) new.1 (perform-AreConsistent op db new.0 h)
