-- ===== src/Jobs/Processing/Steps.antt =====
-- What the single transactions of a run leave.
use marriage_be.Prelude.{
  ℕ, String, true, false, some, ◌≡◌, refl, ◌∙◌, arith, nat_eq, string_eq, if◌then◌else◌, Bool-cases,
  inl, inr,
}
use marriage_be.Status.{job_status_eq}
use marriage_be.Db.Rows.{Job, Db}
use marriage_be.Jobs.Repository.{get_job, is_active, mark_failed, to_failed, store_job}
use marriage_be.Jobs.Service.{refresh_for}
use marriage_be.Jobs.Service.Refresh.{get_job-store_job, get_job-refresh_for, records-refresh_for}
use marriage_be.Jobs.Processing.{mark_failed_safe}

module _ (id : ℕ) (code message : String) (now : ℕ) (db : Db) (j : Job)
    (stored : get_job db id ≡ some j) where
  pub mark_failed_safe_refused : is_active j ≡ false → mark_failed_safe id code message now db ≡ db
  unfolding mark_failed_safe mark_failed
  mark_failed_safe_refused h = ground arith

  mark_failed_safe_accepted :
      is_active j ≡ true
      → mark_failed_safe id code message now db
        ≡ refresh_for
            (to_failed code message now j)
            now
            (store_job id (to_failed code message now) j db).1
  unfolding mark_failed_safe mark_failed
  mark_failed_safe_accepted h = ground arith

  -- the row after `_mark_failed_safe`
  pub get_job-mark_failed_safe :
      get_job (mark_failed_safe id code message now db) id
      ≡ some (if is_active j then to_failed code message now j else j)
  get_job-mark_failed_safe = elim (Bool-cases (is_active j)) [
    | inl active ↦
        rw (mark_failed_safe_accepted active, active)
          (get_job-refresh_for (to_failed code message now j) now _ id
            ∙ get_job-store_job id (to_failed code message now) (unfold to_failed in λ i. refl) db j
                j stored)
    | inr finished ↦ rw (mark_failed_safe_refused finished, finished) stored
  ]

  pub records-mark_failed_safe : (mark_failed_safe id code message now db).records ≡ db.records
  records-mark_failed_safe = elim (Bool-cases (is_active j)) [
    | inl active ↦
        rw (mark_failed_safe_accepted active)
          (records-refresh_for (to_failed code message now j) now _ ∙ unfold store_job in refl)
    | inr finished ↦ rw (mark_failed_safe_refused finished)
  ]
