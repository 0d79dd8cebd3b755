-- ===== src/Examples/Onedrive.antt =====
-- A link that two users submit, its runs, and what becomes of its files.
use marriage_be.Prelude.{
  false, some, List, [], ◌∷◌, ◌≡◌, refl, arith, any, ◌+◌, ◌≤◌, nat_eq, string_eq,
}
use marriage_be.Status.{fetching, failed, submission_status_eq}
use marriage_be.Db.Rows.{Submission, Db}
use marriage_be.Onedrive.Repository.{get_submission, submission_row}
use marriage_be.Onedrive.Lifecycle
use marriage_be.Onedrive.Lifecycle.{Op, perform, perform_all}
use marriage_be.Onedrive.Lifecycle.Keys.{HasKeys}
use marriage_be.Onedrive.Lifecycle.Exclusive.{any_grant, live_run-alone, IsAlive-stored}
use marriage_be.Onedrive.Lifecycle.Attempts.{resume_count, resume_count-bound}
use marriage_be.Onedrive.Repository.Sweeps.{
  claim_for_fetch, resume_or_fail_stale_fetching_submissions,
}
use marriage_be.Onedrive.Service.Retries.{IsRetried, retry_submission_lem}
use marriage_be.Examples.Data.{empty}

abbrev pub waiting : Submission
waiting = submission_row 6 1 "https://1drv.ms/b" 0

abbrev pub running : Submission
running = record (submission_row 5 1 "https://1drv.ms/a" 0) { status = fetching; updated_at = 200 }

abbrev pub linked : Db
linked = record empty { submissions = running ∷ waiting ∷ [] }

pub linked-HasKeys : HasKeys linked
unfolding any
linked-HasKeys = (refl, (refl, tt))

has_started : get_submission linked 5 ≡ some running
unfolding get_submission
has_started = refl

-- another task wants the link, and the sweep looks for silent runs
abbrev meanwhile : List Op
meanwhile = Lifecycle.claim 5 700 600 ∷ Lifecycle.resume 750 600 3 ∷ []

after_claim : get_submission (perform (Lifecycle.claim 5 700 600) linked) 5 ≡ some running
unfolding get_submission perform claim_for_fetch
after_claim = refl

live_run-alone_example :
    (any_grant 5 meanwhile linked ≡ false)
    × ((t : Submission) × (get_submission (perform_all meanwhile linked) 5 ≡ some t)
        × (t.status ≡ fetching))
live_run-alone_example = live_run-alone 5 meanwhile linked running linked-HasKeys has_started refl (
  tt,
  IsAlive-stored (Lifecycle.claim 5 700 600) linked 5 running has_started (omega arith),
  (
    tt,
    IsAlive-stored (Lifecycle.resume 750 600 3) (perform (Lifecycle.claim 5 700 600) linked) 5
        running after_claim (omega arith),
    tt,
  ),
)

-- the run fell silent twice
abbrev silences : List Op
silences = Lifecycle.resume 900 600 3 ∷ Lifecycle.claim 5 950 600 ∷ Lifecycle.resume 2000 600 3 ∷ []

resume_count-bound_example :
    (t : Submission) × (get_submission (perform_all silences linked) 5 ≡ some t)
    × (t.fetch_attempts ≡ 0 + resume_count 5 silences linked)
    × (0 + resume_count 5 silences linked ≤ 3)
resume_count-bound_example =
    resume_count-bound 5 3 silences linked running linked-HasKeys has_started (omega arith)
      (refl, (tt, (refl, tt)))

twice : resume_count 5 silences linked ≡ 2
unfolding resume_count resume_or_fail_stale_fetching_submissions perform claim_for_fetch
twice = refl

abbrev broken : Submission
broken = record running { status = failed; error_code = some "ONEDRIVE_FETCH_FAILED" }

abbrev with_broken : Db
with_broken = record empty { submissions = broken ∷ [] }

is_broken : get_submission with_broken 5 ≡ some broken
unfolding get_submission
is_broken = refl

retry_submission_lem_example : IsRetried false 5 9 with_broken broken
retry_submission_lem_example = retry_submission_lem 5 9 false with_broken broken is_broken refl
