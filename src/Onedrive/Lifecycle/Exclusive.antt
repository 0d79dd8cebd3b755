-- ===== src/Onedrive/Lifecycle/Exclusive.antt =====
-- onedrive/repositories.py: which runs a submission has under the claims.
use mathlib.Core.Path.{subst}
use marriage_be.Prelude.{
  ℕ, ◌+◌, ◌≤◌, Bool, false, ◌&&◌, ◌||◌, some, List, [], ◌∷◌, ◌==◌, ◌≡◌, refl, sym, ◌∙◌, ap, arith,
  nat_eq, Bool-cases, inl, inr, some_inj,
}
use marriage_be.Status.{fetching, submission_status_eq}
use marriage_be.Db.Rows.{Submission, Db}
use marriage_be.Db.Table.Keys.{any-key, found_and}
use marriage_be.Db.Table.Laws.{find-key}
use marriage_be.Onedrive.Repository.{submission_key, get_submission, to_fetching, to_pending}
use marriage_be.Onedrive.Repository.Skipped.{with_item, without_item}
use marriage_be.Onedrive.Repository.Sweeps.{claim_for_fetch, can_claim, touched, resume_or_fail}
use marriage_be.Onedrive.Lifecycle
use marriage_be.Onedrive.Lifecycle.{Op, perform, perform_all}
use marriage_be.Onedrive.Lifecycle.Keys.{HasKeys, perform-HasKeys}
use marriage_be.Onedrive.Lifecycle.Rows.{IsKeeping, after, reaches, makes, get_submission-perform}

-- The run of submission `k` does not end in the operation, and the submission is not deleted.
abbrev IsOthers : ℕ → Op → Type 0
IsOthers k (Lifecycle.fetched i skipped now) = (k == i) ≡ false
IsOthers k (Lifecycle.restore i now) = (k == i) ≡ false
IsOthers k (Lifecycle.fail i code message now) = (k == i) ≡ false
IsOthers k (Lifecycle.delete i) = (k == i) ≡ false
IsOthers k _ = Unit {0}

-- Where the operation looks for silent runs, the row was touched within the interval.
abbrev IsAlive : Op → Submission → Type 0
IsAlive (Lifecycle.claim i now stale_after) s = now ≤ s.updated_at + stale_after
IsAlive (Lifecycle.resume now stale_after max_attempts) s = now ≤ s.updated_at + stale_after
IsAlive (Lifecycle.fail_stale now stale_after) s = now ≤ s.updated_at + stale_after
IsAlive _ s = Unit {0}

-- each operation at its turn
abbrev AreOthers : ℕ → List Op → Db → Type 0
AreOthers k [] db = Unit {0}
AreOthers k (op ∷ ops) db =
    IsOthers k op
    × ((s : Submission) → get_submission db k ≡ some s → IsAlive op s)
    × AreOthers k ops (perform op db)

-- the operation is a claim of submission `k`, and is granted
unfoldable grants : ℕ → Op → Db → Bool
grants k (Lifecycle.claim i now stale_after) db = i == k && (claim_for_fetch i now stale_after db).0
grants k _ db = false

unfoldable pub any_grant : ℕ → List Op → Db → Bool
unfolding grants
any_grant k [] db = false
any_grant k (op ∷ ops) db = grants k op db || any_grant k ops (perform op db)

IsOthers-IsKeeping : (k : ℕ) (op : Op) → IsOthers k op → IsKeeping k op
IsOthers-IsKeeping k (Lifecycle.delete i) h = h
IsOthers-IsKeeping k _ h = tt

after-fetching :
    (k : ℕ) (op : Op) (s : Submission)
    → s.id ≡ k
    → s.status ≡ fetching
    → IsOthers k op
    → IsAlive op s
    → (after op s).status ≡ fetching
unfolding reaches makes to_fetching to_pending with_item without_item touched resume_or_fail
after-fetching k (Lifecycle.create b url i now) s e h others alive = h
after-fetching k (Lifecycle.begin i now) s e h others alive = ground (arith, h)
after-fetching k (Lifecycle.fetched i skipped now) s e h others alive = rw (e, others) h
after-fetching k (Lifecycle.restore i now) s e h others alive = rw (e, others) h
after-fetching k (Lifecycle.fail i code message now) s e h others alive = rw (e, others) h
after-fetching k (Lifecycle.retry i now) s e h others alive = ground (arith, h)
after-fetching k (Lifecycle.change i filename changes now) s e h others alive = ground (arith, h)
after-fetching k (Lifecycle.drop i filename now) s e h others alive = ground (arith, h)
after-fetching k (Lifecycle.claim i now stale_after) s e h others alive = ground (arith, h)
after-fetching k (Lifecycle.beat i now) s e h others alive = ground (arith, h)
after-fetching k (Lifecycle.resume now stale_after m) s e h others alive = ground (arith, h)
after-fetching k (Lifecycle.requeue now pending_after) s e h others alive = ground (arith, h)
after-fetching k (Lifecycle.fail_stale now stale_after) s e h others alive = ground (arith, h)
after-fetching k (Lifecycle.delete i) s e h others alive = h

-- A claim is granted by the one row that a lookup finds.
pub claim_for_fetch_lem :
    (k now stale_after : ℕ) (db : Db) (s : Submission)
    → HasKeys db
    → get_submission db k ≡ some s
    → (claim_for_fetch k now stale_after db).0 ≡ can_claim now stale_after s
unfolding claim_for_fetch get_submission
claim_for_fetch_lem k now stale_after db s keys stored =
    any-key submission_key (can_claim now stale_after) k db.submissions keys
    ∙ ap (found_and submission_key (can_claim now stale_after)) stored

cannot_claim :
    (now stale_after : ℕ) (s : Submission)
    → s.status ≡ fetching
    → now ≤ s.updated_at + stale_after
    → can_claim now stale_after s ≡ false
cannot_claim now stale_after s h alive = ground (arith, h)

no_claim :
    (k i now stale_after : ℕ) (db : Db) (s : Submission)
    → HasKeys db
    → get_submission db k ≡ some s
    → s.status ≡ fetching
    → now ≤ s.updated_at + stale_after
    → (i == k && (claim_for_fetch i now stale_after db).0) ≡ false
no_claim k i now stale_after db s keys stored h alive = elim (Bool-cases (i == k)) [
  | inr other ↦ rw other refl
  | inl same ↦
      rw (same, (nat_eq.equal_iff i k).0 same)
        (claim_for_fetch_lem k now stale_after db s keys stored
          ∙ cannot_claim now stale_after s h alive)
]

no_grant :
    (k : ℕ) (op : Op) (db : Db) (s : Submission)
    → HasKeys db
    → get_submission db k ≡ some s
    → s.status ≡ fetching
    → IsAlive op s
    → grants k op db ≡ false
unfolding grants
no_grant k (Lifecycle.claim i now stale_after) db s keys stored h alive =
    no_claim k i now stale_after db s keys stored h alive
no_grant k (Lifecycle.create b url i now) db s keys stored h alive = refl
no_grant k (Lifecycle.begin i now) db s keys stored h alive = refl
no_grant k (Lifecycle.fetched i skipped now) db s keys stored h alive = refl
no_grant k (Lifecycle.restore i now) db s keys stored h alive = refl
no_grant k (Lifecycle.fail i code message now) db s keys stored h alive = refl
no_grant k (Lifecycle.retry i now) db s keys stored h alive = refl
no_grant k (Lifecycle.change i filename changes now) db s keys stored h alive = refl
no_grant k (Lifecycle.drop i filename now) db s keys stored h alive = refl
no_grant k (Lifecycle.beat i now) db s keys stored h alive = refl
no_grant k (Lifecycle.resume now stale_after m) db s keys stored h alive = refl
no_grant k (Lifecycle.requeue now pending_after) db s keys stored h alive = refl
no_grant k (Lifecycle.fail_stale now stale_after) db s keys stored h alive = refl
no_grant k (Lifecycle.delete i) db s keys stored h alive = refl

pub id_of : (k : ℕ) (db : Db) (s : Submission) → get_submission db k ≡ some s → s.id ≡ k
unfolding get_submission
id_of k db s stored = find-key submission_key k db.submissions s stored

-- Where the submissions have distinct ids, the run of a FETCHING submission has it to
-- itself: whatever operations follow, in any order,
-- as long as each that looks for silent runs comes within its interval after the row was last
-- touched, and the run itself has not ended and the submission is not deleted, no other claim is
-- granted, and the submission is still FETCHING.
pub live_run-alone :
    (k : ℕ) (ops : List Op) (db : Db) (s : Submission)
    → HasKeys db
    → get_submission db k ≡ some s
    → s.status ≡ fetching
    → AreOthers k ops db
    → (any_grant k ops db ≡ false)
      × ((t : Submission) × (get_submission (perform_all ops db) k ≡ some t)
          × (t.status ≡ fetching))
unfolding any_grant perform_all
live_run-alone k [] db s keys stored h others = (refl, (s, stored, h))
live_run-alone k (op ∷ ops) db s keys stored h (other, alive, others) =
    let next =
      live_run-alone k ops (perform op db) (after op s) (perform-HasKeys op db keys)
        (get_submission-perform op db k s (IsOthers-IsKeeping k op other) stored)
        (after-fetching k op s (id_of k db s stored) h other (alive s stored)) others in
    (rw (no_grant k op db s keys stored h (alive s stored)) next.0, next.1)

-- What is stored decides whether an operation finds the run alive.
pub IsAlive-stored :
    (op : Op) (db : Db) (k : ℕ) (s0 : Submission)
    → get_submission db k ≡ some s0
    → IsAlive op s0
    → (s : Submission) → get_submission db k ≡ some s
    → IsAlive op s
IsAlive-stored op db k s0 h alive s g = subst (IsAlive op) (some_inj (sym h ∙ g)) alive
