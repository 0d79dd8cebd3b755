-- ===== src/Db/Result.antt =====
-- The exceptions that the program raises, and functions that may raise one. A function that
-- changes the database and may raise returns the new database in its result; a raise leaves the
-- caller with the database that it had.
use marriage_be.Prelude.{ℕ, String, Bool, true, false, ◌≡◌, refl, ◌⊎◌, inl, inr}
use marriage_be.Status.{JobStatus}

-- Why a job cannot change its status: the messages of `JobTransitionError`.
pub data TransitionFault : Type 0 where
  does_not_exist not_pending not_processing not_failed_or_cancelled : TransitionFault
  cannot_fail cannot_be_cancelled : JobStatus → TransitionFault

pub data Error : Type 0 where
  job_transition : TransitionFault → Error
  record_not_found record_conflict record_exists : Error
  lookup_error integrity_error value_error : Error
  api_error upload_validation_error : (http_status : ℕ) (code : String) → Error
  foreign : String → Error

-- what a call returns, or the exception that it raises
pub data Result {ℓ} (R : Type ℓ) : Type ℓ where
  ok : R → Result R
  err : Error → Result R

-- `if not condition: raise error`
abbrev pub guard : (condition : Bool) → (error : Error) → Result (Unit {0})
guard condition error = elim condition [ true ↦ ok tt | false ↦ err error ]

-- The next statement runs only if this one did not raise.
infixl 10 ◌>>=◌ ◌>>◌
abbrev pub ◌>>=◌ {ℓ κ} : {R : Type ℓ} {S : Type κ} → Result R → (R → Result S) → Result S
err error >>= next = err error
ok r >>= next = next r

abbrev pub ◌>>◌ {ℓ} : {R : Type ℓ} → Result (Unit {0}) → Result R → Result R
err error >> next = err error
ok _ >> next = next

-- To split on a computed result and keep the equation.
pub Result-cases {ℓ} :
    {R : Type ℓ} (r : Result R) → ((a : R) × (r ≡ ok a)) ⊎ ((e : Error) × (r ≡ err e))
Result-cases (ok a) = inl (a, refl)
Result-cases (err e) = inr (e, refl)
