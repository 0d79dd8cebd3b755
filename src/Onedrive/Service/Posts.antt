-- ===== src/Onedrive/Service/Posts.antt =====
-- onedrive/service.py, get_or_create_submission: what submitting a link answers and stores.
use marriage_be.Prelude.{
  then_holds, else_holds, ℕ, String, Bool, true, false, Option, none, some, List, [], ◌∷◌, ◌++◌,
  ◌||◌, ◌==◌, ◌≡◌, refl, sym, ◌∙◌, ap, arith, first, is_some, ==-self, string_eq, eq_iff,
  if◌then◌else◌, Option-cases, Bool-cases, inl, inr,
}
use marriage_be.Db.Rows.{Batch, Submission, Db}
use marriage_be.Db.Result.{ok, err, integrity_error}
use marriage_be.Batches.Repository.{get_batch}
use marriage_be.Onedrive.Repository.{
  get_submission, get_submission_by_url, create_submission, submission_row, has_url,
}
use marriage_be.Onedrive.Service.{get_or_create_submission}

-- what the lookup by URL yields after the table of links was asked for `url`
abbrev find_or_insert :
    (url : String) → Submission → (String → Option Submission) → String → Option Submission
find_or_insert url s table u = if url == u then some s else table u

first-append :
    (u : String) (t : List Submission) (r : Submission)
    → (r.url == u) ≡ false
    → first (has_url u) (t ++ r ∷ []) ≡ first (has_url u) t
unfolding first
first-append u [] r other = ground (arith, other)
first-append u (x ∷ t) r other = ground (arith, first-append u t r other)

first-append_new :
    (u : String) (t : List Submission) (r : Submission)
    → (r.url == u) ≡ true
    → first (has_url u) t ≡ none
    → first (has_url u) (t ++ r ∷ []) ≡ some r
unfolding first
first-append_new u [] r same h = ground (arith, same)
first-append_new u (x ∷ t) r same h = ground (arith, first-append_new u t r same)

first_url :
    (u : String) (t : List Submission) {s : Submission} → first (has_url u) t ≡ some s → s.url ≡ u
unfolding first
first_url u [] h = cc
first_url u (x ∷ t) h = grind (arith, eq_iff x.url u, first_url u t)

by_url : (db : Db) (u : String) {s : Submission} → get_submission_by_url db u ≡ some s → s.url ≡ u
unfolding get_submission_by_url
by_url db u h = first_url u db.submissions h

-- The link was known: nothing is written.
known :
    (url : String) (db : Db) (s : Submission) (u : String)
    → get_submission_by_url db url ≡ some s
    → get_submission_by_url db u ≡ find_or_insert url s (get_submission_by_url db) u
known url db s u h = elim (Bool-cases (url == u)) [
  | inr other ↦ rw other refl
  | inl same ↦ rw same (ap (get_submission_by_url db) (sym ((eq_iff url u).0 same)) ∙ h)
]

inserted :
    (batch_id : ℕ) (url : String) (id now : ℕ) (db : Db) (u : String)
    → get_submission_by_url db url ≡ none
    → get_submission_by_url
        (record db { submissions = db.submissions ++ submission_row id batch_id url now ∷ [] })
        u
      ≡ find_or_insert url (submission_row id batch_id url now) (get_submission_by_url db) u
unfolding get_submission_by_url
inserted batch_id url id now db u h = elim (Bool-cases (url == u)) [
  | inr other ↦ rw other (first-append u db.submissions (submission_row id batch_id url now) other)
  | inl same ↦ rw same (
      first-append_new u db.submissions (submission_row id batch_id url now) same
        (ap (get_submission_by_url db) (sym ((eq_iff url u).0 same)) ∙ h))
]

-- the database that the answer is about: the caller's, or what other sessions made of it
abbrev pub seen : (url : String) (meanwhile : Db → Db) → Db → Db
seen url meanwhile db = if is_some (get_submission_by_url db url) then db else meanwhile db

-- The answer to a POST of `url`: the submission and the database that comes back.
abbrev pub IsPosted :
    (batch_id : ℕ) (url : String) (id now : ℕ) (meanwhile : Db → Db)
    → Db
    → Submission
    → Bool
    → Db
    → Type 0
IsPosted batch_id url id now meanwhile db s created db' =
    (get_or_create_submission batch_id url id now meanwhile db ≡ ok ((s, created), db'))
    × (s.url ≡ url)
    × ((u : String)
        → get_submission_by_url db' u
          ≡ find_or_insert url s (get_submission_by_url (seen url meanwhile db)) u)

posted_again :
    (batch_id : ℕ) (url : String) (id now : ℕ) (meanwhile : Db → Db) (db : Db) (s : Submission)
    → get_submission_by_url db url ≡ some s
    → get_or_create_submission batch_id url id now meanwhile db ≡ ok ((s, false), db)
unfolding get_or_create_submission
posted_again batch_id url id now meanwhile db s h = rw (get_or_create_submission, h) refl

-- The answer, and that a further POST of the link, to any batch, gives the same one.
abbrev pub IsAnswered :
    (batch_id : ℕ) (url : String) (id now : ℕ) (meanwhile : Db → Db)
    → Db
    → (batch_id' id' now' : ℕ) (meanwhile' : Db → Db) → Type 0
IsAnswered batch_id url id now meanwhile db batch_id' id' now' meanwhile' =
    (s : Submission) × (created : Bool) × (db' : Db) × IsPosted batch_id url id now meanwhile db s
      created db'
    × (get_or_create_submission batch_id' url id' now' meanwhile' db' ≡ ok ((s, false), db'))

-- The link is known, or became known meanwhile, or the batch is still there for a new row.
abbrev pub can_post : (batch_id : ℕ) (url : String) (meanwhile : Db → Db) → Db → Bool
can_post batch_id url meanwhile db =
    is_some (get_submission_by_url db url)
    || is_some (get_submission_by_url (meanwhile db) url)
    || is_some (get_batch (meanwhile db) batch_id)

module _ (batch_id : ℕ) (url : String) (id now : ℕ) (meanwhile : Db → Db) (db : Db)
    (fresh : get_submission (meanwhile db) id ≡ none) (batch_id' id' now' : ℕ)
    (meanwhile' : Db → Db) where
  abbrev Answer : Type 0
  Answer = IsAnswered batch_id url id now meanwhile db batch_id' id' now' meanwhile'

  answered :
      (s : Submission) (created : Bool) (db' : Db)
      → IsPosted batch_id url id now meanwhile db s created db'
      → Answer
  answered s created db' done = (
    s,
    created,
    db',
    done,
    posted_again batch_id' url id' now' meanwhile' db' s (done.2 url ∙ (rw (==-self url) refl)),
  )

  answered_known : (s : Submission) → get_submission_by_url db url ≡ some s → Answer
  answered_known s h = answered s false db (
    posted_again batch_id url id now meanwhile db s h,
    by_url db url h,
    λ u. rw h (known url db s u h),
  )

  answered_raced :
      (s : Submission)
      → get_submission_by_url db url ≡ none
      → get_submission_by_url (meanwhile db) url ≡ some s
      → Answer
  unfolding get_or_create_submission create_submission
  answered_raced s h raced = answered s false (meanwhile db) (
    rw (get_or_create_submission, h, create_submission, fresh, raced) refl,
    by_url (meanwhile db) url raced,
    λ u. rw h (known url (meanwhile db) s u raced),
  )

  answered_new :
      (b : Batch)
      → get_submission_by_url db url ≡ none
      → get_submission_by_url (meanwhile db) url ≡ none
      → get_batch (meanwhile db) batch_id ≡ some b
      → Answer
  unfolding get_or_create_submission create_submission
  answered_new b h free there =
      answered (submission_row id batch_id url now) true
        (record (meanwhile db) {
          submissions = (meanwhile db).submissions ++ submission_row id batch_id url now ∷ [];
        })
        (
          rw (get_or_create_submission, h, create_submission, fresh, free, there) refl,
          refl,
          λ u. rw h (inserted batch_id url id now (meanwhile db) u free),
        )

  raised :
      get_submission_by_url db url ≡ none
      → get_submission_by_url (meanwhile db) url ≡ none
      → get_batch (meanwhile db) batch_id ≡ none
      → get_or_create_submission batch_id url id now meanwhile db ≡ err integrity_error
  unfolding get_or_create_submission create_submission
  raised h free gone = rw (get_or_create_submission, h, create_submission, fresh, free, gone) refl

  -- A POST of a link, whatever other sessions commit between its lookup and its INSERT, if the id
  -- from `uuid4` is new then. If the link was known or became known, or the batch is still there, it
  -- implements "find or insert" on the table from links to submissions: it answers with a
  -- submission of that link, which every later lookup of the link yields, the entries of the other
  -- links stay, and a further POST of the link, to any batch, answers with the same submission and
  -- changes nothing. Otherwise, the batch having been deleted, the IntegrityError is raised.
  pub get_or_create_submission-find_or_insert :
      if can_post batch_id url meanwhile db
      then IsAnswered batch_id url id now meanwhile db batch_id' id' now' meanwhile'
      else get_or_create_submission batch_id url id now meanwhile db ≡ err integrity_error
  get_or_create_submission-find_or_insert = elim (Option-cases (get_submission_by_url db url)) [
    | inr (s, h) ↦
        then_holds (can_post batch_id url meanwhile db) _ _ (rw h refl) (answered_known s h)
    | inl h ↦ elim (Option-cases (get_submission_by_url (meanwhile db) url)) [
      | inr (s, raced) ↦
          then_holds (can_post batch_id url meanwhile db) _ _ (rw (h, raced) refl)
            (answered_raced s h raced)
      | inl free ↦ elim (Option-cases (get_batch (meanwhile db) batch_id)) [
        | inr (b, there) ↦
            then_holds (can_post batch_id url meanwhile db) _ _ (rw (h, free, there) refl)
              (answered_new b h free there)
        | inl gone ↦
            else_holds (can_post batch_id url meanwhile db) _ _ (rw (h, free, gone) refl)
              (raised h free gone)
      ]
    ]
  ]
