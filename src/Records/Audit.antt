-- ===== src/Records/Audit.antt =====
-- Whole histories as an invariant of every sequence of creations, corrections, approvals and
-- deletions of records.
use mathlib.Core.Path.{subst}
use marriage_be.Prelude.{
  ℕ, String, false, Option, none, some, List, [], ◌∷◌, ◌++◌, ◌==◌, ◌≡◌, ◌⊎◌, refl, sym, ◌∙◌, ap,
  nat_eq, arith, map, select, Option-cases, Bool-cases, inl, inr, some_inj, none≢some,
}
use marriage_be.Db.Rows.{OcrRecord, Revision, Fields, Db}
use marriage_be.Db.Table.{find, delete}
use marriage_be.Db.Table.Laws.{find-key}
use marriage_be.Db.Result.{Result, ok, err}
use marriage_be.Records.Repository.{
  NewRecord, record_key, get_record, is_revision_of, create_record, record_row, first_with_key,
  is_none, can_insert,
}
use marriage_be.Records.Service.{apply_correction, approve_record, delete_record}
use marriage_be.Records.History.{HasHistory, IsAudited, history}
use marriage_be.Records.Review.{apply_correction_accepted, approve_record_accepted, review_conflict}

-- A call of the repository or the service with its arguments.
pub data Op : Type 0 where
  create : NewRecord → (id now : ℕ) → Op
  correct :
      (record_id expected_version : ℕ) → Fields → (reviewer note : Option String) (now : ℕ) → Op
  approve : (record_id expected_version : ℕ) → (reviewer note : Option String) (now : ℕ) → Op
  remove : (record_id : ℕ) → Op

abbrev kept : Db → Result (OcrRecord × Db) → Db
kept db (ok (r, db')) = db'
kept db (err e) = db

abbrev kept_db : Db → Result Db → Db
kept_db db (ok db') = db'
kept_db db (err e) = db

-- The database after a call; a call that raises leaves it as it was.
unfoldable pub perform : Op → Db → Db
perform (create n id now) db = kept db (create_record n id now db)
perform (correct id expected values reviewer note now) db =
    kept db (apply_correction id expected values reviewer note now db)
perform (approve id expected reviewer note now) db =
    kept db (approve_record id expected reviewer note now db)
perform (remove id) db = kept_db db (delete_record id db)

unfoldable pub perform_all : List Op → Db → Db
perform_all [] db = db
perform_all (op ∷ ops) db = perform_all ops (perform op db)

-- A new record is at version 1, and its id from `uuid4` is no revision's.
abbrev pub IsAdmissible : Op → Db → Type 0
IsAdmissible (create n id now) db = (n.version ≡ 1) × (history db id ≡ [])
IsAdmissible _ db = Unit {0}

-- each call at its turn
abbrev pub AreAdmissible : List Op → Db → Type 0
AreAdmissible [] db = Unit {0}
AreAdmissible (op ∷ ops) db = IsAdmissible op db × AreAdmissible ops (perform op db)

module _ (db : Db) (audited : IsAudited db) where
  corrected-IsAudited :
      (id expected : ℕ) (values : Fields) (reviewer note : Option String) (now : ℕ)
      → IsAudited (kept db (apply_correction id expected values reviewer note now db))
  corrected-IsAudited id expected values reviewer note now =
      elim (Option-cases (get_record db id)) [
        | inl missing ↦
            let refused : kept db (apply_correction id expected values reviewer note now db) ≡ db =
              unfold apply_correction in ground arith in
            rw refused audited
        | inr (r, stored) ↦ elim (Bool-cases (r.version == expected)) [
          | inl same ↦
              let (db', accepted, after) =
                apply_correction_accepted db id r reviewer note now audited stored values in
              rw (← (nat_eq.equal_iff r.version expected).0 same, accepted) after.audited
          | inr stale ↦
              rw (review_conflict db id expected r reviewer note now stored stale values).0 audited
        ]
      ]

  approved-IsAudited :
      (id expected : ℕ) (reviewer note : Option String) (now : ℕ)
      → IsAudited (kept db (approve_record id expected reviewer note now db))
  approved-IsAudited id expected reviewer note now = elim (Option-cases (get_record db id)) [
    | inl missing ↦
        let refused : kept db (approve_record id expected reviewer note now db) ≡ db =
          unfold approve_record in ground arith in
        rw refused audited
    | inr (r, stored) ↦ elim (Bool-cases (r.version == expected)) [
      | inl same ↦
          let (db', accepted, after) =
            approve_record_accepted db id r reviewer note now audited stored in
          rw (← (nat_eq.equal_iff r.version expected).0 same, accepted) after.audited
      | inr stale ↦
          rw (review_conflict db id expected r reviewer note now stored stale []).1 audited
    ]
  ]

select-delete_ne :
    (id k : ℕ) (vs : List Revision)
    → (id == k) ≡ false
    → select (is_revision_of k) (delete (is_revision_of id) vs) ≡ select (is_revision_of k) vs
unfolding select delete is_revision_of
select-delete_ne id k [] ne = refl
select-delete_ne id k (v ∷ vs) ne = ground (arith, select-delete_ne id k vs ne)

-- a record that is found after a deletion is another one that was there
find-removed :
    (id k : ℕ) (rs : List OcrRecord) (r : OcrRecord)
    → find record_key k (delete (λ (x : OcrRecord). x.id == id) rs) ≡ some r
    → (find record_key k rs ≡ some r) × ((id == k) ≡ false)
unfolding find delete select
find-removed id k [] r h = cc
find-removed id k (s ∷ rs) r h = ground (arith, find-removed id k rs r)

-- a record that is found among one more
find-added :
    (k : ℕ) (rs : List OcrRecord) (new r : OcrRecord)
    → find record_key k (rs ++ new ∷ []) ≡ some r
    → (find record_key k rs ≡ some r) ⊎ ((find record_key k rs ≡ none) × (r ≡ new) × (new.id ≡ k))
unfolding find
find-added k [] new r h = elim (Bool-cases (new.id == k)) [
  | inl same ↦ inr (refl, sym (some_inj (rw same at h)), (nat_eq.equal_iff new.id k).0 same)
  | inr other ↦ absurd (none≢some (rw other at h))
]
find-added k (s ∷ rs) new r h = elim (Bool-cases (s.id == k)) [
  | inl same ↦ inl (rw same (rw same at h))
  | inr other ↦ rw other (find-added k rs new r (rw other at h))
]

HasHistory-same :
    (db db' : Db) (r : OcrRecord)
    → history db' r.id ≡ history db r.id
    → HasHistory db r
    → HasHistory db' r
HasHistory-same db db' r same h = record { versioned = h.versioned; complete = same ∙ h.complete }

abbrev without : ℕ → Db → Db
without id db = record db {
  records = delete (λ (x : OcrRecord). x.id == id) db.records;
  revisions = delete (is_revision_of id) db.revisions;
}

abbrev with_record : OcrRecord → Db → Db
with_record new db = record db { records = db.records ++ new ∷ [] }

module _ (db : Db) (audited : IsAudited db) where
  without-IsAudited : (id : ℕ) → IsAudited (without id db)
  unfolding get_record
  without-IsAudited id k r h =
      let (old, ne) = find-removed id k db.records r h in
      let self : r.id ≡ k = find-key record_key k db.records r old in
      HasHistory-same db (without id db) r
        (ap (map (λ (v : Revision). v.version))
          (select-delete_ne id r.id db.revisions (rw self ne)))
        (audited k r old)

  removed-IsAudited : (id : ℕ) → IsAudited (kept_db db (delete_record id db))
  removed-IsAudited id = elim (Option-cases (get_record db id)) [
    | inl missing ↦
        let same : kept_db db (delete_record id db) ≡ db = unfold delete_record in ground arith in
        rw same audited
    | inr (r, stored) ↦
        let same : kept_db db (delete_record id db) ≡ without id db =
          unfold delete_record in ground arith in
        rw same (without-IsAudited id)
  ]

  with_record-IsAudited :
      (new : OcrRecord) → new.version ≡ 1 → history db new.id ≡ [] → IsAudited (with_record new db)
  unfolding get_record
  with_record-IsAudited new first unrevised k r h = elim (find-added k db.records new r h) [
    | inl old ↦ HasHistory-same db (with_record new db) r refl (audited k r old)
    | inr (fresh, same, id) ↦
        subst (HasHistory (with_record new db)) (sym same)
          (record { versioned = omega (arith, first); complete = unrevised ∙ rw first refl })
  ]

  created-IsAudited :
      (n : NewRecord) (id now : ℕ)
      → IsAdmissible (create n id now) db
      → IsAudited (kept db (create_record n id now db))
  created-IsAudited n id now (first, unrevised) =
      elim (Bool-cases (is_none (first_with_key n.key db.records))) [
        | inl new ↦ elim (Bool-cases (can_insert n id db)) [
          | inl fits ↦
              let same : kept db (create_record n id now db)
                  ≡ with_record (record_row n id now) db =
                unfold create_record in ground arith in
              rw same (
                with_record-IsAudited (record_row n id now) (unfold record_row in first)
                  (unfold record_row in unrevised))
          | inr refused ↦
              let same : kept db (create_record n id now db) ≡ db =
                unfold create_record in ground arith in
              rw same audited
        ]
        | inr there ↦
            let same : kept db (create_record n id now db) ≡ db =
              unfold create_record in ground arith in
            rw same audited
      ]

  perform-IsAudited : (op : Op) → IsAdmissible op db → IsAudited (perform op db)
  unfolding perform
  perform-IsAudited (create n id now) h = created-IsAudited n id now h
  perform-IsAudited (correct id expected values reviewer note now) h =
      corrected-IsAudited db audited id expected values reviewer note now
  perform-IsAudited (approve id expected reviewer note now) h =
      approved-IsAudited db audited id expected reviewer note now
  perform-IsAudited (remove id) h = removed-IsAudited id

-- If each new record is at version 1 and its id is on no revision, then whole histories are kept
-- by any sequence of creations, corrections, approvals and deletions, refused ones included: a
-- record at version n has the revisions 2, ..., n, one of each, in this order.
pub perform_all-IsAudited :
    (ops : List Op) (db : Db) → AreAdmissible ops db → IsAudited db → IsAudited (perform_all ops db)
unfolding perform_all
perform_all-IsAudited [] db h audited = audited
perform_all-IsAudited (op ∷ ops) db h audited =
    perform_all-IsAudited ops (perform op db) h.1 (perform-IsAudited db audited op h.0)
