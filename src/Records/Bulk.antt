-- ===== src/Records/Bulk.antt =====
-- Approving many records at once.
use mathlib.Core.Path.{subst}
use marriage_be.Prelude.{
  ℕ, String, true, false, Option, none, some, List, [], ◌∷◌, ◌==◌, ◌≡◌, refl, sym, ◌∙◌, nat_eq,
  arith, Bool-cases, Option-cases, inl, inr, mem, All, is_some, true≢false,
}
use marriage_be.Status.{approved, record_status_eq}
use marriage_be.Db.Rows.{OcrRecord, Db}
use marriage_be.Db.Result.{ok}
use marriage_be.Records.Repository.{get_record}
use marriage_be.Records.Service.{approve_record, bulk_approve_records, reviewed}
use marriage_be.Records.History.{IsAudited}
use marriage_be.Records.Review.{IsReviewed, approve_record_accepted, approved_row}

-- The record is stored and approved.
abbrev IsApproved : Db → ℕ → Type 0
IsApproved db k = (r : OcrRecord) × (get_record db k ≡ some r) × (r.status ≡ approved)

abbrev pub IsStored : Db → ℕ → Type 0
IsStored db k = is_some (get_record db k) ≡ true

status-approved_row :
    (reviewer : Option String) (now : ℕ) (r : OcrRecord)
    → (approved_row reviewer now r).status ≡ approved
unfolding reviewed
status-approved_row reviewer now r =
    ground (arith, (record_status_eq.equal_iff r.status approved).0)

-- what the rest of the list relies on, after one record was approved
module _ (db db' : Db) (id : ℕ) (r : OcrRecord) (done : r.status ≡ approved)
    (step : IsReviewed id r db db') where
  IsStored-step : (k : ℕ) → IsStored db k → IsStored db' k
  IsStored-step k h = elim (Bool-cases (id == k)) [
    | inl same ↦ subst (IsStored db') ((nat_eq.equal_iff id k).0 same) (rw step.stored refl)
    | inr other ↦ rw (step.others k other) h
  ]

  IsApproved-self : IsApproved db' id
  IsApproved-self = (r, step.stored, done)

  IsApproved-step : (k : ℕ) → IsApproved db k → IsApproved db' k
  IsApproved-step k (x, stored, status) = elim (Bool-cases (id == k)) [
    | inl same ↦ subst (IsApproved db') ((nat_eq.equal_iff id k).0 same) IsApproved-self
    | inr other ↦ (x, step.others k other ∙ stored, status)
  ]

  All-IsStored : (ks : List ℕ) → All (IsStored db) ks → All (IsStored db') ks
  All-IsStored [] h = tt
  All-IsStored (k ∷ ks) h = (IsStored-step k h.0, All-IsStored ks h.1)

-- What approving the listed records leaves.
pub record AreApproved (ids : List ℕ) (db db' : Db) : Type 0 where
  pub approved : (k : ℕ) → mem k ids ≡ true → IsApproved db' k
  pub kept : (k : ℕ) → IsApproved db k → IsApproved db' k
  pub others : (k : ℕ) → mem k ids ≡ false → get_record db' k ≡ get_record db k
  pub audited : IsAudited db'

bulk_step :
    (id : ℕ) (ids : List ℕ) (reviewer : Option String) (now : ℕ) (db db1 db2 : Db) (r a : OcrRecord)
    (rs : List OcrRecord)
    → get_record db id ≡ some r
    → approve_record id r.version reviewer none now db ≡ ok (a, db1)
    → bulk_approve_records ids reviewer now db1 ≡ ok (rs, db2)
    → bulk_approve_records (id ∷ ids) reviewer now db ≡ ok (a ∷ rs, db2)
unfolding bulk_approve_records
bulk_step id ids reviewer now db db1 db2 r a rs stored first rest = ground arith

AreApproved-step :
    (id : ℕ) (ids : List ℕ) (db db1 db2 : Db) (a : OcrRecord)
    → a.status ≡ approved
    → IsReviewed id a db db1
    → AreApproved ids db1 db2
    → AreApproved (id ∷ ids) db db2
AreApproved-step id ids db db1 db2 a done step rest = record {
  approved = λ k m. elim (Bool-cases (id == k)) [
    | inl same ↦ rest.kept k (
        subst (IsApproved db1) ((nat_eq.equal_iff id k).0 same)
          (IsApproved-self db db1 id a done step))
    | inr other ↦ rest.approved k (rw other at m)
  ];
  kept = λ k h. rest.kept k (IsApproved-step db db1 id a done step k h);
  others = λ k m. elim (Bool-cases (id == k)) [
    | inl same ↦ absurd (true≢false (rw same at m))
    | inr other ↦ rest.others k (rw other at m) ∙ step.others k other
  ];
  audited = rest.audited;
}

-- If every listed record is stored, and histories are whole, approving them all succeeds: each
-- listed record is approved, approved records stay so, no other record changes, and histories
-- stay whole.
pub bulk_approve_records-AreApproved :
    (ids : List ℕ) (reviewer : Option String) (now : ℕ) (db : Db)
    → IsAudited db
    → All (IsStored db) ids
    → (rs : List OcrRecord) × (db' : Db) × (bulk_approve_records ids reviewer now db ≡ ok (rs, db'))
      × AreApproved ids db db'
bulk_approve_records-AreApproved [] reviewer now db audited h = (
  [],
  db,
  unfold bulk_approve_records in refl,
  record { approved = λ k m. cc; kept = λ k x. x; others = λ k m. refl; audited = audited },
)
bulk_approve_records-AreApproved (id ∷ ids) reviewer now db audited h =
    elim (Option-cases (get_record db id)) [
      | inl missing ↦ absurd (true≢false (sym (rw missing at h.0)))
      | inr (r, stored) ↦
          let (db1, first, step) =
            approve_record_accepted db id r reviewer none now audited stored in
          let done = status-approved_row reviewer now r in
          let (rs, db2, rest, after) =
            bulk_approve_records-AreApproved ids reviewer now db1 step.audited
              (All-IsStored db db1 id _ done step ids h.1) in
          (
            approved_row reviewer now r ∷ rs,
            db2,
            bulk_step id ids reviewer now db db1 db2 r (approved_row reviewer now r) rs stored first
                rest,
            AreApproved-step id ids db db1 db2 (approved_row reviewer now r) done step after,
          )
    ]
