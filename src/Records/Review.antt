-- ===== src/Records/Review.antt =====
-- Corrections and approvals of records: what they return, store and leave alone.
use marriage_be.Prelude.{
  ℕ, ◌+◌, String, false, Option, some, ◌==◌, ◌≡◌, refl, nat_eq, ==-self, string_eq, if◌then◌else◌,
  arith, Bool-cases, inl, inr,
}
use marriage_be.Status.{RecordStatus, approved, record_status_eq}
use marriage_be.Db.Rows.{OcrRecord, Revision, Fields, Db}
use marriage_be.Db.Result.{ok, err, record_conflict}
use marriage_be.Records.Repository.{get_record}
use marriage_be.Records.Service.{
  store_record, apply_correction, corrected, approve_record, change_status, reviewed,
}
use marriage_be.Records.History.{
  IsAudited, with_revision, append_revision_next, revised, revised-IsAudited,
  get_record-revised_self, get_record-revised_ne,
}

-- What an accepted review of the record `id` leaves: the new row, every other row as it was, and
-- whole histories.
pub record IsReviewed (id : ℕ) (r : OcrRecord) (db db' : Db) : Type 0 where
  pub stored : get_record db' id ≡ some r
  pub others : (k : ℕ) → (id == k) ≡ false → get_record db' k ≡ get_record db k
  pub audited : IsAudited db'

-- the row after an approval: an approved record is returned unchanged
abbrev pub approved_row : (reviewer : Option String) (now : ℕ) → OcrRecord → OcrRecord
approved_row reviewer now r = if r.status == approved then r else reviewed approved reviewer now r

module _ (db : Db) (id : ℕ) (r : OcrRecord) (v : Revision) (f : OcrRecord → OcrRecord)
    (audited : IsAudited db) (stored : get_record db id ≡ some r) (about : v.record_id ≡ r.id)
    (next : v.version ≡ r.version + 1) (keeps : (x : OcrRecord) → (f x).id ≡ x.id)
    (counts : (x : OcrRecord) → (f x).version ≡ x.version + 1) where
  revised-IsReviewed : IsReviewed id (f r) db (store_record id f r (with_revision v db)).1
  revised-IsReviewed = record {
    stored =
        unfold revised in
        get_record-revised_self db id r v f audited stored about next keeps counts;
    others =
        unfold revised in get_record-revised_ne db id r v f audited stored about next keeps counts;
    audited =
        unfold revised in revised-IsAudited db id r v f audited stored about next keeps counts;
  }

module _ (db : Db) (id : ℕ) (r : OcrRecord) (reviewer note : Option String) (now : ℕ)
    (audited : IsAudited db) (stored : get_record db id ≡ some r) where
  -- Where every stored record has its whole history, a correction that names the record's version
  -- is accepted: it cannot fail on the revision. The corrected row is returned and stored, no other
  -- record changes, and histories stay whole.
  pub apply_correction_accepted :
      (values : Fields)
      → (db' : Db) × (apply_correction id r.version values reviewer note now db
          ≡ ok (corrected values reviewer now r, db'))
        × IsReviewed id (corrected values reviewer now r) db db'
  unfolding apply_correction
  apply_correction_accepted values =
      let v : Revision = record {
        record_id = r.id;
        version = r.version + 1;
        previous_values = r.field_values;
        new_values = values;
        reviewer = reviewer;
        note = note;
        created_at = now;
      } in
      (
        (store_record id (corrected values reviewer now) r (with_revision v db)).1,
        ground (
          arith,
          stored,
          ==-self r.version,
          append_revision_next db r v (audited id r stored) refl refl,
        ),
        revised-IsReviewed db id r v (corrected values reviewer now) audited stored refl refl
            (λ x. refl) (λ x. refl),
      )

  change_status_accepted :
      (status : RecordStatus)
      → (db' : Db) × (change_status status reviewer note id now r db
          ≡ ok (reviewed status reviewer now r, db'))
        × IsReviewed id (reviewed status reviewer now r) db db'
  unfolding change_status
  change_status_accepted status =
      let v : Revision = record {
        record_id = r.id;
        version = r.version + 1;
        previous_values = r.field_values;
        new_values = r.field_values;
        reviewer = reviewer;
        note = note;
        created_at = now;
      } in
      (
        (store_record id (reviewed status reviewer now) r (with_revision v db)).1,
        ground (arith, append_revision_next db r v (audited id r stored) refl refl),
        revised-IsReviewed db id r v (reviewed status reviewer now) audited stored refl refl
            (λ x. refl) (λ x. refl),
      )

  unchanged-IsReviewed : IsReviewed id r db db
  unchanged-IsReviewed = record { stored = stored; others = λ k ne. refl; audited = audited }

  -- Where every stored record has its whole history, an approval that names the record's version is
  -- accepted: the reviewed row, or an approved record as it is, is returned and stored, no other
  -- record changes, and histories stay whole.
  pub approve_record_accepted :
      (db' : Db) × (approve_record id r.version reviewer note now db
        ≡ ok (approved_row reviewer now r, db'))
      × IsReviewed id (approved_row reviewer now r) db db'
  unfolding approve_record
  approve_record_accepted = elim (Bool-cases (r.status == approved)) [
    | inl done ↦
        (db, rw done (ground (arith, stored, ==-self r.version)), rw done unchanged-IsReviewed)
    | inr pending ↦
        let (db', same, reviewed_ok) = change_status_accepted approved in
        (db', rw pending (ground (arith, stored, ==-self r.version, same)), rw pending reviewed_ok)
  ]

module _ (db : Db) (id expected : ℕ) (r : OcrRecord) (reviewer note : Option String) (now : ℕ)
    (stored : get_record db id ≡ some r) (stale : (r.version == expected) ≡ false) where
  -- A correction or an approval that names another version than the record's is refused.
  pub review_conflict :
      (values : Fields)
      → (apply_correction id expected values reviewer note now db ≡ err record_conflict)
        × (approve_record id expected reviewer note now db ≡ err record_conflict)
  unfolding apply_correction approve_record
  review_conflict values = (ground arith, ground arith)

module _ (db : Db) (id : ℕ) (r : OcrRecord) (reviewer note reviewer' note' : Option String)
    (now later : ℕ) (values values' : Fields) (audited : IsAudited db)
    (stored : get_record db id ≡ some r) where
  -- No update is lost: where every stored record has its whole history, of two reviewers who saw
  -- the same version of a stored record the first corrects it, and the second is refused, whether
  -- it corrects or approves.
  pub second_review_conflicts :
      (db' : Db) × (apply_correction id r.version values reviewer note now db
        ≡ ok (corrected values reviewer now r, db'))
      × (apply_correction id r.version values' reviewer' note' later db' ≡ err record_conflict)
      × (approve_record id r.version reviewer' note' later db' ≡ err record_conflict)
  second_review_conflicts =
      let (db', first, after) =
        apply_correction_accepted db id r reviewer note now audited stored values in
      let refused =
        review_conflict db' id r.version (corrected values reviewer now r) reviewer' note' later
          after.stored (unfold corrected in ground arith) values' in
      (db', first, refused.0, refused.1)
