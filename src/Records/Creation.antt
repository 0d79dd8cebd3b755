-- ===== src/Records/Creation.antt =====
-- records/repositories.py: creating records by their source key, and the status of a new one.
use marriage_be.Prelude.{
  then_holds, else_holds, if◌then◌else◌, ℕ, String, Bool, true, false, ◌||◌, not, Option, none,
  some, List, [], ◌∷◌, ◌++◌, ◌≡◌, ◌↔◌, refl, ◌∙◌, nat_eq, string_eq, option_beq, any, arith,
  Bool-cases, inl, inr, eq_iff, ==-self,
}
use marriage_be.Status.{approved, record_status_eq}
use marriage_be.Db.Rows.{OcrRecord, Db, Confidence}
use marriage_be.Db.Result.{ok, err, record_exists}
use marriage_be.Records.Repository.{
  SourceKey, has_key, first_with_key, Payload, payload_key, new_record, create_record_if_missing,
  record_row, is_none, create_record, can_insert, initial_status_for, is_low,
}

abbrev key_of : OcrRecord → SourceKey
key_of r = record {
  job_id = r.job_id;
  source_key = r.source_key;
  source_page = r.source_page;
  source_record_index = r.source_record_index;
}

-- No two records have the same job, source key, source page and source index.
abbrev pub AreDistinct : List OcrRecord → Type 0
AreDistinct [] = Unit {0}
AreDistinct (r ∷ rs) = (any (has_key (key_of r)) rs ≡ false) × AreDistinct rs

first_with_key-is_none :
    (k : SourceKey) (rs : List OcrRecord) → is_none (first_with_key k rs) ≡ not (any (has_key k) rs)
unfolding first_with_key any
first_with_key-is_none k [] = refl
first_with_key-is_none k (r ∷ rs) = ground (arith, first_with_key-is_none k rs)

option_beq_comm : (a b : Option ℕ) → option_beq a b ≡ option_beq b a
option_beq_comm none none = refl
option_beq_comm none (some b) = refl
option_beq_comm (some a) none = refl
option_beq_comm (some a) (some b) = ground arith

option_beq_refl : (a : Option ℕ) → option_beq a a ≡ true
option_beq_refl none = refl
option_beq_refl (some a) = ground arith

has_key_comm : (r s : OcrRecord) → has_key (key_of r) s ≡ has_key (key_of s) r
unfolding has_key
has_key_comm r s = ground (
  arith,
  option_beq_comm r.source_page s.source_page,
  eq_iff r.source_key s.source_key,
  eq_iff s.source_key r.source_key,
)

any_append_one :
    (p : OcrRecord → Bool) (rs : List OcrRecord) (r : OcrRecord)
    → any p (rs ++ r ∷ []) ≡ (any p rs || p r)
unfolding any
any_append_one p [] r = ground arith
any_append_one p (s ∷ rs) r = ground (arith, any_append_one p rs r)

AreDistinct-append :
    (rs : List OcrRecord) (r : OcrRecord)
    → AreDistinct rs
    → any (has_key (key_of r)) rs ≡ false
    → AreDistinct (rs ++ r ∷ [])
AreDistinct-append [] r h new = unfold any in (refl, tt)
AreDistinct-append (s ∷ rs) r h new = (
  any_append_one (has_key (key_of s)) rs r ∙ unfold any in ground (arith, h.0, has_key_comm s r),
  AreDistinct-append rs r h.1 (unfold any in ground arith),
)

-- the key is there: nothing changes
skipped :
    (job_id : ℕ) (batch_id document_id : Option ℕ) (p : Payload) (id now : ℕ) (db : Db)
    → any (has_key (payload_key job_id p)) db.records ≡ true
    → create_record_if_missing job_id batch_id document_id p id now db ≡ ok (false, db)
unfolding create_record_if_missing
skipped job_id batch_id document_id p id now db h =
    ground (arith, first_with_key-is_none (payload_key job_id p) db.records)

-- What the row of an imported payload holds: its key, its values as they are, version 1, and no
-- review.
pub record IsNewRow (job_id : ℕ) (p : Payload) (id : ℕ) (r : OcrRecord) : Type 0 where
  pub identity : r.id ≡ id
  pub key : has_key (payload_key job_id p) r ≡ true
  pub values : r.field_values ≡ p.field_values
  pub missing : r.missing_fields ≡ p.missing_fields
  pub version : r.version ≡ 1
  pub reviewer : r.reviewed_by ≡ none

-- An import that does not raise, and a second one of the same payload, at the time `later` and with
-- the new id `other`.
abbrev pub IsImported :
    (job_id : ℕ) (batch_id document_id : Option ℕ)
    → Payload
    → (id now : ℕ) → Db
    → (later other : ℕ) → Type 0
IsImported job_id batch_id document_id p id now db later other =
    let there = any (has_key (payload_key job_id p)) db.records in
    (row : OcrRecord) × IsNewRow job_id p id row
    × (db' : Db) × (db' ≡ (if there then db else record db { records = db.records ++ row ∷ [] }))
    × (create_record_if_missing job_id batch_id document_id p id now db ≡ ok (not there, db'))
    × (any (has_key (payload_key job_id p)) db'.records ≡ true)
    × AreDistinct db'.records
    × (create_record_if_missing job_id batch_id document_id p other later db' ≡ ok (false, db'))

-- A record has the key, or the row to be inserted has a new id and refers to stored rows.
abbrev pub can_import :
    (job_id : ℕ) (batch_id document_id : Option ℕ) → Payload → (id : ℕ) → Db → Bool
can_import job_id batch_id document_id p id db =
    any (has_key (payload_key job_id p)) db.records
    || can_insert (new_record job_id batch_id document_id p) id db

module _ (job_id : ℕ) (batch_id document_id : Option ℕ) (p : Payload) (id now : ℕ) (db : Db) where
  abbrev new_row : OcrRecord
  new_row = record_row (new_record job_id batch_id document_id p) id now

  first_is_new :
      any (has_key (payload_key job_id p)) db.records ≡ false
      → is_none (first_with_key (payload_key job_id p) db.records) ≡ true
  first_is_new h = first_with_key-is_none (payload_key job_id p) db.records ∙ rw h refl

  -- the key is new: the row is appended
  created :
      any (has_key (payload_key job_id p)) db.records ≡ false
      → can_insert (new_record job_id batch_id document_id p) id db ≡ true
      → create_record_if_missing job_id batch_id document_id p id now db
        ≡ ok (true, record db { records = db.records ++ new_row ∷ [] })
  unfolding create_record_if_missing create_record
  created h fits = rw (create_record_if_missing, first_is_new h, create_record, fits) refl

  refused :
      any (has_key (payload_key job_id p)) db.records ≡ false
      → can_insert (new_record job_id batch_id document_id p) id db ≡ false
      → create_record_if_missing job_id batch_id document_id p id now db ≡ err record_exists
  unfolding create_record_if_missing create_record
  refused h fails = rw (create_record_if_missing, first_is_new h, create_record, fails) refl

  new_row-has_key : has_key (payload_key job_id p) new_row ≡ true
  unfolding has_key payload_key record_row new_record
  new_row-has_key = ground (arith, ==-self p.source_key, option_beq_refl p.source_page)

  new_key :
      any (has_key (key_of new_row)) db.records ≡ any (has_key (payload_key job_id p)) db.records
  unfolding record_row new_record payload_key
  new_key = refl

  new_row-IsNewRow : IsNewRow job_id p id new_row
  unfolding record_row new_record
  new_row-IsNewRow = record {
    identity = refl;
    key = new_row-has_key;
    values = refl;
    missing = refl;
    version = refl;
    reviewer = refl;
  }

  module _ (later other : ℕ) (distinct : AreDistinct db.records) where
    when_there :
        any (has_key (payload_key job_id p)) db.records ≡ true
        → IsImported job_id batch_id document_id p id now db later other
    when_there there = (
      new_row,
      new_row-IsNewRow,
      db,
      rw there refl,
      rw there (skipped job_id batch_id document_id p id now db there),
      there,
      distinct,
      skipped job_id batch_id document_id p other later db there,
    )

    when_new :
        any (has_key (payload_key job_id p)) db.records ≡ false
        → can_insert (new_record job_id batch_id document_id p) id db ≡ true
        → IsImported job_id batch_id document_id p id now db later other
    when_new new fits =
        let db' : Db = record db { records = db.records ++ new_row ∷ [] } in
        let there : any (has_key (payload_key job_id p)) db'.records ≡ true =
          any_append_one (has_key (payload_key job_id p)) db.records new_row
          ∙ ground (arith, new, new_row-has_key) in
        (
          new_row,
          new_row-IsNewRow,
          db',
          rw new refl,
          rw new (created new fits),
          there,
          AreDistinct-append db.records new_row distinct (new_key ∙ new),
          skipped job_id batch_id document_id p other later db' there,
        )

    -- Importing a row, where the records have distinct keys. If a record has its key, or the id is new
    -- and the job, and the batch and the document where they are given, are stored, it does not
    -- raise: if a record of its job has its key the database stays as it is, and otherwise one row is
    -- appended to the records, with the key, the values, version 1 and no review; the keys stay
    -- distinct; and importing the row again, at any time and with any new id, changes nothing.
    -- Otherwise it raises.
    pub create_record_if_missing_lem :
        if can_import job_id batch_id document_id p id db
        then IsImported job_id batch_id document_id p id now db later other
        else create_record_if_missing job_id batch_id document_id p id now db ≡ err record_exists
    create_record_if_missing_lem =
        elim (Bool-cases (any (has_key (payload_key job_id p)) db.records)) [
          | inl there ↦
              then_holds (can_import job_id batch_id document_id p id db) _ _ (rw there refl)
                (when_there there)
          | inr new ↦
              elim (Bool-cases (can_insert (new_record job_id batch_id document_id p) id db)) [
                | inl fits ↦
                    then_holds (can_import job_id batch_id document_id p id db) _ _
                      (rw (new, fits) refl) (when_new new fits)
                | inr fails ↦
                    else_holds (can_import job_id batch_id document_id p id db) _ _
                      (rw (new, fails) refl) (refused new fails)
              ]
        ]

-- The status of a new record, where none is given, is approved exactly if no field is missing and
-- its confidence is unknown or not low.
initial_status_for_lem :
    (missing : List String) (confidence : Option Confidence)
    → (initial_status_for missing confidence ≡ approved)
      ↔ ((missing ≡ []) × (is_low confidence ≡ false))
unfolding initial_status_for
initial_status_for_lem [] confidence = (λ h. ground arith, λ h. ground arith)
initial_status_for_lem (m ∷ missing) confidence = (λ h. ground arith, λ h. ground arith)
