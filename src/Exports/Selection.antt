-- ===== src/Exports/Selection.antt =====
-- Which records an export has, and in which order.
use marriage_be.Prelude.{
  ℕ, Bool, true, false, ◌&&◌, ◌||◌, ◌==◌, ◌<◌, ◌≤◌, ◌⊎◌, Option, none, some, some_inj, List, [],
  ◌∷◌, ◌≡◌, refl, ap, ◌∙◌, arith, ltb, option_beq, count, count-perm, select, refers, All,
  Bool-cases, inl, inr, nat_eq,
}
use marriage_be.Status.{approved, record_status_eq}
use marriage_be.Prelude.Sort.{sort_by, IsSorted, sort_by-IsSorted, sort_by-perm}
use marriage_be.Db.Rows.{OcrRecord, Db}
use marriage_be.Exports.{exported, is_wanted}
use marriage_be.Exports.Order.{less, lex, sort_key, before, before-total, before-transitive}

count-select :
    (p q : OcrRecord → Bool) (rs : List OcrRecord)
    → count q (select p rs) ≡ count (λ r. p r && q r) rs
unfolding count select
count-select p q [] = refl
count-select p q (r ∷ rs) = ground (arith, count-select p q rs)

select_yes :
    (p : OcrRecord → Bool) (r : OcrRecord) (rs : List OcrRecord)
    → p r ≡ true
    → select p (r ∷ rs) ≡ r ∷ select p rs
unfolding select
select_yes p r rs h = ground arith

select_no :
    (p : OcrRecord → Bool) (r : OcrRecord) (rs : List OcrRecord)
    → p r ≡ false
    → select p (r ∷ rs) ≡ select p rs
unfolding select
select_no p r rs h = ground arith

All-select :
    (P : OcrRecord → Type 0) (p : OcrRecord → Bool) (rs : List OcrRecord)
    → All P rs
    → All P (select p rs)
All-select P p [] h = unfold select in tt
All-select P p (r ∷ rs) h = elim (Bool-cases (p r)) [
  | inl chosen ↦ rw (select_yes p r rs chosen) (h.0, All-select P p rs h.1)
  | inr passed ↦ rw (select_no p r rs passed) (All-select P p rs h.1)
]

select-IsSorted :
    (p : OcrRecord → Bool) (rs : List OcrRecord)
    → IsSorted before rs
    → IsSorted before (select p rs)
select-IsSorted p [] h = unfold select in tt
select-IsSorted p (r ∷ rs) h = elim (Bool-cases (p r)) [
  | inl chosen ↦
      rw (select_yes p r rs chosen)
        (All-select (λ s. before r s ≡ true) p rs h.0, select-IsSorted p rs h.1)
  | inr passed ↦ rw (select_no p r rs passed) (select-IsSorted p rs h.1)
]

-- A nullable column is smaller, null being greater than every number.
abbrev pub Below : Option ℕ → Option ℕ → Type 0
Below none b = ⊥
Below (some a) none = Unit {0}
Below (some a) (some b) = a < b

-- The document is smaller; or it is the same and the page is smaller; and so on with the index of
-- the record, the time of its creation, and its id.
abbrev pub Precedes : OcrRecord → OcrRecord → Type 0
Precedes r s =
    Below r.document_id s.document_id
    ⊎ ((r.document_id ≡ s.document_id)
        × (Below r.source_page s.source_page
            ⊎ ((r.source_page ≡ s.source_page)
                × ((r.source_record_index < s.source_record_index)
                    ⊎ ((r.source_record_index ≡ s.source_record_index)
                        × ((r.created_at < s.created_at)
                            ⊎ ((r.created_at ≡ s.created_at) × (r.id ≤ s.id))))))))

-- every record precedes all that follow it
abbrev pub IsOrdered : List OcrRecord → Type 0
IsOrdered [] = Unit {0}
IsOrdered (r ∷ rs) = All (Precedes r) rs × IsOrdered rs

column :
    (a b : Option ℕ) (rest : Bool)
    → (less a b || (option_beq a b && rest)) ≡ true
    → Below a b ⊎ ((a ≡ b) × (rest ≡ true))
column none none rest h = inr (refl, h)
column none (some b) rest h = cc
column (some a) none rest h = inl tt
column (some a) (some b) rest h = elim (Bool-cases (ltb a b)) [
  | inl smaller ↦ inl (ground arith)
  | inr other ↦ inr (ap some (ground arith), ground arith)
]

number :
    (a b : ℕ) (rest : Bool)
    → (less (some a) (some b) || (option_beq (some a) (some b) && rest)) ≡ true
    → (a < b) ⊎ ((a ≡ b) × (rest ≡ true))
number a b rest h = elim (column (some a) (some b) rest h) [
  | inl smaller ↦ inl smaller
  | inr (same, k) ↦ inr (some_inj same, k)
]

last : (a b : ℕ) → (less (some a) (some b) || (option_beq (some a) (some b) && true)) ≡ true → a ≤ b
last a b h = elim (number a b true h) [
  | inl smaller ↦ omega (arith, smaller)
  | inr (same, k) ↦ omega (arith, same)
]

before-Precedes : (r s : OcrRecord) → before r s ≡ true → Precedes r s
unfolding before lex sort_key
before-Precedes r s h = elim (column r.document_id s.document_id _ h) [
  | inl smaller ↦ inl smaller
  | inr (document, h1) ↦ inr (
    document,
    elim (column r.source_page s.source_page _ h1) [
      | inl smaller ↦ inl smaller
      | inr (page, h2) ↦ inr (
        page,
        elim (number r.source_record_index s.source_record_index _ h2) [
          | inl smaller ↦ inl smaller
          | inr (index, h3) ↦ inr (
            index,
            elim (number r.created_at s.created_at _ h3) [
              | inl smaller ↦ inl smaller
              | inr (created, h4) ↦ inr (created, last r.id s.id h4)
            ],
          )
        ],
      )
    ],
  )
]

All-Precedes :
    (r : OcrRecord) (rs : List OcrRecord) → All (λ s. before r s ≡ true) rs → All (Precedes r) rs
All-Precedes r [] h = tt
All-Precedes r (s ∷ rs) h = (before-Precedes r s h.0, All-Precedes r rs h.1)

IsSorted-IsOrdered : (rs : List OcrRecord) → IsSorted before rs → IsOrdered rs
IsSorted-IsOrdered [] h = tt
IsSorted-IsOrdered (r ∷ rs) h = (All-Precedes r rs h.0, IsSorted-IsOrdered rs h.1)

-- An export has the records of its batch, each as often as it is stored, only those with status
-- APPROVED unless the others are asked for: every test is passed by as many exported records as
-- there are such records that pass it. They are in the order of their documents, pages, indexes,
-- creation times and ids, the records without document or page last.
pub exported_lem :
    (db : Db) (batch_id : ℕ) (include_unreviewed : Bool)
    → IsOrdered (exported db batch_id include_unreviewed)
      × ((q : OcrRecord → Bool)
          → count q (exported db batch_id include_unreviewed)
            ≡ count
                (λ r.
                  refers r.batch_id batch_id
                  && ((include_unreviewed || r.status == approved) && q r))
                db.records)
unfolding exported
exported_lem db batch_id include_unreviewed =
    let of_batch = select (λ (r : OcrRecord). refers r.batch_id batch_id) db.records in
    (
      IsSorted-IsOrdered _ (
          select-IsSorted (is_wanted include_unreviewed) (sort_by before of_batch)
            (sort_by-IsSorted before before-total before-transitive of_batch)),
      λ q.
          count-select (is_wanted include_unreviewed) q (sort_by before of_batch)
          ∙ (count-perm (λ r. is_wanted include_unreviewed r && q r) (sort_by-perm before of_batch)
              ∙ count-select (λ (r : OcrRecord). refers r.batch_id batch_id)
                  (λ r. is_wanted include_unreviewed r && q r) db.records),
    )
