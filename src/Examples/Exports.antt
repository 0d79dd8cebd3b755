-- ===== src/Examples/Exports.antt =====
-- An export of two records, and a record that was approved because its book never had the data.
use marriage_be.Prelude.{
  String, Bool, true, false, ◌&&◌, none, some, List, [], ◌∷◌, ◌≡◌, refl, any, all, count, map,
  refers, get, ◌==◌, ◌||◌, string_eq,
}
use marriage_be.Status.{approved, record_status_eq}
use marriage_be.Db.Rows.{OcrRecord, Fields, value, issues, text, null, Db}
use marriage_be.Exports.{build_export_rows, exported, effective_row}
use marriage_be.Exports.Order.{before}
use marriage_be.Exports.Table.{IsTable, build_export_rows-IsTable}
use marriage_be.Exports.Selection.{IsOrdered, exported_lem}
use marriage_be.Records.NotRecorded.{
  Texts, resolve, cross_reference_issue, is_pointer_to_other_book, is_blank_entry,
}
use marriage_be.Records.NotRecorded.Explained.{
  ShowsAudit, resolve-ShowsAudit, resolve-unknown, is_unknown,
}
use marriage_be.Examples.Data.{empty, unreviewed}

abbrev second : OcrRecord
second = record unreviewed {
  id = 8;
  source_page = none;
  status = approved;
  field_values = ("nama", text "Abu") ∷ ("bil", text "2") ∷ [];
}

abbrev third : OcrRecord
third = record unreviewed { id = 9; status = approved; source_record_index = 3 }

abbrev stored : Db
stored = record empty { records = unreviewed ∷ second ∷ third ∷ [] }

-- the second one has no page, so it comes last
exported_rows : build_export_rows stored 1 false ≡ (
  "nama" ∷ "tarikh" ∷ "bil" ∷ [],
  (("nama", value (text "Ali")) ∷ ("tarikh", value null) ∷ ("bil", value (text "")) ∷ [])
      ∷ (("nama", value (text "Abu"))
          ∷ ("tarikh", value (text ""))
          ∷ ("bil", value (text "2"))
          ∷ [])
      ∷ [],
)
unfolding build_export_rows before
exported_rows = refl

build_export_rows-IsTable_example :
    IsTable
      (map (effective_row stored 1) (exported stored 1 false))
      (build_export_rows stored 1 false).0
      (build_export_rows stored 1 false).1
build_export_rows-IsTable_example = build_export_rows-IsTable stored 1 false

exported_lem_example :
    IsOrdered (exported stored 1 false)
    × ((q : OcrRecord → Bool)
        → count q (exported stored 1 false)
          ≡ count
              (λ r. refers r.batch_id 1 && ((false || r.status == approved) && q r))
              stored.records)
exported_lem_example = exported_lem stored 1 false

abbrev texts : Texts
texts = record {
  upper = λ s. s;
  points_at_other_book = λ s. false;
  phone_only = λ s. false;
  is_decimal = λ c. false;
  normalize_amount = none;
}

abbrev old_page : Fields
old_page = ("Nama Suami", text "Ali") ∷ ("Umur Suami", text "TIADA MAKLUMAT") ∷ []

-- the book has no age: the record is approved, and its export has lost the name
resolved_page :
    resolve texts old_page ("invalid husband age" ∷ []) []
    ≡ some (old_page, ("auto_approved_not_recorded", issues ("invalid husband age" ∷ [])) ∷ [])
unfolding resolve
resolved_page = refl

resolve-ShowsAudit_example : ShowsAudit (resolve texts old_page ("invalid husband age" ∷ []) [])
resolve-ShowsAudit_example = resolve-ShowsAudit texts old_page ("invalid husband age" ∷ [])

abbrev unreadable : List String
unreadable = "invalid husband age" ∷ "unreadable date" ∷ []

is_unreadable : any is_unknown unreadable ≡ true
unfolding any get
is_unreadable = refl

is_no_note : all (λ i. i == cross_reference_issue) unreadable ≡ false
unfolding all
is_no_note = refl

is_full : (is_pointer_to_other_book texts old_page || is_blank_entry texts old_page) ≡ false
unfolding is_pointer_to_other_book is_blank_entry
is_full = refl

resolve-unknown_example : resolve texts old_page unreadable [] ≡ none
resolve-unknown_example =
    resolve-unknown texts old_page unreadable [] is_unreadable is_no_note is_full
