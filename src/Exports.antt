-- ===== src/Exports.antt =====
-- exports/service.py: the rows of an export. What a spreadsheet shows of an entry is its value.
pub mod Order
pub mod Selection
pub mod Table
pub mod Artifacts
use marriage_be.Prelude.{
  ℕ, String, Bool, true, false, ◌&&◌, ◌||◌, not, Option, none, some, List, [], ◌∷◌, ◌++◌, map, ◌==◌,
  mem, get, merge, refers, select, string_eq, if◌then◌else◌,
}
use marriage_be.Prelude.Sort.{sort_by}
use marriage_be.Status.{approved, record_status_eq}
use marriage_be.Db.Rows.{Batch, OcrRecord, Fields, Note, value, Value, text, Db}
use marriage_be.Batches.Repository.{get_batch}
use marriage_be.Exports.Order.{before}

-- a row of the export, a value for each of its columns
abbrev pub Row : Type 0
Row = List (String × Note)

abbrev is_exportable : OcrRecord → Bool
is_exportable r = r.status == approved

abbrev as_notes : Fields → Row
as_notes = map (λ (c : String × Value). (c.0, value c.1))

abbrev base_values : List (String × Note) → Fields → Row
base_values [] field_values = as_notes field_values
base_values (n ∷ normalized) field_values = n ∷ normalized

unfoldable pub effective_values : OcrRecord → Row
unfolding merge
effective_values r =
    merge (merge [] (base_values r.normalized_data r.field_values)) (as_notes r.corrected_data)

-- `column or ""`
abbrev or_empty : Option String → String
or_empty none = ""
or_empty (some s) = s

abbrev place : (daerah negeri : String) → Row
place daerah negeri =
    if daerah == "" && negeri == ""
    then []
    else ("Daerah", value (text daerah)) ∷ ("Negeri", value (text negeri)) ∷ []

abbrev location_of : Option Batch → Row
location_of none = []
location_of (some b) = place (or_empty b.daerah) (or_empty b.negeri)

unfoldable pub add_columns : (columns : List String) → Row → List String
add_columns columns [] = columns
add_columns columns ((key, v) ∷ row) =
    add_columns (if mem key columns then columns else columns ++ key ∷ []) row

unfoldable pub all_columns : (columns : List String) → List Row → List String
unfolding add_columns
all_columns columns [] = columns
all_columns columns (row ∷ rows) = all_columns (add_columns columns row) rows

-- `row.get(column, "")`
abbrev cell : Option Note → Note
cell none = value (text "")
cell (some v) = v

unfoldable pub with_columns : List String → Row → Row
unfolding get
with_columns columns row = map (λ (column : String). (column, cell (get column row))) columns

abbrev rows_under : (columns : List String) → List Row → List String × List Row
rows_under [] rows = ([], [])
rows_under (column ∷ columns) rows = (column ∷ columns, map (with_columns (column ∷ columns)) rows)

abbrev pub is_wanted : (include_unreviewed : Bool) → OcrRecord → Bool
is_wanted include_unreviewed r = include_unreviewed || is_exportable r

-- the records of the export, in its order
unfoldable pub exported : Db → (batch_id : ℕ) (include_unreviewed : Bool) → List OcrRecord
unfolding sort_by select
exported db batch_id include_unreviewed =
    select (is_wanted include_unreviewed)
      (sort_by before (select (λ (r : OcrRecord). refers r.batch_id batch_id) db.records))

unfoldable pub effective_row : Db → (batch_id : ℕ) → OcrRecord → Row
unfolding merge effective_values get_batch
effective_row db batch_id r =
    merge (merge [] (location_of (get_batch db batch_id))) (effective_values r)

unfoldable pub build_export_rows :
    Db → (batch_id : ℕ) (include_unreviewed : Bool) → List String × List Row
unfolding exported effective_row all_columns with_columns
build_export_rows db batch_id include_unreviewed =
    let rows = map (effective_row db batch_id) (exported db batch_id include_unreviewed) in
    rows_under (all_columns [] rows) rows
