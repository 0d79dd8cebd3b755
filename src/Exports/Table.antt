-- ===== src/Exports/Table.antt =====
-- exports/service.py, build_export_rows: the columns of an export's rows.
use marriage_be.Prelude.{
  ℕ, String, Bool, true, false, ◌||◌, List, [], ◌∷◌, ◌++◌, ◌==◌, ◌≡◌, refl, ap, arith, ◌⊎◌, map,
  mem, string_eq, eq_iff, if◌then◌else◌, All, Bool-cases, inl, inr, ==-self,
}
use marriage_be.Status.{record_status_eq}
use marriage_be.Db.Rows.{Note, Db}
use marriage_be.Exports.{
  Row, build_export_rows, exported, effective_row, all_columns, add_columns, with_columns,
  rows_under,
}

abbrev pub names : Row → List String
names = map (λ (c : String × Note). c.0)

abbrev IsDistinct : List String → Type 0
IsDistinct [] = Unit
IsDistinct (x ∷ xs) = (mem x xs ≡ false) × IsDistinct xs

-- every column of the row is one of the list
abbrev IsCovered : List String → Row → Type 0
IsCovered columns = All (λ (c : String × Note). mem c.0 columns ≡ true)

names-with_columns :
    (columns : List String) (row : Row) → names (with_columns columns row) ≡ columns
unfolding with_columns
names-with_columns [] row = refl
names-with_columns (c ∷ columns) row =
    ap (λ (cs : List String). c ∷ cs) (names-with_columns columns row)

mem-append :
    (x : String) (xs : List String) (y : String) → mem x (xs ++ y ∷ []) ≡ (mem x xs || y == x)
mem-append x [] y = ground arith
mem-append x (z ∷ xs) y = ground (arith, mem-append x xs y)

append-IsDistinct :
    (xs : List String) (y : String) → mem y xs ≡ false → IsDistinct xs → IsDistinct (xs ++ y ∷ [])
append-IsDistinct [] y h k = (refl, tt)
append-IsDistinct (x ∷ xs) y h (fresh, k) = (
  ground (arith, mem-append x xs y, eq_iff x y, eq_iff y x),
  append-IsDistinct xs y (ground arith) k,
)

abbrev extended : List String → String → List String
extended columns key = if mem key columns then columns else columns ++ key ∷ []

extended-IsDistinct :
    (columns : List String) (key : String) → IsDistinct columns → IsDistinct (extended columns key)
extended-IsDistinct columns key h = elim (Bool-cases (mem key columns)) [
  | inl known ↦ rw known h
  | inr new ↦ rw new (append-IsDistinct columns key new h)
]

mem-extended :
    (x : String) (columns : List String) (key : String)
    → (mem x columns || key == x) ≡ true
    → mem x (extended columns key) ≡ true
mem-extended x columns key h = ground (arith, mem-append x columns key, eq_iff key x)

add_columns-IsDistinct :
    (columns : List String) (row : Row) → IsDistinct columns → IsDistinct (add_columns columns row)
unfolding add_columns
add_columns-IsDistinct columns [] h = h
add_columns-IsDistinct columns ((key, v) ∷ row) h =
    add_columns-IsDistinct (extended columns key) row (extended-IsDistinct columns key h)

mem-add_columns :
    (x : String) (columns : List String) (row : Row)
    → mem x columns ≡ true
    → mem x (add_columns columns row) ≡ true
unfolding add_columns
mem-add_columns x columns [] h = h
mem-add_columns x columns ((key, v) ∷ row) h =
    mem-add_columns x (extended columns key) row (mem-extended x columns key (rw h refl))

add_columns-IsCovered :
    (columns : List String) (row : Row) → IsCovered (add_columns columns row) row
unfolding add_columns
add_columns-IsCovered columns [] = tt
add_columns-IsCovered columns ((key, v) ∷ row) = (
  mem-add_columns key (extended columns key) row
      (mem-extended key columns key (ground (arith, ==-self key))),
  add_columns-IsCovered (extended columns key) row,
)

all_columns-IsDistinct :
    (columns : List String) (rows : List Row)
    → IsDistinct columns
    → IsDistinct (all_columns columns rows)
unfolding all_columns
all_columns-IsDistinct columns [] h = h
all_columns-IsDistinct columns (row ∷ rows) h =
    all_columns-IsDistinct (add_columns columns row) rows (add_columns-IsDistinct columns row h)

mem-all_columns :
    (x : String) (columns : List String) (rows : List Row)
    → mem x columns ≡ true
    → mem x (all_columns columns rows) ≡ true
unfolding all_columns
mem-all_columns x columns [] h = h
mem-all_columns x columns (row ∷ rows) h =
    mem-all_columns x (add_columns columns row) rows (mem-add_columns x columns row h)

All-mem :
    (columns columns' : List String) (row : Row)
    → ((x : String) → mem x columns ≡ true → mem x columns' ≡ true)
    → IsCovered columns row
    → IsCovered columns' row
All-mem columns columns' [] h k = tt
All-mem columns columns' (c ∷ row) h k = (h c.0 k.0, All-mem columns columns' row h k.1)

all_columns-IsCovered :
    (columns : List String) (rows : List Row) → All (IsCovered (all_columns columns rows)) rows
unfolding all_columns
all_columns-IsCovered columns [] = tt
all_columns-IsCovered columns (row ∷ rows) = (
  All-mem (add_columns columns row) _ row (λ x. mem-all_columns x (add_columns columns row) rows)
      (add_columns-IsCovered columns row),
  all_columns-IsCovered (add_columns columns row) rows,
)

-- What an export of the rows is.
pub record IsTable (rows : List Row) (columns : List String) (shown : List Row) : Type 0 where
  pub distinct : IsDistinct columns
  pub complete : All (IsCovered columns) rows
  pub uniform : All (λ row. names row ≡ columns) shown
  pub filled : (columns ≡ []) ⊎ (shown ≡ map (with_columns columns) rows)

uniform_under :
    (columns : List String) (rows : List Row)
    → All (λ row. names row ≡ columns) (map (with_columns columns) rows)
uniform_under columns [] = tt
uniform_under columns (row ∷ rows) = (names-with_columns columns row, uniform_under columns rows)

rows_under-IsTable :
    (columns : List String) (rows : List Row)
    → IsDistinct columns
    → All (IsCovered columns) rows
    → IsTable rows (rows_under columns rows).0 (rows_under columns rows).1
rows_under-IsTable [] rows h k = record {
  distinct = h;
  complete = k;
  uniform = tt;
  filled = inl refl;
}
rows_under-IsTable (c ∷ columns) rows h k = record {
  distinct = h;
  complete = k;
  uniform = uniform_under (c ∷ columns) rows;
  filled = inr refl;
}

-- The rows of an export all have exactly its columns, in one order; no column stands twice, every
-- field of every exported record is one of the columns, and unless there is no column at all there
-- is one row for each record, in their order, with the record's value or the empty text.
pub build_export_rows-IsTable :
    (db : Db) (batch_id : ℕ) (include_unreviewed : Bool)
    → let shown = build_export_rows db batch_id include_unreviewed in
      IsTable
        (map (effective_row db batch_id) (exported db batch_id include_unreviewed))
        shown.0
        shown.1
unfolding build_export_rows
build_export_rows-IsTable db batch_id include_unreviewed =
    let rows = map (effective_row db batch_id) (exported db batch_id include_unreviewed) in
    rows_under-IsTable (all_columns [] rows) rows (all_columns-IsDistinct [] rows tt)
      (all_columns-IsCovered [] rows)
