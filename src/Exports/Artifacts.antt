-- ===== src/Exports/Artifacts.antt =====
-- exports/service.py: creating, deleting and expiring the file of an export. What the writer and
-- the storage answer is given.
use marriage_be.Prelude.{
  ℕ, String, Bool, true, false, Option, none, some, List, [], ◌∷◌, ◌==◌, ◌-◌, length, nat_eq,
  string_eq, if◌then◌else◌,
}
use marriage_be.Status.{ExportStatus}
use marriage_be.Db.Rows.{Export, Db}
use marriage_be.Db.Table.{update}
use marriage_be.Db.Result.{Error, Result, ok, err}
use marriage_be.Jobs.Paths.{◌+s◌}
use marriage_be.Batches.Repository.{
  NewExport, create_export, export_key, list_stale_exports, delete_export,
}
use marriage_be.Exports.{Row, build_export_rows}

abbrev export_filename : (format : String) → String
export_filename format = if format == "CSV" then "records.csv" else "records.xlsx"

abbrev export_media_type : (format : String) → String
export_media_type format =
    if format == "CSV"
    then "text/csv; charset=utf-8"
    else "application/vnd.openxmlformats-officedocument.spreadsheetml.sheet"

-- What writing and storing the file answers: its key. `id` comes from `uuid4`, `message` is `str`.
pub record Storage : Type 0 where
  pub id : ℕ
  pub id_text : String
  pub created_at : ℕ
  pub completed_at : ℕ
  pub write : (columns : List String) (rows : List Row) → Result (Unit {0})
  pub put_file : (key media_type : String) → Result String
  pub message : Error → String

unfoldable new_export : (batch_id : ℕ) (format : String) (created_by : Option ℕ) → NewExport
new_export batch_id format created_by = record {
  batch_id = batch_id;
  format = format;
  created_by = created_by;
  status = ExportStatus.pending;
  storage_key = none;
  record_count = none;
  error_message = none;
  created_at = none;
  completed_at = none;
}

abbrev note_of : (include_unreviewed : Bool) → List Row → Option String → Option String
note_of include_unreviewed (row ∷ rows) old = old
note_of true [] old = some "This batch has no records yet."
note_of false [] old = some "No records matched the export criteria (e.g. none approved yet)."

unfoldable pub to_completed :
    Storage → (include_unreviewed : Bool) (key : String) → List Row → Export → Export
to_completed st include_unreviewed key rows e = record e {
  status = ExportStatus.completed;
  storage_key = some key;
  record_count = some (length rows);
  completed_at = some st.completed_at;
  error_message = note_of include_unreviewed rows e.error_message;
}

unfoldable pub to_failed : Storage → Error → Export → Export
to_failed st e x = record x {
  status = ExportStatus.failed;
  error_message = some (st.message e);
  completed_at = some st.completed_at;
}

abbrev stored_key : Storage → (format : String) → List String × List Row → Result String
stored_key st format (columns, rows) = elim (st.write columns rows) [
  | err e ↦ err e
  | ok _ ↦
      st.put_file ("exports/" +s st.id_text +s "/" +s export_filename format)
        (export_media_type format)
]

-- The new row is set and the transaction committed, whether the file could be written or not.
unfoldable set_export : (id : ℕ) → (Export → Export) → Db → Db
unfolding update
set_export id change db = record db { exports = update export_key id change db.exports }

abbrev completed_or_failed :
    Storage
    → (include_unreviewed : Bool) → List Row
    → Export × Db
    → Result String
    → Result Export × Db
completed_or_failed st include_unreviewed rows (x, db) (ok key) = (
  ok (to_completed st include_unreviewed key rows x),
  set_export x.id (to_completed st include_unreviewed key rows) db,
)
completed_or_failed st include_unreviewed rows (x, db) (err e) =
    (err e, set_export x.id (to_failed st e) db)

unfoldable create_export_artifact :
    Storage
    → (batch_id : ℕ) (format : String) (include_unreviewed : Bool) (created_by : Option ℕ) → Db
    → Result Export × Db
unfolding new_export to_completed to_failed set_export
create_export_artifact st batch_id format include_unreviewed created_by db =
    let created = create_export (new_export batch_id format created_by) st.id st.created_at db in
    let shown = build_export_rows created.1 batch_id include_unreviewed in
    completed_or_failed st include_unreviewed shown.1 created (stored_key st format shown)

-- `remove` is the deletion of the stored file, which tolerates that there is none.
unfoldable delete_export_artifact : (remove : String → Result (Unit {0})) → Export → Db → Result Db
delete_export_artifact remove x db = elim x.storage_key [
  | none ↦ ok (delete_export x.id db)
  | some key ↦ elim (remove key) [ ok _ ↦ ok (delete_export x.id db) | err e ↦ err e ]
]

abbrev go_on : Db → Result Db → (Db → Result ℕ × Db) → Result ℕ × Db
go_on db (err e) next = (err e, db)
go_on db (ok db1) next = next db1

-- each deletion is committed by itself; an exception ends the loop
unfoldable delete_each :
    (remove : String → Result (Unit {0})) (total : ℕ) → List Export → Db → Result ℕ × Db
unfolding delete_export_artifact
delete_each remove total [] db = (ok total, db)
delete_each remove total (x ∷ xs) db =
    go_on db (delete_export_artifact remove x db) (delete_each remove total xs)

unfoldable cleanup_stale_exports :
    (remove : String → Result (Unit {0})) (now retention : ℕ) → Db → Result ℕ × Db
unfolding delete_each
cleanup_stale_exports remove now retention db =
    let stale = list_stale_exports db (now - retention) in
    delete_each remove (length stale) stale db
