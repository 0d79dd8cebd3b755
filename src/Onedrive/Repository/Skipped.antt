-- ===== src/Onedrive/Repository/Skipped.antt =====
-- onedrive/repositories.py: the skipped files of a submission, a JSON list of entries.
use marriage_be.Prelude.{
  ℕ, String, Bool, true, false, not, Option, none, some, List, [], map, ◌==◌, get, merge, first,
  select, is_some, string_eq, if◌then◌else◌,
}
use marriage_be.Db.Rows.{Submission, Fields, Value, null, text, Db}
use marriage_be.Db.Result.{Result}
use marriage_be.Onedrive.Repository.{get_submission, store_submission, or_none}

-- `skipped_files or []`
abbrev pub items : Option (List Fields) → List Fields
items none = []
items (some files) = files

abbrev pub is_text : String → Option Value → Bool
is_text value (some (text s)) = s == value
is_text value _ = false

-- `item.get(key) == value`
unfoldable pub has : (key value : String) → Fields → Bool
unfolding get
has key value item = is_text value (get key item)

abbrev pub named : String → Fields → Bool
named filename = has "filename" filename

abbrev skipped_of : String → Option Submission → Option Fields
skipped_of filename none = none
skipped_of filename (some s) = first (named filename) (items s.skipped_files)

unfoldable pub get_skipped_file : Db → (submission_id : ℕ) (filename : String) → Option Fields
unfolding get_submission first
get_skipped_file db submission_id filename = skipped_of filename (get_submission db submission_id)

abbrev pub not_null : Value → Bool
not_null null = false
not_null _ = true

-- `{**item, **changes}` without the keys whose value is None
unfoldable pub merged : (changes : Fields) → Fields → Fields
unfolding merge select
merged changes item = select (λ (c : String × Value). not_null c.1) (merge item changes)

unfoldable pub change_item : (filename : String) (changes : Fields) → Fields → Fields
unfolding merged
change_item filename changes item = if named filename item then merged changes item else item

unfoldable pub with_item : (filename : String) (changes : Fields) → ℕ → Submission → Submission
unfolding change_item
with_item filename changes now s = record s {
  skipped_files = or_none (map (change_item filename changes) (items s.skipped_files));
  updated_at = now;
}

unfoldable pub update_skipped_file :
    (submission_id : ℕ) (filename : String) (changes : Fields) (now : ℕ)
    → Db
    → Result (Submission × Db)
unfolding store_submission with_item
update_skipped_file submission_id filename changes now =
    store_submission submission_id (with_item filename changes now)

unfoldable pub list_submissions_with_skipped_files : Db → List Submission
unfolding select
list_submissions_with_skipped_files db =
    select (λ (s : Submission). is_some s.skipped_files) db.submissions

unfoldable pub without_item : (filename : String) → ℕ → Submission → Submission
unfolding select
without_item filename now s = record s {
  skipped_files = or_none (select (λ i. not (named filename i)) (items s.skipped_files));
  updated_at = now;
}

unfoldable pub remove_skipped_file :
    (submission_id : ℕ) (filename : String) (now : ℕ) → Db → Result (Submission × Db)
unfolding store_submission without_item
remove_skipped_file submission_id filename now =
    store_submission submission_id (without_item filename now)
