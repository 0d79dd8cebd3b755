-- ===== src/Records/NotRecorded.antt =====
-- records/not_recorded.py: issues that exist only because the register book never had the data. The
-- tests of a text that the program writes as regular expressions and `str.upper` are given, and so
-- is the amount normalizer of the `marriage-ocr` package.
pub mod Explained
use Prim.Native.Char.{Char, code}
use Prim.Native.String
use marriage_be.Prelude.{
  ◌≡◌, refl, leb, nat_eq, zero, suc, ℕ, String, Bool, true, false, ◌&&◌, ◌||◌, not, Option, none,
  some, List, [], ◌∷◌, ◌==◌, all, get, put, merge, mem, strip, is_some, string_eq, if◌then◌else◌,
}
use marriage_be.Jobs.Paths.{◌+s◌}
use marriage_be.Db.Rows.{Fields, Value, null, text, other, Note, issues, originals}

-- Python's string functions on the texts of the fields, and the normalizer.
pub record Texts : Type 0 where
  pub upper : String → String
  pub points_at_other_book : String → Bool
  pub phone_only : String → Bool
  pub is_decimal : Char → Bool
  pub normalize_amount : Option (String → Option String)

-- `str(value or "")`
abbrev pub shown : Option Value → String
shown none = ""
shown (some null) = ""
shown (some (text s)) = s
shown (some (other true s)) = s
shown (some (other false s)) = ""

abbrev not_recorded_texts : List String
not_recorded_texts = "" ∷ "TIADA MAKLUMAT" ∷ "TIADA" ∷ "-" ∷ []

unfoldable not_recorded : Texts → Option Value → Bool
unfolding strip
not_recorded t v = mem (t.upper (strip (shown v))) not_recorded_texts

abbrev pub explained_by : List (String × List String)
explained_by =
    ("invalid husband age", "Umur Suami" ∷ [])
    ∷ ("invalid wife age", "Umur Isteri" ∷ [])
    ∷ ("missing mas kahwin", "Mas Kahwin" ∷ [])
    ∷ ("missing pendaftar name", "Nama Pendaftar" ∷ [])
    ∷ ("missing pendaftar address", "Alamat Pendaftar" ∷ [])
    ∷ ("invalid nikah date", "Tarikh Nikah" ∷ [])
    ∷ ("invalid keluar date", "Tarikh Keluar" ∷ [])
    ∷ ("missing wali name", "Nama Wali" ∷ [])
    ∷ ("missing wali relationship", "Hubungan Wali" ∷ [])
    ∷ ("missing saksi 1", "Saksi 1" ∷ [])
    ∷ ("missing saksi 2", "Saksi 2" ∷ [])
    ∷ []

abbrev pub ic_issues : List (String × List String)
ic_issues =
    ("missing or invalid husband IC", "IC Baru Suami" ∷ "IC Lama Suami" ∷ [])
    ∷ ("missing or invalid wife IC", "IC Baru Isteri" ∷ "IC Lama Isteri" ∷ [])
    ∷ (
      "missing both IC values",
      "IC Baru Suami" ∷ "IC Lama Suami" ∷ "IC Baru Isteri" ∷ "IC Lama Isteri" ∷ [],
    )
    ∷ []

abbrev pub rm_prefix_issue : String
rm_prefix_issue = "mas kahwin missing RM prefix"

abbrev pub cross_reference_issue : String
cross_reference_issue = "cross-reference note to another register book, not an actual record"

abbrev hollow_fields : List String
hollow_fields =
    "Nama Suami" ∷ "Nama Isteri" ∷ "IC Suami" ∷ "IC Isteri" ∷ "Tarikh Cerai" ∷ "Tarikh Rujuk" ∷ []

-- one pair of the row is nothing that a reviewer could enter
abbrev is_blank_pair : Texts → String × Value → Bool
is_blank_pair t (key, v) =
    mem key ("Bil" ∷ "Record Type" ∷ [])
    || not_recorded t (some v)
    || (key == "Hal Hal Lain" && t.phone_only (strip (shown (some v))))

unfoldable pub is_blank_entry : Texts → Fields → Bool
unfolding get all strip not_recorded
is_blank_entry t values =
    not (strip (shown (get "Bil" values)) == "") && all (is_blank_pair t) values

unfoldable pub is_pointer_to_other_book : Texts → Fields → Bool
unfolding get all strip not_recorded
is_pointer_to_other_book t values =
    let note = strip (shown (get "Hal Hal Lain" values)) in
    not (note == "")
    && t.points_at_other_book note
    && all (λ field. not_recorded t (get field values)) hollow_fields

-- what was replaced, and the values
abbrev pub State : Type 0
State = Fields × Fields

abbrev setdefault : String → Value → Fields → Fields
setdefault key v fields = if is_some (get key fields) then fields else put key v fields

abbrev or_null : Option Value → Value
or_null none = null
or_null (some v) = v

abbrev replaced : String → String → State → State
replaced field new (original, values) =
    (setdefault field (or_null (get field values)) original, put field (text new) values)

abbrev is_text : String → Option Value → Bool
is_text s (some (text v)) = v == s
is_text s _ = false

abbrev reformatted : String → Option String → State → Option State
reformatted field none state = none
reformatted field (some new) (original, values) =
    if is_text new (get field values)
    then some (original, values)
    else some (replaced field new (original, values))

digits_of : Texts → String → String
digits_of t String.[] = String.[]
digits_of t (String.◌∷◌ c s) =
    let rest = digits_of t s in if t.is_decimal c then String.◌∷◌ c rest else rest

has_letter : String → Bool
has_letter String.[] = false
has_letter (String.◌∷◌ c s) =
    (leb 65 (code c) && leb (code c) 90) || (leb 97 (code c) && leb (code c) 122) || has_letter s

size : String → ℕ
size String.[] = 0
size (String.◌∷◌ c s) = suc (size s)

prefix : ℕ → String → String
prefix zero s = String.[]
prefix (suc n) String.[] = String.[]
prefix (suc n) (String.◌∷◌ c s) = String.◌∷◌ c (prefix n s)

suffix : ℕ → String → String
suffix zero s = s
suffix (suc n) String.[] = String.[]
suffix (suc n) (String.◌∷◌ c s) = suffix n s

-- YYMMDD-PB-####, of a text with twelve digits and no letter
unfoldable format_ic : Texts → String → Option String
unfolding digits_of has_letter size prefix suffix
format_ic t s =
    let digits = digits_of t s in
    if not (size digits == 12) || has_letter s
    then none
    else some (prefix 6 digits +s "-" +s prefix 2 (suffix 6 digits) +s "-" +s suffix 8 digits)

unfoldable format_ics : Texts → List String → State → Option State
unfolding get put not_recorded format_ic
format_ics t [] state = some state
format_ics t (field ∷ fields) (original, values) =
    let recorded = get field values in
    elim (if not_recorded t recorded
      then some (original, values)
      else reformatted field (format_ic t (shown recorded)) (original, values)) [
        | none ↦ none
        | some state ↦ format_ics t fields state
      ]

abbrev amount_of : Texts → Fields → Option String
amount_of t values = elim t.normalize_amount [
  | none ↦ none
  | some normalize ↦ normalize (shown (get "Mas Kahwin" values))
]

abbrev with_amount : Option String → State → Option State
with_amount none state = none
with_amount (some amount) state =
    if amount == "" then none else some (replaced "Mas Kahwin" amount state)

abbrev if_unrecorded : Texts → Option (List String) → State → Option State
if_unrecorded t none state = none
if_unrecorded t (some fields) (original, values) =
    if all (λ field. not_recorded t (get field values)) fields
    then some (original, values)
    else none

abbrev by_ic : Texts → String → Option (List String) → State → Option State
by_ic t issue (some fields) state = format_ics t fields state
by_ic t issue none state = if_unrecorded t (get issue explained_by) state

-- One issue: the values with which it is explained, or nothing.
unfoldable pub explain : Texts → (issue : String) → State → Option State
unfolding get put all format_ics
explain t issue state =
    if issue == rm_prefix_issue
    then with_amount (amount_of t state.1) state
    else by_ic t issue (get issue ic_issues) state

unfoldable pub explain_all : Texts → List String → State → Option State
unfolding explain
explain_all t [] state = some state
explain_all t (issue ∷ rest) state = elim (explain t issue state) [
  | none ↦ none
  | some state' ↦ explain_all t rest state'
]

abbrev audited : List String → List (String × Note) → List (String × Note)
audited found normalized = put "auto_approved_not_recorded" (issues found) normalized

abbrev with_originals : Fields → List (String × Note) → List (String × Note)
with_originals [] audit = audit
with_originals (c ∷ cs) audit = put "auto_approved_original_values" (originals (c ∷ cs)) audit

-- The new values and the audit of them.
abbrev pub Resolution : Type 0
Resolution = Fields × List (String × Note)

abbrev pub resolution_of : List String → List (String × Note) → Option State → Option Resolution
resolution_of found normalized none = none
resolution_of found normalized (some (original, values)) =
    some (values, with_originals original (audited found normalized))

-- The values with which every issue is explained, or nothing: the record stays in review.
unfoldable pub resolve :
    Texts → Fields → (found : List String) (normalized : List (String × Note)) → Option Resolution
unfolding all put is_pointer_to_other_book is_blank_entry explain_all
resolve t field_values [] normalized = none
resolve t field_values (issue ∷ rest) normalized =
    if all (λ i. i == cross_reference_issue) (issue ∷ rest)
    then some (field_values, audited (issue ∷ rest) normalized)
    else if is_pointer_to_other_book t field_values || is_blank_entry t field_values
    then some (field_values, audited (issue ∷ rest) normalized)
    else resolution_of (issue ∷ rest) normalized (explain_all t (issue ∷ rest) ([], field_values))
