-- ===== src/Onedrive/Classification.antt =====
-- onedrive/service.py: how classified files are routed, and the two fallbacks for those that the
-- classifier could not place.
pub mod Neighbours
use marriage_be.Prelude.{
  ℕ, ◌+◌, String, Bool, true, false, ◌&&◌, ◌||◌, not, Option, none, some, List, [], ◌∷◌, map, ◌==◌,
  ◌≡◌, refl, leb, option_beq, nat_eq, string_eq, if◌then◌else◌,
}
use marriage_be.Prelude.Lower.{lower, contains}
use marriage_be.DocumentType.{DocumentType}
use marriage_be.DocumentType.Routing.{RouteKey, classification_to_document_type, classification_eq}

-- What `classify` reports of a file.
pub record Classification : Type 0 where
  pub doc_type : String
  pub record_type : Option String
  pub layout_variant : Option String
  pub status : String
  pub config_path : Option String

-- A downloaded file: its path below the download directory, its name, its extension in lower case,
-- its size, the first bytes of it and the SHA-256 of all.
pub record File : Type 0 where
  pub path : String
  pub name : String
  pub extension : String
  pub size : ℕ
  pub sample : List ℕ
  pub digest : String

abbrev pub Classified : Type 0
Classified = File × Classification

-- `next((c for _, c in files if c.status == "ROUTABLE"), None)`
unfoldable pub nearest : List Classified → Option Classification
nearest [] = none
nearest ((file, c) ∷ files) =
    let rest = nearest files in if c.status == "ROUTABLE" then some c else rest

abbrev pub is_unplaced : Classification → Bool
is_unplaced c = c.doc_type == "unknown" && c.status == "NEEDS_MANUAL_CLASSIFICATION"

abbrev pub same_key : Classification → Classification → Bool
same_key b a =
    b.doc_type == a.doc_type
    && option_beq b.record_type a.record_type
    && option_beq b.layout_variant a.layout_variant

unfoldable pub inherited : Classification → Classification
inherited before = record {
  doc_type = before.doc_type;
  record_type = before.record_type;
  layout_variant = before.layout_variant;
  status = "ROUTABLE";
  config_path = before.config_path;
}

-- the file's classification between the nearest routable ones on its two sides
unfoldable pub between : (before after : Option Classification) → Classification → Classification
unfolding inherited
between (some b) (some a) c = if is_unplaced c && same_key b a then inherited b else c
between _ _ c = c

-- The loop at one file: `done` is the updated part before it, the nearest file first.
unfoldable pub fall_back_from : (done todo : List Classified) → List Classified
unfolding nearest between
fall_back_from done [] = []
fall_back_from done ((file, c) ∷ todo) =
    let c' = between (nearest done) (nearest todo) c in
    (file, c') ∷ fall_back_from ((file, c') ∷ done) todo

unfoldable pub apply_neighbor_fallback : List Classified → List Classified
unfolding fall_back_from
apply_neighbor_fallback classified = fall_back_from [] classified

unfoldable is_nikah_batch : String → Bool
unfolding lower contains
is_nikah_batch batch_name = contains (lower "nikah") (lower batch_name)

abbrev nikah_page : Classification
nikah_page = record {
  doc_type = "handwritten";
  record_type = some "nikah";
  layout_variant = some "legacy";
  status = "ROUTABLE";
  config_path = none;
}

unfoldable as_nikah : Classified → Classified
as_nikah (file, c) = (file, if is_unplaced c then nikah_page else c)

unfoldable pub apply_nikah_batch_fallback : List Classified → String → List Classified
unfolding is_nikah_batch as_nikah
apply_nikah_batch_fallback classified batch_name =
    if is_nikah_batch batch_name then map as_nikah classified else classified

-- A document type, or the skip status to record.
pub data Route : Type 0 where
  ingest : DocumentType → Route
  skip : (status : String) → Route

abbrev type_or_unknown : Option DocumentType → Route
type_or_unknown none = skip "UNKNOWN_ROUTABLE_COMBINATION"
type_or_unknown (some t) = ingest t

abbrev route_as : Classification → Option String → Route
route_as c none = skip c.status
route_as c (some record_type) =
    if c.status == "ROUTABLE"
    then type_or_unknown
        (classification_to_document_type (c.doc_type, record_type, c.layout_variant))
    else skip c.status

unfoldable pub route : Classification → Route
route c = route_as c c.record_type

nikah_batches :
    map is_nikah_batch ("AKAD NIKAH 1999" ∷ "Cerai" ∷ "" ∷ []) ≡ true ∷ false ∷ false ∷ []
unfolding is_nikah_batch
nikah_batches = refl
