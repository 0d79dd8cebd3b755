-- ===== src/DocumentType/Routing.antt =====
-- onedrive/classification.py, and the tables of jobs/runner.py that a document type selects.
use marriage_be.Prelude.{
  String, Bool, true, false, ◌&&◌, ◌≡◌, refl, ◌↔◌, Option, none, some, List, [], ◌∷◌, arith, ◌==◌,
  mem, option_beq, some_inj, string_eq, eq_iff, Eq, get, get-All, All,
}
use marriage_be.DocumentType.{
  DocumentType, handwritten_register, handwritten_cerai_legacy, handwritten_cerai_modern,
  handwritten_rujuk_legacy, handwritten_rujuk_modern, typed_borang_4b, typed_nikah_legacy,
  typed_nikah_modern, typed_cerai_legacy, typed_cerai_modern, typed_rujuk_legacy,
  typed_rujuk_modern, handwritten_document_types, typed_document_types, document_type_eq,
}

-- `route_key`: (doc_type, record_type, layout_variant)
abbrev pub RouteKey : Type 0
RouteKey = String × String × Option String

pub classification_beq : RouteKey → RouteKey → Bool
classification_beq (d, k, l) (d', k', l') = d == d' && k == k' && option_beq l l'

pub classification_beq_iff : (a b : RouteKey) → (classification_beq a b ≡ true) ↔ (a ≡ b)
unfolding classification_beq
classification_beq_iff (d, k, some l) (d', k', some l') = (
  λ h. ground (arith, eq_iff d d', eq_iff k k', eq_iff l l'),
  λ h. ground (arith, eq_iff d d', eq_iff k k', eq_iff l l'),
)
classification_beq_iff (d, k, l) (d', k', l') =
    (λ h. ground (arith, eq_iff d d', eq_iff k k'), λ h. ground (arith, eq_iff d d', eq_iff k k'))

instance unfoldable pub classification_eq : Eq RouteKey
unfolding classification_beq
classification_eq = record { equal = classification_beq; equal_iff = classification_beq_iff }

abbrev routes : List (RouteKey × DocumentType)
routes =
    (("handwritten", "nikah", some "legacy"), handwritten_register)
    ∷ (("handwritten", "cerai", some "legacy"), handwritten_cerai_legacy)
    ∷ (("handwritten", "cerai", some "modern"), handwritten_cerai_modern)
    ∷ (("handwritten", "rujuk", some "legacy"), handwritten_rujuk_legacy)
    ∷ (("handwritten", "rujuk", some "modern"), handwritten_rujuk_modern)
    ∷ (("typed", "nikah", some "legacy"), typed_nikah_legacy)
    ∷ (("typed", "nikah", some "modern"), typed_nikah_modern)
    ∷ (("typed", "cerai", some "legacy"), typed_cerai_legacy)
    ∷ (("typed", "cerai", some "modern"), typed_cerai_modern)
    ∷ (("typed", "rujuk", some "legacy"), typed_rujuk_legacy)
    ∷ (("typed", "rujuk", some "modern"), typed_rujuk_modern)
    ∷ []

unfoldable pub classification_to_document_type : RouteKey → Option DocumentType
unfolding get classification_eq
classification_to_document_type c = get c routes

unfoldable pub cli_command : DocumentType → String
cli_command handwritten_register = "process"
cli_command handwritten_cerai_legacy = "process"
cli_command handwritten_cerai_modern = "process"
cli_command handwritten_rujuk_legacy = "process"
cli_command handwritten_rujuk_modern = "process"
cli_command typed_borang_4b = "process-typed"
cli_command typed_nikah_legacy = "process-typed"
cli_command typed_nikah_modern = "process-typed"
cli_command typed_cerai_legacy = "process-typed"
cli_command typed_cerai_modern = "process-typed"
cli_command typed_rujuk_legacy = "process-typed"
cli_command typed_rujuk_modern = "process-typed"

unfoldable pub config_filename : DocumentType → Option String
config_filename handwritten_cerai_legacy = some "handwritten_cerai_legacy.yaml"
config_filename handwritten_cerai_modern = some "handwritten_cerai_modern.yaml"
config_filename handwritten_rujuk_legacy = some "handwritten_rujuk_legacy.yaml"
config_filename handwritten_rujuk_modern = some "handwritten_rujuk_modern.yaml"
config_filename typed_nikah_legacy = some "typed_nikah_legacy.yaml"
config_filename typed_nikah_modern = some "typed_nikah_modern.yaml"
config_filename typed_cerai_legacy = some "typed_cerai_legacy.yaml"
config_filename typed_cerai_modern = some "typed_cerai_modern.yaml"
config_filename typed_rujuk_legacy = some "typed_rujuk_legacy.yaml"
config_filename typed_rujuk_modern = some "typed_rujuk_modern.yaml"
config_filename handwritten_register = none
config_filename typed_borang_4b = none

-- The command of a type is `process-typed` exactly for the types of `TYPED_DOCUMENT_TYPES`, and
-- `process` exactly for those of `HANDWRITTEN_DOCUMENT_TYPES`, and no type is in both sets.
cli_command-by_set :
    (t : DocumentType)
    → ((cli_command t == "process-typed") ≡ mem t typed_document_types)
      × ((cli_command t == "process") ≡ mem t handwritten_document_types)
      × ((mem t typed_document_types && mem t handwritten_document_types) ≡ false)
unfolding cli_command
cli_command-by_set handwritten_register = (refl, refl, refl)
cli_command-by_set _ = (refl, refl, refl)

-- The one classification from which a type comes; the older `typed_borang_4b` comes from none.
unfoldable pub classification_of : DocumentType → Option RouteKey
classification_of handwritten_register = some ("handwritten", "nikah", some "legacy")
classification_of handwritten_cerai_legacy = some ("handwritten", "cerai", some "legacy")
classification_of handwritten_cerai_modern = some ("handwritten", "cerai", some "modern")
classification_of handwritten_rujuk_legacy = some ("handwritten", "rujuk", some "legacy")
classification_of handwritten_rujuk_modern = some ("handwritten", "rujuk", some "modern")
classification_of typed_borang_4b = none
classification_of typed_nikah_legacy = some ("typed", "nikah", some "legacy")
classification_of typed_nikah_modern = some ("typed", "nikah", some "modern")
classification_of typed_cerai_legacy = some ("typed", "cerai", some "legacy")
classification_of typed_cerai_modern = some ("typed", "cerai", some "modern")
classification_of typed_rujuk_legacy = some ("typed", "rujuk", some "legacy")
classification_of typed_rujuk_modern = some ("typed", "rujuk", some "modern")

routes-classified : All (λ (r : RouteKey × DocumentType). classification_of r.1 ≡ some r.0) routes
unfolding classification_of
routes-classified =
    (refl, (refl, (refl, (refl, (refl, (refl, (refl, (refl, (refl, (refl, (refl, tt)))))))))))

routed_back :
    (t : DocumentType) {c : RouteKey}
    → classification_of t ≡ some c
    → classification_to_document_type c ≡ some t
unfolding classification_of classification_to_document_type
routed_back typed_borang_4b h = cc
routed_back handwritten_register h = rw (← some_inj h) refl
routed_back _ h = rw (← some_inj h) refl

-- A classification is routed to a type exactly if it is that type's own: no two classifications
-- share a type, and `TYPED_BORANG_4B`, which has none, is never produced.
classification_iff :
    (c : RouteKey) (t : DocumentType)
    → (classification_to_document_type c ≡ some t) ↔ (classification_of t ≡ some c)
unfolding classification_to_document_type
classification_iff c t =
    (get-All (λ c t. classification_of t ≡ some c) c t routes routes-classified, routed_back t)
