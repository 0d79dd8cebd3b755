-- ===== src/DocumentType.antt =====
-- batches/status.py: the document types, and the two sets into which they fall.
pub mod Routing
use marriage_be.Prelude.{
  Eq, ℕ, String, Option, none, some, ◌++◌, refl, string_eq, if◌then◌else◌, ◌≡◌, ◌↔◌, Bool, true,
  false, ◌||◌, List, [], ◌∷◌, arith, ◌==◌, mem, nat_eq,
}

pub data DocumentType : Type 0 where
  handwritten_register handwritten_cerai_legacy handwritten_cerai_modern : DocumentType
  handwritten_rujuk_legacy handwritten_rujuk_modern : DocumentType
  typed_borang_4b typed_nikah_legacy typed_nikah_modern typed_cerai_legacy : DocumentType
  typed_cerai_modern typed_rujuk_legacy typed_rujuk_modern : DocumentType

-- the members of the enumeration in their order, by which they are told apart
abbrev pub index : DocumentType → ℕ
index handwritten_register = 0
index handwritten_cerai_legacy = 1
index handwritten_cerai_modern = 2
index handwritten_rujuk_legacy = 3
index handwritten_rujuk_modern = 4
index typed_borang_4b = 5
index typed_nikah_legacy = 6
index typed_nikah_modern = 7
index typed_cerai_legacy = 8
index typed_cerai_modern = 9
index typed_rujuk_legacy = 10
index typed_rujuk_modern = 11

abbrev type_beq : DocumentType → DocumentType → Bool
type_beq a b = index a == index b

index_inj : (a b : DocumentType) → index a ≡ index b → a ≡ b
index_inj a b h = ground arith

pub type_beq_iff : (a b : DocumentType) → (type_beq a b ≡ true) ↔ (a ≡ b)
type_beq_iff a b = (λ h. index_inj a b (ground arith), λ h. ground arith)

instance abbrev pub document_type_eq : Eq DocumentType
document_type_eq = record { equal = type_beq; equal_iff = type_beq_iff }

abbrev pub handwritten_document_types : List DocumentType
handwritten_document_types =
    handwritten_register ∷ handwritten_cerai_legacy ∷ handwritten_cerai_modern
    ∷ handwritten_rujuk_legacy ∷ handwritten_rujuk_modern ∷ []

abbrev pub typed_document_types : List DocumentType
typed_document_types =
    typed_borang_4b ∷ typed_nikah_legacy ∷ typed_nikah_modern ∷ typed_cerai_legacy
    ∷ typed_cerai_modern ∷ typed_rujuk_legacy ∷ typed_rujuk_modern ∷ []

-- the values of the members
unfoldable pub type_text : DocumentType → String
type_text handwritten_register = "HANDWRITTEN_REGISTER"
type_text handwritten_cerai_legacy = "HANDWRITTEN_CERAI_LEGACY"
type_text handwritten_cerai_modern = "HANDWRITTEN_CERAI_MODERN"
type_text handwritten_rujuk_legacy = "HANDWRITTEN_RUJUK_LEGACY"
type_text handwritten_rujuk_modern = "HANDWRITTEN_RUJUK_MODERN"
type_text typed_borang_4b = "TYPED_BORANG_4B"
type_text typed_nikah_legacy = "TYPED_NIKAH_LEGACY"
type_text typed_nikah_modern = "TYPED_NIKAH_MODERN"
type_text typed_cerai_legacy = "TYPED_CERAI_LEGACY"
type_text typed_cerai_modern = "TYPED_CERAI_MODERN"
type_text typed_rujuk_legacy = "TYPED_RUJUK_LEGACY"
type_text typed_rujuk_modern = "TYPED_RUJUK_MODERN"

-- `DocumentType(name)`, which raises for a name that is no member's value
unfoldable first_named : (name : String) → List DocumentType → Option DocumentType
unfolding type_text
first_named name [] = none
first_named name (t ∷ ts) = if type_text t == name then some t else first_named name ts

unfoldable pub type_of_text : String → Option DocumentType
unfolding first_named
type_of_text name = first_named name (handwritten_document_types ++ typed_document_types)

-- A document type is read back from its value.
type_of_text-type_text : (t : DocumentType) → type_of_text (type_text t) ≡ some t
unfolding type_of_text type_text
type_of_text-type_text handwritten_register = refl
type_of_text-type_text _ = refl
