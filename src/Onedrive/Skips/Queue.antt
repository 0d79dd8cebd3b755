-- ===== src/Onedrive/Skips/Queue.antt =====
-- onedrive/service.py: the document type of a queued download.
use marriage_be.Prelude.{
  String, true, some, [], ◌∷◌, ◌≡◌, refl, ◌∙◌, arith, get, put, get-put, merge, select, string_eq,
}
use marriage_be.DocumentType.{DocumentType, handwritten_register, type_text, type_of_text}
use marriage_be.Db.Rows.{Fields, Value, null, text}
use marriage_be.Db.Result.{ok}
use marriage_be.Onedrive.Repository.Skipped.{has, named, merged, change_item, not_null}
use marriage_be.Onedrive.Skips.{queued_refetch, claim_entry, named_type}

-- a text that is found survives the removal of the nulls
get-select :
    (key s : String) (fields : Fields)
    → get key fields ≡ some (text s)
    → get key (select (λ (c : String × Value). not_null c.1) fields) ≡ some (text s)
unfolding get select
get-select key s [] h = cc
get-select key s ((k, null) ∷ fields) h = ground (arith, get-select key s fields)
get-select key s ((k, v) ∷ fields) h = ground (arith, get-select key s fields)

queued-status :
    (name now : String) (item : Fields)
    → get "refetch_status" (merge item (queued_refetch name now)) ≡ some (text "QUEUED")
unfolding merge queued_refetch
queued-status name now item =
    get-put "refetch_updated_at" "refetch_status" (text now) _
    ∙ (get-put "refetch_error" "refetch_status" null _
        ∙ (get-put "refetch_document_type" "refetch_status" (text name) _
            ∙ get-put "refetch_status" "refetch_status" (text "QUEUED") item))

queued-type :
    (name now : String) (item : Fields)
    → get "refetch_document_type" (merge item (queued_refetch name now)) ≡ some (text name)
unfolding merge queued_refetch
queued-type name now item =
    get-put "refetch_updated_at" "refetch_document_type" (text now) _
    ∙ (get-put "refetch_error" "refetch_document_type" null _
        ∙ get-put "refetch_document_type" "refetch_document_type" (text name)
            (put "refetch_status" (text "QUEUED") item))

named_type-type_text : (t : DocumentType) → named_type (type_text t) ≡ ok (some t)
unfolding type_text type_of_text
named_type-type_text handwritten_register = refl
named_type-type_text _ = refl

-- A skipped file that a reviewer queued for a download as a document type, with whatever else its
-- entry says, is claimed by the next background download with that very type.
pub queue-claim :
    (t : DocumentType) (filename now : String) (item : Fields)
    → named filename item ≡ true
    → claim_entry (change_item filename (queued_refetch (type_text t) now) item) ≡ ok (some t)
unfolding claim_entry change_item merged has
queue-claim t filename now item h =
    let after = merge item (queued_refetch (type_text t) now) in
    let status =
      get-select "refetch_status" "QUEUED" after (queued-status (type_text t) now item) in
    let name =
      get-select "refetch_document_type" (type_text t) after (queued-type (type_text t) now item) in
    rw (h, has, status, name) (named_type-type_text t)
