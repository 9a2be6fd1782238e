-- ===== src/Workspaces.antt =====
-- app/routers/workspaces.py: what its routes share. Each route reads the clock at one time `now`,
-- and its guard, app/db/auth_deps.py, has found the user before.
pub mod Summary
pub mod Items
pub mod Manual
pub mod Pages
pub mod Status
pub mod Events
pub mod Listing
pub mod Entry
pub mod Blocked
pub mod Pack
use tax_return_ai.Base.{
  ℕ, Bool, true, false, ◌&&◌, ◌||◌, not, String, Option, none, some, List, [], ◌∷◌, ◌==◌, is_some,
  length, if◌then◌else◌, update_where, Result, http, ◌>>=◌, ◌>>◌, pure, raise, raise_if, or_raise,
  modify, query, ok, err,
}
use tax_return_ai.Models.Account.{User}
use tax_return_ai.Models.Audit.{text, number, texts}
use tax_return_ai.Models.Tax.{
  FieldText, plain, sealed, TaxItem, ReviewStatus, draft, needs_review, confirmed, excluded,
  tax_agent_review, Document, DocumentStatus,
}
use tax_return_ai.Models.World.{World, Service, commit}
use tax_return_ai.Audit.{write_audit}
use tax_return_ai.Auth.Crypto.{Crypto}
use tax_return_ai.Auth.Guards.{locked, session_key}
use tax_return_ai.Security.FieldEncryption.{TextCodec, is_empty, decrypt_text, is_encrypted}

abbrev pub set_items : (List TaxItem → List TaxItem) → World → World
set_items f w = record w { db = record (w.db) { items = f w.db.items } }

abbrev pub set_documents : (List Document → List Document) → World → World
set_documents f w = record w { db = record (w.db) { documents = f w.db.documents } }

abbrev pub update_item : ℕ → (TaxItem → TaxItem) → World → World
update_item item_id f = set_items (update_where (λ i. i.id == item_id) f)

-- `review_status in VALID_REVIEW_STATUSES`
abbrev pub is_valid_status : ReviewStatus → Bool
is_valid_status (ReviewStatus.other s) = false
is_valid_status _ = true

-- `review_status in {"draft", "needs_review", "tax_agent_review"}`
abbrev pub is_open_status : ReviewStatus → Bool
is_open_status draft = true
is_open_status ReviewStatus.needs_review = true
is_open_status tax_agent_review = true
is_open_status _ = false

-- `doc.status in MANUAL_REVIEW_DOCUMENT_STATUSES`
abbrev pub needs_manual_review : DocumentStatus → Bool
needs_manual_review DocumentStatus.needs_review = true
needs_manual_review DocumentStatus.failed = true
needs_manual_review DocumentStatus.classification_failed = true
needs_manual_review DocumentStatus.extraction_failed = true
needs_manual_review _ = false

-- The truth of a text column: neither absent nor empty.
abbrev pub has_text : Option FieldText → Bool
has_text none = false
has_text (some (plain s)) = not (is_empty s)
has_text (some (sealed e)) = true

module _ (c : Crypto) where
  unfoldable pub require_session_field_key : ℕ → ℕ → Service ℕ
  require_session_field_key now token = do key ← session_key c now token; or_raise key locked

  unfoldable pub blocked_write : ℕ → String → ℕ → List String → Option ℕ → Service ℕ
  blocked_write now entity_type entity_id field_names (some key) = pure key
  blocked_write now entity_type entity_id field_names none = do
    write_audit now entity_type entity_id "encryption_key_missing"
        (("stage", text "write") ∷ ("field_count", number (length field_names)) ∷ [])
    write_audit now entity_type entity_id "encrypted_write_blocked"
        (("fields", texts field_names) ∷ [])
    modify commit
    raise locked

  unfoldable pub require_field_key_for_write : ℕ → ℕ → String → ℕ → List String → Service ℕ
  unfolding blocked_write
  require_field_key_for_write now token entity_type entity_id field_names = do
    key ← session_key c now token
    blocked_write now entity_type entity_id field_names key

  module _ (u : TextCodec) where
    -- `if enc: field = decrypt_text(enc, key)`
    unfoldable pub decrypted_or :
        Option FieldText → Option FieldText → ℕ → Result (Option FieldText)
    decrypted_or enc field key = if has_text enc then decrypt_text c u enc key else ok field

    -- The text of the field itself, where an older version has sealed it in place.
    abbrev pub unsealed : Option FieldText → ℕ → Result (Option FieldText)
    unsealed field key = if is_encrypted field then decrypt_text c u field key else ok field

    unfoldable pub decrypted_description : TaxItem → ℕ → Result (Option FieldText)
    decrypted_description i key =
        if has_text i.description_enc
        then decrypt_text c u i.description_enc key
        else unsealed i.description key

    -- `item.description = …`, and so on: an exception leaves the row as it is.
    unfoldable pub decrypt_description : TaxItem → ℕ → Service (Option FieldText)
    unfolding decrypted_description
    decrypt_description item key = do
      description ← query (λ w. decrypted_description item key)
      modify (update_item item.id (λ i. record i { description = description }))
      pure description

    unfoldable pub decrypt_notes : TaxItem → ℕ → Service (Option FieldText)
    unfolding decrypted_or
    decrypt_notes item key = do
      notes ← query (λ w. decrypted_or item.notes_enc item.notes key)
      modify (update_item item.id (λ i. record i { notes = notes }))
      pure notes

    unfoldable pub decrypt_review_reason : TaxItem → ℕ → Service (Option FieldText)
    unfolding decrypted_or
    decrypt_review_reason item key = do
      review_reason ← query (λ w. decrypted_or item.review_reason_enc item.review_reason key)
      modify (update_item item.id (λ i. record i { review_reason = review_reason }))
      pure review_reason

    unfoldable pub decrypt_item_fields : TaxItem → ℕ → Service TaxItem
    decrypt_item_fields item key = do
      description ← decrypt_description item key
      notes ← decrypt_notes item key
      review_reason ← decrypt_review_reason item key
      pure (record item { description = description; notes = notes; review_reason = review_reason })
