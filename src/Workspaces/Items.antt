-- ===== src/Workspaces/Items.antt =====
-- The routes of app/routers/workspaces.py on the items of a workspace: the list, the review status,
-- and the item and the action of a manual review. The nonces are those that `encrypt_text` draws.
use tax_return_ai.Base.{
  ℕ, ◌+◌, Bool, true, false, ◌&&◌, not, String, Option, none, some, List, [], ◌∷◌, ◌++◌, ltb, leb,
  ◌||◌, ◌==◌, if◌then◌else◌, any, select, scalar_one_or_none, http, ◌>>=◌, ◌>>◌, pure, raise_if,
  modify, query, gets,
}
use tax_return_ai.Models.Account.{User}
use tax_return_ai.Models.Audit.{text, number, flag}
use tax_return_ai.Models.Tax.{
  FieldText, TaxItem, ReviewStatus, draft, confirmed, excluded, tax_agent_review, DocumentItem,
}
use tax_return_ai.Models.World.{World, Service, commit}
use tax_return_ai.Audit.{write_audit}
use tax_return_ai.Auth.Crypto.{Crypto}
use tax_return_ai.Scope.{found_or_404}
use tax_return_ai.Scope.Bridge.{open_workspace}
use tax_return_ai.Security.FieldEncryption.{TextCodec, is_empty, encrypt_text}
use tax_return_ai.Text.{codes, eq_text}
use tax_return_ai.Workspaces.{
  set_items, is_valid_status, is_open_status, has_text, require_session_field_key,
  require_field_key_for_write, decrypt_item_fields, update_item,
}

abbrev pub encryption_version : String
encryption_version = "v1"

abbrev pub default_key_version : String
default_key_version = "local-kdf-v1"

abbrev pub status_text : ReviewStatus → String
status_text draft = "draft"
status_text ReviewStatus.needs_review = "needs_review"
status_text confirmed = "confirmed"
status_text excluded = "excluded"
status_text tax_agent_review = "tax_agent_review"
status_text (ReviewStatus.other s) = s

-- `payload.review_status in {"needs_review", "confirmed", "excluded", "tax_agent_review"}`
abbrev pub is_settable : ReviewStatus → Bool
is_settable draft = false
is_settable s = is_valid_status s

-- `order_by(TaxItem.created_at.desc())`
abbrev pub insert_newest : TaxItem → List TaxItem → List TaxItem
insert_newest i [] = i ∷ []
insert_newest i (j ∷ js) =
    let rest = insert_newest i js in if leb j.created_at i.created_at then i ∷ j ∷ js else j ∷ rest

abbrev pub newest_first : List TaxItem → List TaxItem
newest_first [] = []
newest_first (i ∷ is) = insert_newest i (newest_first is)

abbrev pub has_encrypted_field : TaxItem → Bool
has_encrypted_field i =
    has_text i.description_enc || has_text i.review_reason_enc || has_text i.notes_enc

abbrev pub legacy_read : Option FieldText → Option FieldText → ℕ
legacy_read enc field = if not (has_text enc) && has_text field then 1 else 0

-- The loop that counts `legacy_plaintext_reads`.
abbrev pub legacy_reads : List TaxItem → ℕ
legacy_reads [] = 0
legacy_reads (i ∷ items) =
    legacy_read i.description_enc i.description
    + legacy_read i.notes_enc i.notes
    + legacy_read i.review_reason_enc i.review_reason
    + legacy_reads items

-- `review_status and review_status not in VALID_REVIEW_STATUSES`, and the filter itself
abbrev pub is_bad_filter : Option ReviewStatus → Bool
is_bad_filter none = false
is_bad_filter (some s) = not (is_valid_status s) && not (is_empty (status_text s))

abbrev pub passes_filter : Option ReviewStatus → TaxItem → Bool
passes_filter none i = true
passes_filter (some s) i =
    is_empty (status_text s)
    || eq_text (codes (status_text i.review_status)) (codes (status_text s))

-- `item.review_status = …; item.needs_review = …`
abbrev pub with_status : ReviewStatus → TaxItem → TaxItem
with_status status i = record i { review_status = status; needs_review = is_open_status status }

-- `db.add(item)`, and the link to the document
abbrev pub add_item : TaxItem → World → World
add_item i = set_items (λ items. items ++ i ∷ [])

abbrev pub add_link : DocumentItem → World → World
add_link l w = record w { db = record (w.db) { links = w.db.links ++ l ∷ [] } }

abbrev pub in_session : ℕ → ℕ → TaxItem → Bool
in_session item_id session_id i = i.id == item_id && i.session_id == session_id

-- The arguments of the request.
pub record StatusUpdate : Type 0 where
  pub review_status : ReviewStatus
  pub note : Option FieldText

unfoldable pub audit_legacy : Bool → ℕ → ℕ → String → ℕ → Service (Unit {0})
audit_legacy false now workspace_id entity reads = pure tt
audit_legacy true now workspace_id entity reads =
    write_audit now "tax_workspace" workspace_id "plaintext_legacy_read"
      (("entity", text entity) ∷ ("field_reads", number reads) ∷ [])

abbrev pub reviewed_by_user : ℕ → TaxItem → TaxItem
reviewed_by_user now i = record i { reviewed_at = some now; reviewed_by = some "user" }

module _ (c : Crypto) (u : TextCodec) where
  unfoldable pub decrypt_all : List TaxItem → ℕ → Service (List TaxItem)
  decrypt_all [] key = pure []
  decrypt_all (i ∷ items) key = do
    item ← decrypt_item_fields c u i key
    rest ← decrypt_all items key
    pure (item ∷ rest)

  unfoldable pub decrypt_if_any : Bool → ℕ → ℕ → List TaxItem → Service (List TaxItem)
  unfolding decrypt_all
  decrypt_if_any false now token items = pure items
  decrypt_if_any true now token items = do
    key ← require_session_field_key c now token
    decrypt_all items key

  -- `if note: review_reason_enc = encrypt_text(note, key)`, and the two versions with it
  unfoldable pub with_note : ℕ → ℕ → Option FieldText → TaxItem → TaxItem
  with_note nonce key note i =
      if has_text note
      then record i {
        review_reason = none;
        review_reason_enc = encrypt_text c u nonce note key default_key_version;
        encryption_version = some encryption_version;
        key_version = some default_key_version;
      }
      else record i { review_reason = none; review_reason_enc = none }

  -- What the route does once it has the row.
  unfoldable pub record_status : ℕ → ℕ → ℕ → StatusUpdate → TaxItem → Service TaxItem
  unfolding with_note
  record_status now nonce token payload item = do
    modify (update_item item.id (with_status payload.review_status))
    key ← require_field_key_for_write c now token "tax_item" item.id ("review_reason" ∷ [])
    let final = λ (i : TaxItem). reviewed_by_user now (with_note nonce key payload.note i)
    modify (update_item item.id final)
    write_audit now "tax_item" item.id "review_status_updated" (
        ("from_status", text (status_text item.review_status))
        ∷ ("to_status", text (status_text payload.review_status))
        ∷ ("has_note", flag (has_text payload.note))
        ∷ [])
    modify commit
    decrypt_item_fields c u (final (with_status payload.review_status item)) key

module _ (financial_year_of : String → String) (c : Crypto) (u : TextCodec) where
  unfoldable pub list_workspace_items :
      ℕ → User → ℕ → ℕ → Option ReviewStatus → Service (List TaxItem)
  unfolding decrypt_if_any audit_legacy
  list_workspace_items now user token workspace_id review_status = do
    raise_if (is_bad_filter review_status) (http 400 "Invalid review_status filter")
    opened ← open_workspace financial_year_of now user workspace_id
    let session = opened.1
    rows ← gets (λ w.
        newest_first
          (select (λ i. i.session_id == session.id && passes_filter review_status i) w.db.items))
    items ← decrypt_if_any c u (any has_encrypted_field rows) now token rows
    audit_legacy (ltb 0 (legacy_reads items)) now workspace_id "tax_item" (legacy_reads items)
    modify commit
    pure items

  unfoldable pub set_workspace_item_review_status :
      ℕ → ℕ → User → ℕ → ℕ → ℕ → StatusUpdate → Service TaxItem
  set_workspace_item_review_status now nonce user token workspace_id item_id payload = do
    raise_if (not (is_settable payload.review_status)) (http 400 "Invalid review_status")
    opened ← open_workspace financial_year_of now user workspace_id
    row ← query (λ w. scalar_one_or_none (select (in_session item_id (opened.1).id) w.db.items))
    item ← found_or_404 "Item not found" row
    record_status c u now nonce token payload item
