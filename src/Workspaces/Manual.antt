-- ===== src/Workspaces/Manual.antt =====
-- The manual review of a document that classification gave up, in app/routers/workspaces.py: the
-- list of such documents, the item that a user adds, and the two other ways out.
use tax_return_ai.Base.{
  ℕ, Bool, true, false, ◌&&◌, ◌||◌, String, Option, none, some, List, [], ◌∷◌, leb, ◌==◌,
  if◌then◌else◌, select, map, update_where, scalar_one_or_none, http, ◌>>=◌, ◌>>◌, pure, raise,
  modify, query, gets,
}
use tax_return_ai.Base.Int.{ℤ}
use tax_return_ai.Config.{Settings}
use tax_return_ai.Models.Account.{User}
use tax_return_ai.Models.Audit.{text, ident}
use tax_return_ai.Models.Tax.{
  FieldText, TaxItem, ItemType, ReviewStatus, Document, DocumentStatus, DocumentItem, TaxSession,
}
use tax_return_ai.Models.World.{World, Service, commit, uuid4}
use tax_return_ai.Audit.{write_audit}
use tax_return_ai.Auth.Crypto.{Crypto}
use tax_return_ai.Scope.{found_or_404}
use tax_return_ai.Scope.Bridge.{open_workspace}
use tax_return_ai.Security.FieldEncryption.{TextCodec, is_empty, encrypt_text}
use tax_return_ai.Text.{codes, eq_text, strip, lower}
use tax_return_ai.Workspaces.{
  set_documents, is_valid_status, is_open_status, needs_manual_review, has_text,
  require_field_key_for_write, decrypt_item_fields,
}
use tax_return_ai.Workspaces.Items.{
  encryption_version, default_key_version, status_text, add_item, add_link,
}
use tax_return_ai.Workspaces.Summary.{item_count, is_unresolved}

abbrev pub document_in_session : ℕ → ℕ → Document → Bool
document_in_session document_id session_id d = d.id == document_id && d.session_id == session_id

abbrev pub update_document : ℕ → (Document → Document) → World → World
update_document document_id f = set_documents (update_where (λ d. d.id == document_id) f)

-- `order_by(Document.created_at.desc())`
abbrev pub insert_newest : Document → List Document → List Document
insert_newest d [] = d ∷ []
insert_newest d (e ∷ es) =
    let rest = insert_newest d es in if leb e.created_at d.created_at then d ∷ e ∷ es else e ∷ rest

abbrev pub newest_first : List Document → List Document
newest_first [] = []
newest_first (d ∷ ds) = insert_newest d (newest_first ds)

-- `_runtime_provider_mode()`: an empty setting is "mock"
unfoldable pub runtime_provider_mode : Settings → String
runtime_provider_mode s =
    let provider = lower (codes s.ai_provider) in
    if is_empty s.ai_provider || eq_text provider (codes "mock")
    then "mock"
    else if eq_text provider (codes "openai") || eq_text provider (codes "anthropic")
    then "cloud"
    else "manual"

abbrev pub is_needs_review : DocumentStatus → Bool
is_needs_review DocumentStatus.needs_review = true
is_needs_review _ = false

-- One entry of the list.
pub record ManualDocument : Type 0 where
  pub id : ℕ
  pub filename : String
  pub status : DocumentStatus
  pub status_reason : Option String
  pub provider_mode : String
  pub item_count : ℕ
  pub created_at : ℕ

abbrev pub manual_document : Settings → List DocumentItem → Document → ManualDocument
manual_document s links d = record {
  id = d.id;
  filename = d.original_filename;
  status = d.status;
  status_reason = d.status_reason;
  provider_mode = if is_needs_review d.status then "manual" else runtime_provider_mode s;
  item_count = item_count links d;
  created_at = d.created_at;
}

module _ (financial_year_of : String → String) where
  unfoldable pub list_workspace_manual_review_documents :
      Settings → ℕ → User → ℕ → Service (List ManualDocument)
  unfolding runtime_provider_mode
  list_workspace_manual_review_documents s now user workspace_id = do
    opened ← open_workspace financial_year_of now user workspace_id
    let session = opened.1
    documents ← gets (λ w. newest_first (select (λ d. d.session_id == session.id) w.db.documents))
    links ← gets (λ w. w.db.links)
    modify commit
    pure (map (manual_document s links) (select (is_unresolved links) documents))

-- The arguments of the request.
pub record ManualItem : Type 0 where
  pub description : FieldText
  pub item_type : ItemType
  pub category : String
  pub amount : Option ℤ
  pub review_status : ReviewStatus
  pub note : Option FieldText

-- `payload.item_type or "needs_review"`, and so on
abbrev pub type_or_default : ItemType → ItemType
type_or_default (ItemType.other s) = if is_empty s then ItemType.needs_review else ItemType.other s
type_or_default t = t

abbrev pub category_or_default : String → String
category_or_default s = if is_empty s then "needs_review" else s

abbrev pub status_or_default : ReviewStatus → ReviewStatus
status_or_default s = if is_valid_status s then s else ReviewStatus.needs_review

abbrev pub link_of : ℕ → ℕ → ℕ → ℕ → Option String → DocumentItem
link_of now id document_id item_id snippet = record {
  id = id;
  document_id = document_id;
  tax_item_id = item_id;
  page_number = none;
  snippet = snippet;
  ocr_confidence = none;
  created_at = now;
}

abbrev pub resolved : Document → Document
resolved d = record d {
  status = DocumentStatus.reviewed;
  status_reason = some "Manual item added by user.";
}

abbrev pub resolved_if : Document → Document
resolved_if d = if needs_manual_review d.status then resolved d else d

module _ (c : Crypto) (u : TextCodec) where
  abbrev pub manual_item : ℕ → ℕ → ℕ → ℕ → ℕ → ℕ → ManualItem → TaxItem
  manual_item now id session_id nonce₁ nonce₂ key payload = record {
    id = id;
    session_id = session_id;
    item_type = type_or_default payload.item_type;
    category = category_or_default payload.category;
    amount = payload.amount;
    description = none;
    description_enc = encrypt_text c u nonce₁ (some payload.description) key default_key_version;
    notes = none;
    notes_enc = none;
    confidence = some 0;
    needs_review = is_open_status (status_or_default payload.review_status);
    review_status = status_or_default payload.review_status;
    review_reason = none;
    review_reason_enc =
        if has_text payload.note
        then encrypt_text c u nonce₂ payload.note key default_key_version
        else none;
    encryption_version = some encryption_version;
    key_version = some default_key_version;
    ato_reference_hint = none;
    reviewed_at = none;
    reviewed_by = some "user";
    created_at = now;
  }

  -- What the route does once it has the row.
  unfoldable pub record_manual_item :
      ℕ → ℕ → ℕ → ℕ → ℕ → ℕ → ManualItem → TaxSession → Document → Service TaxItem
  record_manual_item now nonce₁ nonce₂ token workspace_id document_id payload session doc = do
    key ←
        require_field_key_for_write c now token "tax_item" document_id
          ("description" ∷ "review_reason" ∷ [])
    id ← uuid4
    let item = manual_item now id session.id nonce₁ nonce₂ key payload
    modify (add_item item)
    link_id ← uuid4
    modify (add_link (link_of now link_id doc.id item.id none))
    modify (update_document doc.id resolved_if)
    write_audit now "tax_item" item.id "manual_item_created" (
        ("workspace_id", ident workspace_id)
        ∷ ("document_id", ident doc.id)
        ∷ ("review_status", text (status_text item.review_status))
        ∷ [])
    modify commit
    decrypt_item_fields c u item key

  module _ (financial_year_of : String → String) where
    unfoldable pub create_workspace_manual_item :
        ℕ → ℕ → ℕ → User → ℕ → ℕ → ℕ → ManualItem → Service TaxItem
    create_workspace_manual_item now nonce₁ nonce₂ user token workspace_id document_id payload = do
      opened ← open_workspace financial_year_of now user workspace_id
      let session = opened.1
      row ← query (λ w.
          scalar_one_or_none (select (document_in_session document_id session.id) w.db.documents))
      doc ← found_or_404 "Document not found" row
      record_manual_item now nonce₁ nonce₂ token workspace_id document_id payload session doc

-- The two actions that the route accepts.
pub data ManualAction : Type 0 where
  exclude_document tax_agent_review : ManualAction

-- `str(payload.get("action") or "").strip().lower()`
abbrev pub parsed_action : Option String → Option ManualAction
parsed_action none = none
parsed_action (some s) =
    let action = lower (strip (codes s)) in
    if eq_text action (codes "exclude_document")
    then some exclude_document
    else if eq_text action (codes "tax_agent_review")
    then some tax_agent_review
    else none

abbrev pub acted : ManualAction → Document → Document
acted exclude_document d = record d {
  status = DocumentStatus.reviewed;
  status_reason = some "Excluded by user from review pack.";
}
acted tax_agent_review d = record d {
  status = DocumentStatus.needs_review;
  status_reason = some "Marked for tax agent review.";
}

abbrev pub audit_action : ManualAction → String
audit_action exclude_document = "manual_review_document_excluded"
audit_action tax_agent_review = "manual_review_document_tax_agent_review"

module _ (financial_year_of : String → String) where
  pub apply_action : ℕ → User → ℕ → ℕ → Option ManualAction → Service (Unit {0})
  apply_action now user workspace_id document_id none =
      raise (http 400 "Invalid manual review action")
  apply_action now user workspace_id document_id (some action) = do
    opened ← open_workspace financial_year_of now user workspace_id
    row ← query (λ w.
        scalar_one_or_none (select (document_in_session document_id (opened.1).id) w.db.documents))
    doc ← found_or_404 "Document not found" row
    modify (update_document doc.id (acted action))
    write_audit now "document" doc.id (audit_action action)
        (("workspace_id", ident workspace_id) ∷ [])
    modify commit

  unfoldable pub apply_workspace_manual_review_action :
      ℕ → User → ℕ → ℕ → Option String → Service (Unit {0})
  unfolding apply_action
  apply_workspace_manual_review_action now user workspace_id document_id action =
      apply_action now user workspace_id document_id (parsed_action action)
