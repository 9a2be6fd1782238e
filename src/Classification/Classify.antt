-- ===== src/Classification/Classify.antt =====
-- `classify_document` of app/services/classification/__init__.py. The nonces are those that
-- `encrypt_text` draws, in order.
use tax_return_ai.Base.{
  ℕ, suc, ◌+◌, true, false, String, Option, none, some, List, [], ◌∷◌, or_else, map, any, length,
  ok, err, Exn, key_unavailable, provider_not_configured, ◌>>=◌, ◌>>◌, pure, raise, modify, query,
}
use tax_return_ai.Config.{Settings}
use tax_return_ai.Models.Audit.{text, ident, number, flag, texts, optional_texts, optional_numbers}
use tax_return_ai.Models.Tax.{FieldText, plain, TaxItem, ItemType, ReviewStatus, ClassificationRow}
use tax_return_ai.Models.World.{Service, commit, uuid4}
use tax_return_ai.Audit.{write_audit}
use tax_return_ai.Auth.Crypto.{Crypto}
use tax_return_ai.Security.FieldEncryption.{TextCodec, encrypt_text}
use tax_return_ai.Workspaces.Items.{encryption_version, default_key_version, add_item, add_link}
use tax_return_ai.Workspaces.Manual.{link_of}
use tax_return_ai.Classification.{
  ClassificationResult, Provider, Providers, get_provider, call_provider, ClassificationFormat,
  apply_review_rules, needs, get_session_field_key, add_classification, not_configured_message,
  snippet_of, ClassificationCall,
}

-- A row of `classification_results`: the fields that all its three uses share.
abbrev pub blank_row : ℕ → ℕ → ClassificationCall → String → ClassificationRow
blank_row now id k provider_name = record {
  id = id;
  document_id = k.document_id;
  session_id = k.session_id;
  provider_name = provider_name;
  raw_input = none;
  raw_input_enc = none;
  raw_output = none;
  raw_output_enc = none;
  encryption_version = none;
  key_version = none;
  parsed_output = none;
  confidence = none;
  processing_time_ms = some k.processing_time_ms;
  success = false;
  error_message = none;
  model_version = none;
  created_at = now;
}

abbrev pub first_confidence : List ClassificationResult → Option ℕ
first_confidence [] = none
first_confidence (r ∷ rs) = r.confidence

abbrev pub first_model : List ClassificationResult → Option String
first_model [] = none
first_model (r ∷ rs) = r.model_version

module _ (c : Crypto) (u : TextCodec) (p : ClassificationFormat) (now : ℕ) (nonces : ℕ → ℕ) where
  abbrev pub sealed_text : ℕ → ℕ → String → Option FieldText
  sealed_text n key s = encrypt_text c u (nonces n) (some (plain s)) key default_key_version

  abbrev pub success_row :
      ℕ → ClassificationCall → String → ℕ → List ClassificationResult → ClassificationRow
  success_row id k provider_name key results = record (blank_row now id k provider_name) {
    raw_input_enc = sealed_text 0 key k.extracted_text;
    raw_output_enc = sealed_text 1 key (p.dump results);
    encryption_version = some encryption_version;
    key_version = some default_key_version;
    parsed_output = some (p.dump results);
    confidence = first_confidence results;
    success = true;
    model_version = first_model results;
  }

  -- The item of a result; `review_status` takes the default of its column.
  unfoldable pub item_of_result : ℕ → ℕ → ℕ → ℕ → ClassificationResult → TaxItem
  item_of_result id n session_id key r = record {
    id = id;
    session_id = session_id;
    item_type = or_else r.item_type ItemType.needs_review;
    category = or_else r.category "needs_review";
    amount = r.amount;
    description = none;
    description_enc =
        encrypt_text c u (nonces n) (or_else r.description (some (plain "Classified by AI"))) key
          default_key_version;
    notes = none;
    notes_enc = none;
    confidence = some (or_else r.confidence 0);
    needs_review = or_else r.needs_review true;
    review_status = ReviewStatus.needs_review;
    review_reason = none;
    review_reason_enc = encrypt_text c u (nonces (suc n)) r.review_reason key default_key_version;
    encryption_version = some encryption_version;
    key_version = some default_key_version;
    ato_reference_hint = r.ato_reference_hint;
    reviewed_at = none;
    reviewed_by = some "system";
    created_at = now;
  }

  -- The loop over the results: `n` is the number of the next nonce.
  unfoldable pub create_items :
      ClassificationCall → ℕ → ℕ → List ClassificationResult → Service (List TaxItem)
  create_items k key n [] = pure []
  create_items k key n (r ∷ results) = do
    id ← uuid4
    let item = item_of_result id n k.session_id key r
    modify (add_item item)
    link_id ← uuid4
    modify (add_link (link_of now link_id k.document_id id (snippet_of k.extracted_text)))
    rest ← create_items k key (n + 2) results
    pure (item ∷ rest)

  unfoldable pub record_results :
      ClassificationCall → String → ℕ → List ClassificationResult → Service (List TaxItem)
  record_results k provider_name key answered = do
    let results = map (apply_review_rules p) answered
    id ← uuid4
    modify (add_classification (success_row id k provider_name key results))
    items ← create_items k key 2 results
    write_audit now "tax_item" (p.join_ids (map (λ (i : TaxItem). i.id) items)) "classified" (
        ("document_id", ident k.document_id)
        ∷ ("provider", text provider_name)
        ∷ ("item_count", number (length items))
        ∷ ("categories", optional_texts (map (λ (r : ClassificationResult). r.category) results))
        ∷ (
          "confidences",
          optional_numbers (map (λ (r : ClassificationResult). r.confidence) results),
        )
        ∷ ("needs_review", flag (any needs results))
        ∷ [])
    modify commit
    pure items

  -- The two handlers of the exceptions of a provider.
  unfoldable pub record_failure : ClassificationCall → String → ℕ → Exn → Service (List TaxItem)
  record_failure k provider_name key provider_not_configured = do
    id ← uuid4
    modify (
        add_classification (record (blank_row now id k provider_name) {
          raw_input_enc = sealed_text 0 key k.extracted_text;
          error_message = some not_configured_message;
        }))
    write_audit now "classification_result" id "provider_not_configured" (
        ("document_id", ident k.document_id)
        ∷ ("provider", text provider_name)
        ∷ ("processing_time_ms", number k.processing_time_ms)
        ∷ [])
    modify commit
    raise provider_not_configured
  record_failure k provider_name key e = do
    id ← uuid4
    modify (
        add_classification (record (blank_row now id k provider_name) {
          raw_input = some (plain k.extracted_text);
          error_message = some (p.show e);
        }))
    write_audit now "classification_result" id "failed" (
        ("document_id", ident k.document_id)
        ∷ ("provider", text provider_name)
        ∷ ("error", text (p.show e))
        ∷ ("processing_time_ms", number k.processing_time_ms)
        ∷ [])
    modify commit
    raise e

  unfoldable pub classify_with : ClassificationCall → Provider → Option ℕ → Service (List TaxItem)
  classify_with k provider none = do
    write_audit now "classification_result" k.document_id "encryption_key_missing"
        (("stage", text "classification_write") ∷ ("session_id", ident k.session_id) ∷ [])
    write_audit now "classification_result" k.document_id "encrypted_write_blocked" (
        (
          "fields",
          texts
              ("raw_input" ∷ "raw_output" ∷ "tax_item.description" ∷ "tax_item.review_reason" ∷ []),
        )
        ∷ [])
    modify commit
    raise (key_unavailable "Workspace encryption key unavailable")
  classify_with k provider (some key) = elim (call_provider provider.classify) [
    | ok results ↦ record_results k provider.name key results
    | err e ↦ record_failure k provider.name key e
  ]

  unfoldable pub classify_document :
      Providers → Settings → ClassificationCall → Service (List TaxItem)
  classify_document providers s k = do
    provider ← query (λ w. get_provider providers s)
    key ← get_session_field_key now k.session_id
    classify_with k provider key
