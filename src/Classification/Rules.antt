-- ===== src/Classification/Rules.antt =====
-- What the review rules of app/services/classification/__init__.py enforce, and when its calls of
-- the provider end.
use tax_return_ai.Base.{
  ℕ, ◌≡◌, ◌≤◌, ◌<◌, Bool, true, false, Option, none, some, List, or_else, arith, ok, err,
  connection_error, if◌then◌else◌, ◌++◌, All, ◌>>=◌,
}
use tax_return_ai.Workspaces.{has_text}
use tax_return_ai.Auth.Crypto.{Crypto}
use tax_return_ai.Security.FieldEncryption.{TextCodec, encrypt_text, is_covered}
use tax_return_ai.Models.Tax.{TaxItem, FieldText}
use tax_return_ai.Workspaces.Items.{default_key_version}
use tax_return_ai.Models.World.{World}
use tax_return_ai.Workspaces.Manual.{link_of}
use tax_return_ai.Audit.{write_audit}
use tax_return_ai.Config.{Settings}
use tax_return_ai.Classification.{
  ClassificationResult, Results, call_provider, attempts, ClassificationFormat, apply_review_rules,
  Crypto, TextCodec, TaxItem, encrypt_text, default_key_version, ClassificationCall, World,
  FieldText, link_of, get_session_field_key, write_audit, Settings,
}

module _ (p : ClassificationFormat) where
  -- X
  pub apply_review_rules-safe :
      (r : ClassificationResult)
      → let r' = apply_review_rules p r in
        (or_else r.confidence 0 < 7000 → r'.needs_review ≡ some true)
        × (r'.needs_review ≡ some true → has_text r'.review_reason ≡ true)
        × (has_text r.review_reason ≡ true → r'.review_reason ≡ r.review_reason)
        × (7000 ≤ or_else r.confidence 0 → r'.needs_review ≡ r.needs_review)
  unfolding apply_review_rules
  apply_review_rules-safe r = (ground arith, ground arith, ground arith, ground arith)

abbrev pub is_transient : Results → Bool
is_transient (err (connection_error message)) = true
is_transient _ = false

-- The loop over the attempts of a provider ends after two calls at most: its result is that of
-- the second call if the first meets a transient error, and that of the first call otherwise.
pub call_provider_twice :
    (classify : ℕ → Results)
    → call_provider classify ≡ (if is_transient (classify 1) then classify 2 else classify 1)
unfolding call_provider attempts
call_provider_twice classify = ground arith

module _ (c : Crypto) (u : TextCodec) (p : ClassificationFormat) (now : ℕ) (nonces : ℕ → ℕ) where
  -- A field that holds what the key has sealed, and no text in the clear.
  abbrev pub IsSealedBy : ℕ → Option FieldText → Type 0
  IsSealedBy key field =
      (is_covered field ≡ true)
      × ((nonce : ℕ) × (t : Option FieldText) × (field
            ≡ encrypt_text c u nonce t key default_key_version))

  -- What holds of every item that classification stores: its texts are sealed by the key, and a
  -- low confidence is flagged and explained.
  abbrev pub IsGuarded : ℕ → ℕ → TaxItem → Type 0
  IsGuarded key session_id i =
      (i.session_id ≡ session_id)
      × (i.description ≡ none)
      × (i.review_reason ≡ none)
      × IsSealedBy key i.description_enc
      × IsSealedBy key i.review_reason_enc
      × (or_else i.confidence 0 < 7000
          → (i.needs_review ≡ true) × (has_text i.review_reason_enc ≡ true))

  -- A stored classification: its items, sealed by the key, appended and committed.
  abbrev pub IsStoredBy : ℕ → ClassificationCall → List TaxItem → World → World → Type 0
  IsStoredBy key k items v w =
      All (IsGuarded key k.session_id) items
      × (w.db.items ≡ v.db.items ++ items)
      × (w.committed ≡ w.db)

  -- The key is that of the session when the classification begins.
  abbrev pub IsStored : ClassificationCall → List TaxItem → World → World → Type 0
  IsStored k items v w =
      (key : ℕ) × ((get_session_field_key now k.session_id v).0 ≡ ok (some key))
      × IsStoredBy key k items v w
