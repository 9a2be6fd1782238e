-- ===== src/Classification.antt =====
-- app/services/classification/__init__.py and app/ai/factory.py: the classification of the text of a
-- document by the configured provider. The providers themselves are arguments.

pub mod Classify
pub mod Rules
use tax_return_ai.Base.{
  ℕ, zero, suc, ◌+◌, ◌*◌, Bool, true, false, ◌&&◌, not, String, ◌<>◌, Option, none, some, List, [],
  ◌∷◌, ◌++◌, ltb, ◌==◌, or_else, is_some, holds_id, if◌then◌else◌, map, any, first, select, length,
  scalar_one_or_none, Result, ok, err, Exn, value_error, key_unavailable, connection_error,
  provider_not_configured, ◌>>=◌, ◌>>◌, pure, raise, modify, query, gets, call, map_some,
}
use tax_return_ai.Base.Int.{ℤ}
use tax_return_ai.Config.{Settings}
use tax_return_ai.Models.Account.{TaxWorkspace}
use tax_return_ai.Models.Audit.{text, ident, number, flag, texts, optional_texts, optional_numbers}
use tax_return_ai.Models.Tax.{
  FieldText, plain, TaxSession, TaxItem, ItemType, ReviewStatus, ClassificationRow, DocumentItem,
}
use tax_return_ai.Models.World.{World, Service, commit, uuid4}
use tax_return_ai.Audit.{write_audit}
use tax_return_ai.Auth.Crypto.{Crypto}
use tax_return_ai.Jobs.Runner.{catch}
use tax_return_ai.Security.FieldEncryption.{TextCodec, is_empty, encrypt_text}
use tax_return_ai.Security.KeyCache.{get_user_active_key}
use tax_return_ai.Text.{codes, eq_text, lower}
use tax_return_ai.Workspaces.{has_text}
use tax_return_ai.Workspaces.Items.{encryption_version, default_key_version, add_item, add_link}
use tax_return_ai.Workspaces.Manual.{link_of}

-- The dict that a provider returns for an item: a key that is absent is `none`. Confidence is in
-- ten-thousandths.
pub record ClassificationResult : Type 0 where
  pub item_type : Option ItemType
  pub category : Option String
  pub amount : Option ℤ
  pub description : Option (Option FieldText)
  pub confidence : Option ℕ
  pub needs_review : Option Bool
  pub review_reason : Option FieldText
  pub ato_reference_hint : Option String
  pub model_version : Option String

abbrev pub Results : Type 0
Results = Result (List ClassificationResult)

-- What a provider does at its first, second, … call.
pub record Provider : Type 0 where
  pub name : String
  pub classify : ℕ → Results

pub record Providers : Type 0 where
  pub anthropic : Provider
  pub openai : Provider
  pub deepseek : Provider
  pub mock : Provider

-- `get_provider()`
unfoldable pub get_provider : Providers → Settings → Result Provider
get_provider p s =
    let name = lower (codes s.ai_provider) in
    if eq_text name (codes "anthropic")
    then ok p.anthropic
    else if eq_text name (codes "openai")
    then ok p.openai
    else if eq_text name (codes "deepseek")
    then ok p.deepseek
    else if eq_text name (codes "mock")
    then ok p.mock
    else err (value_error ("Unknown AI_PROVIDER: " <> s.ai_provider))

-- `for attempt in range(1, max_attempts + 1)`: the attempts that are left, and the number of the
-- next. The last one raises what it meets.
abbrev pub retry_or_raise : Results → Results → Results
retry_or_raise (ok rs) again = ok rs
retry_or_raise (err (connection_error message)) again = again
retry_or_raise (err e) again = err e

unfoldable pub attempts : (ℕ → Results) → ℕ → ℕ → Results
attempts classify zero attempt = classify attempt
attempts classify (suc left) attempt =
    let again = attempts classify left (suc attempt) in retry_or_raise (classify attempt) again

abbrev pub max_attempts : ℕ
max_attempts = 2

unfoldable pub call_provider : (ℕ → Results) → Results
unfolding attempts
call_provider classify = attempts classify 1 1

-- `CONFIDENCE_REVIEW_THRESHOLD`
abbrev pub threshold : ℕ
threshold = 7000

-- What Python's formatting gives: `:.0%` of a confidence, the JSON of the results, the text of an
-- exception, and the ids joined by commas.
pub record ClassificationFormat : Type 0 where
  pub percent : ℕ → String
  pub dump : List ClassificationResult → String
  pub show : Exn → String
  pub join_ids : List ℕ → ℕ

abbrev pub needs : ClassificationResult → Bool
needs r = or_else r.needs_review false

module _ (p : ClassificationFormat) where
  abbrev pub low_confidence_reason : ℕ → FieldText
  low_confidence_reason c =
      plain ("Low confidence (" <> p.percent c <> "). " <> "Requires human review before use.")

  abbrev pub flag_low : ClassificationResult → ClassificationResult
  flag_low r = record r {
    needs_review = some true;
    review_reason =
        if has_text r.review_reason
        then r.review_reason
        else some (low_confidence_reason (or_else r.confidence 0));
  }

  abbrev pub explain : ClassificationResult → ClassificationResult
  explain r =
      if needs r && not (has_text r.review_reason)
      then record r { review_reason = some (plain "Requires human review.") }
      else r

  unfoldable pub apply_review_rules : ClassificationResult → ClassificationResult
  apply_review_rules r = explain (if ltb (or_else r.confidence 0) threshold then flag_low r else r)

-- The users of the join of the session with its workspace.
abbrev pub users_of : ℕ → List TaxSession → List TaxWorkspace → List ℕ
users_of session_id [] workspaces = []
users_of session_id (s ∷ sessions) workspaces =
    let rest = users_of session_id sessions workspaces in
    if s.id == session_id
    then map (λ (ws : TaxWorkspace). ws.user_id)
        (select (λ ws. holds_id s.workspace_id ws.id) workspaces)
      ++ rest
    else rest

unfoldable pub key_of_user : ℕ → Option ℕ → Service (Option ℕ)
key_of_user now none = pure none
key_of_user now (some user_id) =
    if user_id == 0
    then pure none
    else call (λ w.
      let (key, cache) = get_user_active_key user_id now w.key_cache in
      (key, record w { key_cache = cache }))

-- `_get_session_field_key`
unfoldable pub get_session_field_key : ℕ → ℕ → Service (Option ℕ)
unfolding key_of_user
get_session_field_key now session_id = do
  user_id ← query (λ w. scalar_one_or_none (users_of session_id w.db.tax_sessions w.db.workspaces))
  key_of_user now user_id

abbrev pub add_classification : ClassificationRow → World → World
add_classification r w = record w {
  db = record (w.db) { classifications = w.db.classifications ++ r ∷ [] };
}

abbrev pub not_configured_message : String
not_configured_message = "AI classification is not configured. Document needs manual review."

-- `extracted_text[:500] if extracted_text else None`
abbrev pub take_chars : ℕ → String → String
take_chars n String.[] = ""
take_chars n (String.◌∷◌ c s) = elim n [ zero ↦ "" | suc m ↦ String.◌∷◌ c (take_chars m s) ]

abbrev pub snippet_of : String → Option String
snippet_of s = if is_empty s then none else some (take_chars 500 s)

-- The arguments of `classify_document` that its records keep, and the time that the calls took.
pub record ClassificationCall : Type 0 where
  pub document_id : ℕ
  pub session_id : ℕ
  pub extracted_text : String
  pub processing_time_ms : ℕ
