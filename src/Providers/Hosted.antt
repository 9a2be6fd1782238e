-- ===== src/Providers/Hosted.antt =====
-- app/ai/providers/openai.py and anthropic.py: one call of a vendor's client, which is an argument, and
-- what becomes of its answer. DeepSeek is OpenAIProvider with another name.
use tax_return_ai.Base.{
  ℕ, Bool, true, String, ◌<>◌, Option, none, some, List, [], ◌∷◌, Result, ok, err, Exn,
  provider_error, provider_not_configured, if◌then◌else◌, any,
}
use tax_return_ai.Models.Tax.{plain, ItemType}
use tax_return_ai.Classification.{ClassificationResult, Results, take_chars}
use tax_return_ai.Security.FieldEncryption.{is_empty}
use tax_return_ai.Text.{Text, codes, lower, eq_text}
use tax_return_ai.Providers.{Json, falsy, object, malformed}
use tax_return_ai.Providers.Parse.{parse_json_response, starts_with}
use tax_return_ai.Providers.Build.{build_classification_result}

-- What the two classes differ in, with the key and the name that an instance has.
pub record Hosted : Type 0 where
  pub provider_name : String
  pub label : String
  pub api_key : String
  pub default_description : String
  pub failed_description : String
  pub failed_reason : String
  pub model : String
  pub credential_words : List String

abbrev pub openai_provider : String → String → String → Hosted
openai_provider provider_name model api_key = record {
  provider_name = provider_name;
  label = if eq_text (codes provider_name) (codes "deepseek") then "DeepSeek" else "OpenAI";
  api_key = api_key;
  default_description = "Classified by AI provider.";
  failed_description = "AI provider response could not be parsed.";
  failed_reason = "Failed to parse response. Raw: ";
  model = model;
  credential_words = "authentication" ∷ "api key" ∷ "unauthorized" ∷ "invalid_api_key" ∷ [];
}

abbrev pub anthropic_provider : String → String → Hosted
anthropic_provider model api_key = record {
  provider_name = "anthropic";
  label = "Anthropic";
  api_key = api_key;
  default_description = "Classified by Anthropic.";
  failed_description = "Anthropic response could not be parsed.";
  failed_reason = "Failed to parse Claude response. Raw: ";
  model = model;
  credential_words =
      "authentication" ∷ "api key" ∷ "unauthorized" ∷ "could not resolve authentication" ∷ [];
}

-- `k in msg`
abbrev pub occurs_in : Text → Text → Bool
occurs_in word [] = starts_with word []
occurs_in word (c ∷ s) = if starts_with word (c ∷ s) then true else occurs_in word s

module _ (loads : Text → Option Json) (show : Exn → String) (h : Hosted) where
  unfoldable pub fallback_result : String → ClassificationResult
  fallback_result raw = record {
    item_type = some ItemType.needs_review;
    category = some "needs_review";
    amount = none;
    description = some (some (plain h.failed_description));
    confidence = some 1000;
    needs_review = some true;
    review_reason = some (plain (h.failed_reason <> take_chars 200 raw <> "..."));
    ato_reference_hint = none;
    model_version = some h.model;
  }

  -- `if parsed: …`
  unfoldable pub result_of : String → Option Json → Results
  unfolding fallback_result
  result_of raw (some (object a)) =
      ok (build_classification_result h.provider_name h.default_description a ∷ [])
  result_of raw (some (malformed e)) = err e
  result_of raw (some falsy) = ok (fallback_result raw ∷ [])
  result_of raw none = ok (fallback_result raw ∷ [])

  -- The body of the `try`, on what the client gives.
  unfoldable pub answered : Result String → Results
  unfolding result_of
  answered (err e) = err e
  answered (ok raw) = result_of raw (parse_json_response loads (codes raw))

  -- `except Exception as e: …`
  unfoldable pub wrapped : Results → Results
  wrapped (ok results) = ok results
  wrapped (err e) =
      if any (λ word. occurs_in (codes word) (lower (codes (show e)))) h.credential_words
      then err provider_not_configured
      else err (provider_error (h.label <> " provider failure: " <> show e))

  unfoldable pub classify_hosted : (ℕ → Result String) → ℕ → Results
  unfolding answered wrapped
  classify_hosted complete attempt =
      if is_empty h.api_key
      then err provider_not_configured
      else wrapped (answered (complete attempt))
