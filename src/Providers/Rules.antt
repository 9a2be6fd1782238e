-- ===== src/Providers/Rules.antt =====
-- What the hosted providers can answer and raise, and what the classification makes of it.
use tax_return_ai.Base.{
  ℕ, ◌≡◌, ◌≤◌, ◌⊎◌, refl, Bool, true, false, Option, some, Result, ok, err, Exn, provider_error,
  provider_not_configured, arith, String, ltb, connection_error, All, ap, ◌∙◌, ◌<◌,
}
use tax_return_ai.Classification.{
  ClassificationResult, Results, call_provider, ClassificationFormat, apply_review_rules,
}
use tax_return_ai.Classification.Rules.{is_transient, call_provider_twice}
use tax_return_ai.Providers.{Json, Analysis}
use tax_return_ai.Providers.Trusted.{IsTrusted}
use tax_return_ai.Providers.Build.{build_classification_result}
use tax_return_ai.Providers.Hosted.{Hosted, classify_hosted, answered, wrapped}
use tax_return_ai.Text.{Text}

-- The exceptions of app/ai/providers/base.py.
abbrev pub is_provider_error : Exn → Bool
is_provider_error (provider_error message) = true
is_provider_error provider_not_configured = true
is_provider_error _ = false

-- Whether a call answers, or raises one of them.
abbrev pub keeps_contract : Results → Bool
keeps_contract (ok results) = true
keeps_contract (err e) = is_provider_error e

is_transient-provider : (r : Results) → keeps_contract r ≡ true → is_transient r ≡ false
is_transient-provider (ok results) e = refl
is_transient-provider (err (connection_error message)) e = absurd (ground (arith, e))
is_transient-provider (err _) e = refl

ltb_sound : (a b : ℕ) → ltb a b ≡ true → a < b
ltb_sound a b e = ground arith

ltb_complete : (a b : ℕ) → ltb a b ≡ false → b ≤ a
ltb_complete a b e = ground arith

call_provider_once :
    (classify : ℕ → Results)
    → is_transient (classify 1) ≡ false
    → call_provider classify ≡ classify 1
call_provider_once classify e = ground (arith, e, call_provider_twice classify)

module _ (loads : Text → Option Json) (show : Exn → String) (h : Hosted) where
  wrapped-keeps_contract : (r : Results) → keeps_contract (wrapped loads show h r) ≡ true
  unfolding wrapped
  wrapped-keeps_contract (ok results) = refl
  wrapped-keeps_contract (err e) = ground arith

  classify_hosted-keeps_contract :
      (complete : ℕ → Result String) (attempt : ℕ)
      → keeps_contract (classify_hosted loads show h complete attempt) ≡ true
  unfolding classify_hosted
  classify_hosted-keeps_contract complete attempt =
      ground (arith, wrapped-keeps_contract (answered loads show h (complete attempt)))

  -- Whatever a vendor's client gives at its attempts, and whatever its exceptions are, the calls
  -- of a hosted provider that the classification makes end with the result of the first, since
  -- this is never one of the exceptions that are tried again: it answers, or raises one of the
  -- two provider errors.
  pub call_provider-classify_hosted :
      (complete : ℕ → Result String)
      → (call_provider (classify_hosted loads show h complete)
          ≡ classify_hosted loads show h complete 1)
        × (keeps_contract (call_provider (classify_hosted loads show h complete)) ≡ true)
  call_provider-classify_hosted complete =
      let first = classify_hosted-keeps_contract complete 1 in
      let once =
        call_provider_once (classify_hosted loads show h complete)
          (is_transient-provider (classify_hosted loads show h complete 1) first) in
      (once, ap keeps_contract once ∙ first)

  module _ (p : ClassificationFormat) where
    -- What becomes of an object of the answer: the result that is built from it is flagged, except
    -- if the object is trusted.
    abbrev pub IsJudged : Analysis → ClassificationResult → Type 0
    IsJudged a r =
        (r ≡ build_classification_result h.provider_name h.default_description a)
        × ((IsTrusted a × ((apply_review_rules p r).needs_review ≡ some false))
            ⊎ ((¬ IsTrusted a) × ((apply_review_rules p r).needs_review ≡ some true)))

    -- A result of an answer without an object is flagged.
    abbrev pub IsJustified : ClassificationResult → Type 0
    IsJustified r =
        (((apply_review_rules p r).needs_review ≡ some true) × (r.confidence ≡ some 1000))
        ⊎ ((a : Analysis) × IsJudged a r)

    abbrev AllJustified : Results → Type 0
    AllJustified (ok results) = All IsJustified results
    AllJustified (err e) = Unit
