-- ===== src/Ingestion/Classifying.antt =====
-- `_run_classification` of app/services/ingestion/pipeline.py. The nonces are those that `encrypt_text`
-- draws, in order; the providers of the classification get the text and the financial year.
use tax_return_ai.Base.{
  ℕ, ◌+◌, String, ◌<>◌, Option, none, some, List, [], ◌∷◌, ◌==◌, if◌then◌else◌, any, select, length,
  ok, err, Result, Exn, provider_not_configured, ◌>>=◌, ◌>>◌, pure, raise, modify, query, or_else,
  scalar_one_or_none,
}
use tax_return_ai.Config.{Settings}
use tax_return_ai.Models.Audit.{Value, text, ident, number, flag}
use tax_return_ai.Models.JobRow.{running, succeeded, failed}
use tax_return_ai.Models.Tax.{Document, TaxItem, TaxSession}
use tax_return_ai.Models.World.{Service}
use tax_return_ai.Audit.{write_audit}
use tax_return_ai.Auth.Crypto.{Crypto}
use tax_return_ai.Classification.{Provider, Providers, get_provider, ClassificationFormat}
use tax_return_ai.Classification.Classify.{classify_document}
use tax_return_ai.Jobs.{update_status}
use tax_return_ai.Jobs.Runner.{catch, number_or_null}
use tax_return_ai.Security.FieldEncryption.{TextCodec, is_empty}
use tax_return_ai.Workspaces.Manual.{update_document}
use tax_return_ai.Ingestion.{
  IngestionFormat, progress_at, done, gave_up, pending_with, itemless, classified_now, needs_setup,
  unconfigured, unclassified,
}
use tax_return_ai.Ingestion.Ocr.{OcrProviders}

-- `session_row.financial_year if session_row else "2025-2026"`
abbrev pub year_of_session : Option TaxSession → String
year_of_session none = "2025-2026"
year_of_session (some s) = s.financial_year

unfoldable pub financial_year_of : Document → Service String
financial_year_of doc =
    if is_empty (or_else doc.financial_year "")
    then (do
      row ← query (λ w.
          scalar_one_or_none
            (select (λ (s : TaxSession). s.id == doc.session_id) w.db.tax_sessions))
      pure (year_of_session row))
    else pure (or_else doc.financial_year "")

abbrev pub first_details : TaxItem → List TaxItem → List (String × Value)
first_details i items =
    ("item_count", number (length items))
    ∷ ("first_item_id", ident i.id)
    ∷ ("first_category", text i.category)
    ∷ ("first_confidence", number_or_null i.confidence)
    ∷ ("needs_review", flag (any (λ (x : TaxItem). x.needs_review) items))
    ∷ []

module _ (c : Crypto) (u : TextCodec) (p : ClassificationFormat) (g : IngestionFormat)
    (o : OcrProviders) (providers : String → String → Providers) (s : Settings) (now : ℕ)
    (nonces : ℕ → ℕ) (processing_time_ms : ℕ) where
  -- The name that the document keeps: that of the provider's class, or the setting.
  abbrev pub provider_name : Result Provider → String
  provider_name (ok provider) = g.provider_class provider
  provider_name (err e) = g.lower_text (if is_empty s.ai_provider then "unknown" else s.ai_provider)

  -- What follows `classify_document`.
  unfoldable pub after_items : Document → ℕ → List TaxItem → Service (Unit {0})
  after_items doc job_id [] = do
    modify (update_document doc.id itemless)
    write_audit now "document" doc.id "needs_review"
        (("reason", text "classification_produced_no_items") ∷ [])
    update_status now job_id succeeded (
        done "No review items detected — manual review required"
          "{\"status\":\"needs_review\",\"reason\":\"classification_produced_no_items\",\"item_count\":0}")
    pure tt
  after_items doc job_id (i ∷ items) = do
    modify (update_document doc.id classified_now)
    write_audit now "document" doc.id "classified" (first_details i (i ∷ items))
    update_status now job_id succeeded (
        done (g.show_number (length (i ∷ items)) <> " items classified") (
          "{\"status\": \"classified\", \"item_count\": "
          <> g.show_number (length (i ∷ items))
          <> ", \"first_item_id\": \""
          <> g.show_id i.id
          <> "\", \"first_category\": \""
          <> i.category
          <> "\"}"))
    pure tt

  -- The two handlers.
  unfoldable pub classification_stopped : Document → ℕ → Exn → Service (Unit {0})
  classification_stopped doc job_id provider_not_configured = do
    modify (update_document doc.id unconfigured)
    write_audit now "document" doc.id "needs_review"
        (("reason", text "provider_not_configured") ∷ [])
    update_status now job_id succeeded
        (done needs_setup "{\"status\":\"needs_review\",\"reason\":\"provider_not_configured\"}")
    pure tt
  classification_stopped doc job_id e = do
    modify (update_document doc.id (unclassified (g.type_name e <> ": " <> g.show e)))
    write_audit now "document" doc.id "classification_failed" (("error", text (g.show e)) ∷ [])
    update_status now job_id failed
        (gave_up ("Classification failed: " <> g.show e) "{\"status\": \"classification_failed\"}")
    raise e

  unfoldable pub classify_text : Document → ℕ → String → Service (List TaxItem)
  unfolding financial_year_of
  classify_text doc n t = do
    fy ← financial_year_of doc
    classify_document c u p now (λ k. nonces (n + k)) (providers t fy) s
        (record {
          document_id = doc.id;
          session_id = doc.session_id;
          extracted_text = t;
          processing_time_ms = processing_time_ms;
        })

  -- `n` is the number of the nonces that the pages have taken. The class of a provider does not
  -- depend on the text and the year.
  unfoldable pub run_classification : Document → ℕ → ℕ → String → Service (Unit {0})
  unfolding classify_text after_items classification_stopped
  run_classification doc job_id n t = do
    update_status now job_id running (progress_at 90 "Classification in progress...")
    modify
        (update_document doc.id (pending_with (provider_name (get_provider (providers "" "") s))))
    catch (do items ← classify_text doc n t; after_items doc job_id items)
        (classification_stopped doc job_id)
