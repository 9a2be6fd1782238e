-- ===== src/Tests/Classification.antt =====
-- Classifications of a document whose provider fails once and then answers with a doubtful item.
use tax_return_ai.Base.{
  ℕ, false, none, some, List, [], ◌∷◌, ok, err, connection_error, if◌then◌else◌, ◌==◌,
}
use tax_return_ai.Base.Int.{pos}
use tax_return_ai.Models.Tax.{TaxItem, ItemType}
use tax_return_ai.Tests.{test_crypto}
use tax_return_ai.Tests.Items.{test_utf8}
use tax_return_ai.Classification.Classify.{item_of_result}
use tax_return_ai.Classification.{
  ClassificationResult, Results, Provider, Providers, ClassificationFormat, ClassificationCall,
  apply_review_rules,
}

abbrev doubtful : ClassificationResult
doubtful = record {
  item_type = some ItemType.deduction;
  category = some "other";
  amount = some (pos 1200);
  description = none;
  confidence = some 4000;
  needs_review = some false;
  review_reason = none;
  ato_reference_hint = none;
  model_version = none;
}

abbrev answers : ℕ → Results
answers attempt = if attempt == 1 then err (connection_error "reset") else ok (doubtful ∷ [])

abbrev test_provider : Provider
test_provider = record { name = "mock"; classify = answers }

abbrev pub test_providers : Providers
test_providers = record {
  anthropic = test_provider;
  openai = test_provider;
  deepseek = test_provider;
  mock = test_provider;
}

abbrev pub test_classification_format : ClassificationFormat
test_classification_format = record {
  percent = λ n. "40%";
  dump = λ results. "[]";
  show = λ e. "error";
  join_ids = λ ids. 0;
}

abbrev test_call : ClassificationCall
test_call = record {
  document_id = 71;
  session_id = 41;
  extracted_text = "Invoice 12.00";
  processing_time_ms = 30;
}

abbrev stored_items : List TaxItem
stored_items =
    item_of_result test_crypto test_utf8 test_classification_format 100 (λ n. n) 1001 2 41 77
      (apply_review_rules test_classification_format doubtful)
    ∷ []
