-- ===== src/Tests/Review.antt =====
-- The reports on a session with one item, which needs review.
use tax_return_ai.Tests.Scope.{item_in}
use tax_return_ai.Base.{◌≡◌, none, some, List, [], ◌∷◌, if◌then◌else◌, ◌==◌}
use tax_return_ai.Models.Tax.{TaxSession, TaxItem}
use tax_return_ai.Review.Format.{Format}
use tax_return_ai.Review.Compliance.{report_of, needs_review_count, completed, in_progress}
use tax_return_ai.Review.Readiness.{report_of-status}

abbrev pub test_format : Format
test_format = record {
  field = λ t. "a text";
  percent = λ n. "90%";
  head8 = λ n. "51";
  ident = λ n. "42";
  decimal = λ n. "1";
}

abbrev test_session : TaxSession
test_session = record {
  id = 42;
  workspace_id = some 32;
  title = none;
  financial_year = "2024-2025";
  status = "draft";
  notes = none;
  created_at = 50;
}

abbrev test_items : List TaxItem
test_items = item_in 51 42 ∷ []

report_of-status_example :
    (report_of test_format test_session [] test_items).review_status
    ≡ (if needs_review_count test_format test_items == 0 then completed else in_progress)
report_of-status_example = report_of-status test_format test_session [] test_items
