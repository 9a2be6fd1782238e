-- ===== src/Tests/Providers.antt =====
-- An answer with a text before its object, from a vendor whose client fails first, and a receipt for
-- the mock provider.
use tax_return_ai.Base.{
  ℕ, ◌≡◌, ◌≢◌, ◌↔◌, refl, true, String, Option, none, some, List, [], ◌==◌, ok, err,
  connection_error, if◌then◌else◌, All, Exn, Result,
}
use tax_return_ai.Classification.{call_provider, ClassificationResult}
use tax_return_ai.Models.Tax.{ItemType}
use tax_return_ai.Providers.{Json, Analysis, object}
use tax_return_ai.Providers.Blocks.{IsFirstBlock, first_block_iff}
use tax_return_ai.Providers.Contract.{MeetsContract, classify_mock-MeetsContract}
use tax_return_ai.Providers.Hosted.{Hosted, openai_provider, classify_hosted}
use tax_return_ai.Providers.Mock.{classify_mock, mentions, trigger_words}
use tax_return_ai.Providers.Parse.{first_block}
use tax_return_ai.Providers.Rules.{keeps_contract, call_provider-classify_hosted}
use tax_return_ai.Text.{Text, codes, eq_text, lower}

first_block_iff_example :
    (first_block (codes "Sure: {a{}} and {b}") ≡ some (codes "{a{}}"))
    ↔ IsFirstBlock (codes "Sure: {a{}} and {b}") (codes "{a{}}")
first_block_iff_example = first_block_iff (codes "Sure: {a{}} and {b}") (codes "{a{}}")

was_cut : first_block (codes "Sure: {a{}} and {b}") ≡ some (codes "{a{}}")
unfolding first_block
was_cut = refl

-- A brace in a string of the object ends the block too early.
was_cut_short : first_block (codes "So: {\"a\": \"}\"}") ≡ some (codes "{\"a\": \"}")
unfolding first_block
was_cut_short = refl

abbrev sure_analysis : Analysis
sure_analysis = record {
  item_type = some ItemType.deduction;
  category = some "donation";
  amount = none;
  description = none;
  confidence = some 8000;
  review_status = some "auto_classified";
  reasoning_summary = none;
  missing_fields = none;
  suggested_user_questions = none;
  ato_reference_hint = none;
  model_version = none;
}

abbrev test_loads : Text → Option Json
test_loads t = if eq_text t (codes "{}") then some (object sure_analysis) else none

abbrev show_exn : Exn → String
show_exn e = "timeout"

abbrev hosted : Hosted
hosted = openai_provider "deepseek" "deepseek-v4-flash" "key"

abbrev slow_client : ℕ → Result String
slow_client attempt = if attempt == 1 then err (connection_error "timeout") else ok "Here: {}"

call_provider-classify_hosted_example :
    (call_provider (classify_hosted test_loads show_exn hosted slow_client)
      ≡ classify_hosted test_loads show_exn hosted slow_client 1)
    × (keeps_contract (call_provider (classify_hosted test_loads show_exn hosted slow_client))
        ≡ true)
call_provider-classify_hosted_example =
    call_provider-classify_hosted test_loads show_exn hosted slow_client

abbrev answer : List ClassificationResult
answer = elim (classify_hosted test_loads show_exn hosted slow_client 2) [ ok rs ↦ rs | err e ↦ [] ]

classify_mock-MeetsContract_example :
    All
      (MeetsContract (mentions trigger_words (lower (codes "Donation, possibly private"))))
      (classify_mock "Donation, possibly private")
    × (classify_mock "Donation, possibly private" ≢ [])
classify_mock-MeetsContract_example = classify_mock-MeetsContract "Donation, possibly private"
