-- ===== src/Providers/Mock.antt =====
-- app/ai/providers/mock.py: the provider that classifies by keywords.
use tax_return_ai.Base.{
  ℕ, Bool, true, false, ◌&&◌, String, ◌<>◌, Option, none, some, List, [], ◌∷◌, leb, if◌then◌else◌,
  any, or_else, length, ◌==◌,
}
use tax_return_ai.Models.Tax.{FieldText, plain, ItemType}
use tax_return_ai.Classification.{ClassificationResult, take_chars}
use tax_return_ai.Text.{Text, codes, lower, strip}
use tax_return_ai.Workspaces.{has_text}
use tax_return_ai.Providers.Hosted.{occurs_in}

abbrev pub mentions : List String → Text → Bool
mentions words t = any (λ w. occurs_in (codes w) t) words

abbrev pub trigger_words : List String
trigger_words =
    "maybe" ∷ "possibly" ∷ "unsure" ∷ "blurry" ∷ "unclear" ∷ "reimbursed" ∷ "private" ∷ "mixed"
    ∷ "duplicate" ∷ []

abbrev pub base_result : String → ClassificationResult
base_result t = record {
  item_type = some ItemType.needs_review;
  category = some "needs_review";
  amount = none;
  description = some (some (plain ("Mock classification of: " <> take_chars 100 t <> "...")));
  confidence = some 5000;
  needs_review = some true;
  review_reason =
      some (plain "Mock provider — no real classification performed. Needs human review.");
  ato_reference_hint = none;
  model_version = some "mock-0.1";
}

-- `result.get("review_reason") or …`
abbrev pub reason_or : Option FieldText → FieldText → Option FieldText
reason_or reason default = if has_text reason then reason else some default

unfoldable pub apply_trigger : Bool → ClassificationResult → ClassificationResult
apply_trigger has_trigger r =
    if has_trigger && leb 7000 (or_else r.confidence 0)
    then record r {
      needs_review = some true;
      review_reason =
          reason_or r.review_reason (plain "Trigger terms detected — needs user confirmation.");
    }
    else r

-- What the six tests of the text update the base by.
pub record MockRule : Type 0 where
  pub keywords : List String
  pub item_type : ItemType
  pub category : String
  pub confidence : ℕ
  pub needs_review : Bool
  pub review_reason : Option String
  pub ato_reference_hint : Option String

abbrev pub deduction_of : List String → String → ℕ → Bool → Option String → MockRule
deduction_of keywords category confidence needs_review review_reason = record {
  keywords = keywords;
  item_type = ItemType.deduction;
  category = category;
  confidence = confidence;
  needs_review = needs_review;
  review_reason = review_reason;
  ato_reference_hint = some "D5";
}

abbrev pub mock_rules : Bool → List MockRule
mock_rules has_trigger =
    record {
      keywords = "salary" ∷ "wages" ∷ "income" ∷ [];
      item_type = ItemType.income;
      category = "salary_wages";
      confidence = 9500;
      needs_review = has_trigger;
      review_reason =
          if has_trigger then some "Review suggested due to uncertain terms in document." else none;
      ato_reference_hint = none;
    }
    ∷ deduction_of ("officeworks" ∷ "tools" ∷ "equipment" ∷ []) "tools_equipment" 7000 true
        (some "Work-use percentage not confirmed in document.")
    ∷ deduction_of ("electricity" ∷ "wfh" ∷ "home office" ∷ []) "work_from_home" 6500 true
        (some "Work-use percentage and reimbursement status not confirmed.")
    ∷ record {
      keywords = "bas" ∷ "gst" ∷ "abn" ∷ [];
      item_type = ItemType.out_of_scope;
      category = "out_of_scope";
      confidence = 8500;
      needs_review = true;
      review_reason = some (
          "BAS/GST language detected. May indicate business or sole trader activity "
          <> "requiring registered tax agent review.");
      ato_reference_hint = none;
    }
    ∷ deduction_of ("donation" ∷ "charity" ∷ "gift" ∷ []) "donation" 8000 false none
    ∷ deduction_of ("union" ∷ "membership" ∷ []) "union_fee" 9000 false none
    ∷ []

abbrev pub plain_or_none : Option String → Option FieldText
plain_or_none none = none
plain_or_none (some s) = some (plain s)

abbrev pub updated_by : MockRule → ClassificationResult → ClassificationResult
updated_by m r = record r {
  item_type = some m.item_type;
  category = some m.category;
  confidence = some m.confidence;
  needs_review = some m.needs_review;
  review_reason = plain_or_none m.review_reason;
  ato_reference_hint = m.ato_reference_hint;
}

unfoldable pub matched : String → Bool → List MockRule → List ClassificationResult
unfolding apply_trigger
matched t has_trigger [] = []
matched t has_trigger (m ∷ rules) =
    let rest = matched t has_trigger rules in
    if mentions m.keywords (lower (codes t))
    then apply_trigger has_trigger (updated_by m (base_result t)) ∷ rest
    else rest

abbrev pub empty_result : String → ClassificationResult
empty_result t = record (base_result t) {
  category = some "insufficient_evidence";
  confidence = some 1000;
  review_reason = some (plain "No extracted text to classify.");
}

-- `if not matched_any`
abbrev pub or_unmatched : String → Bool → List ClassificationResult → List ClassificationResult
or_unmatched t has_trigger [] = apply_trigger has_trigger (base_result t) ∷ []
or_unmatched t has_trigger (r ∷ rs) = r ∷ rs

unfoldable pub classify_mock : String → List ClassificationResult
unfolding matched
classify_mock t =
    let has_trigger = mentions trigger_words (lower (codes t)) in
    if length (strip (codes t)) == 0
    then empty_result t ∷ []
    else or_unmatched t has_trigger (matched t has_trigger (mock_rules has_trigger))
