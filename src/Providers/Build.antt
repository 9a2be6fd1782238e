-- ===== src/Providers/Build.antt =====
-- `build_classification_result` of app/ai/providers/shared.py.
use tax_return_ai.Base.{
  Bool, not, String, ◌<>◌, Option, none, some, List, [], ◌∷◌, if◌then◌else◌, or_else, any, ◌++◌,
}
use tax_return_ai.Models.Tax.{plain, ItemType}
use tax_return_ai.Classification.{ClassificationResult}
use tax_return_ai.Security.FieldEncryption.{is_empty}
use tax_return_ai.Text.{codes, eq_text}
use tax_return_ai.Providers.{Analysis}

abbrev pub ato_ref_map : List (String × String)
ato_ref_map =
    ("salary_wages", "Salary/Wages")
    ∷ ("work_related_car_expense", "D1")
    ∷ ("work_related_travel_expense", "D2")
    ∷ ("work_related_clothing_laundry", "D3")
    ∷ ("work_related_self_education", "D4")
    ∷ ("work_from_home", "D5")
    ∷ ("tools_equipment", "D5")
    ∷ ("union_fee", "D5")
    ∷ ("professional_membership_fee", "D5")
    ∷ ("donation", "D5")
    ∷ ("tax_agent_fee", "D5")
    ∷ ("income_protection", "D5")
    ∷ ("bank_interest", "Interest")
    ∷ ("dividend", "Dividend")
    ∷ ("government_payment", "Government Payment")
    ∷ ("foreign_income", "Foreign Income")
    ∷ ("business_income", "Business Income")
    ∷ []

abbrev pub lookup_text : String → List (String × String) → Option String
lookup_text k [] = none
lookup_text k ((name, value) ∷ rows) =
    let rest = lookup_text k rows in if eq_text (codes name) (codes k) then some value else rest

unfoldable pub infer_ato_reference : String → Option String
infer_ato_reference category = lookup_text category ato_ref_map

-- `separator.join(parts)`
abbrev pub join : String → List String → String
join separator [] = ""
join separator (p ∷ []) = p
join separator (p ∷ q ∷ parts) = p <> separator <> join separator (q ∷ parts)

-- `review_status not in (…)`
abbrev pub settled_statuses : List String
settled_statuses = "auto_classified" ∷ "user_confirmed" ∷ "ready_for_export" ∷ []

unfoldable pub status_needs_review : Option String → Bool
status_needs_review status =
    not (any (λ s. eq_text (codes s) (codes (or_else status "needs_user_review"))) settled_statuses)

-- A part of the reason, if there is something to say.
abbrev pub part_of_text : String → List String
part_of_text s = if is_empty s then [] else s ∷ []

abbrev pub part_of_list : String → String → List String → List String
part_of_list label separator [] = []
part_of_list label separator (x ∷ xs) = (label <> join separator (x ∷ xs)) ∷ []

abbrev pub joined_parts : List String → String
joined_parts [] = "Requires human review."
joined_parts (p ∷ parts) = join " | " (p ∷ parts)

unfoldable pub review_reason_of : Analysis → String
review_reason_of a = joined_parts (
    part_of_text (or_else a.reasoning_summary "")
    ++ (part_of_list "Missing fields: " ", " (or_else a.missing_fields [])
        ++ part_of_list "Suggested: " "; " (or_else a.suggested_user_questions [])))

-- `parsed.get("ato_reference_hint") or _infer_ato_reference(category)`
abbrev pub hint_or : Option String → Option String → Option String
hint_or none inferred = inferred
hint_or (some h) inferred = if is_empty h then inferred else some h

unfoldable pub build_classification_result : String → String → Analysis → ClassificationResult
unfolding status_needs_review review_reason_of infer_ato_reference
build_classification_result provider_name default_description a =
    let needs_review = status_needs_review a.review_status in
    let category = or_else a.category "needs_review" in
    record {
      item_type = some (or_else a.item_type ItemType.needs_review);
      category = some category;
      amount = a.amount;
      description = some (some (plain (or_else a.description default_description)));
      confidence = some (or_else a.confidence 5000);
      needs_review = some needs_review;
      review_reason = if needs_review then some (plain (review_reason_of a)) else none;
      ato_reference_hint = hint_or a.ato_reference_hint (infer_ato_reference category);
      model_version = or_else a.model_version (some provider_name);
    }
