-- ===== src/Review/Compliance.antt =====
-- app/services/compliance_review/__init__.py: the rules on one item, and the report on a session.
use tax_return_ai.Base.{
  ℕ, ◌+◌, Bool, true, false, ◌&&◌, ◌||◌, not, String, ◌<>◌, Option, none, some, List, [], ◌∷◌, ◌++◌,
  ltb, ◌==◌, is_some, if◌then◌else◌, select, count, length, map, scalar_one_or_none, value_error,
  ◌>>=◌, pure, raise, query, gets,
}
use tax_return_ai.Models.Tax.{TaxSession, Document, TaxItem}
use tax_return_ai.Models.World.{Service}
use tax_return_ai.Review.Format.{
  Format, is_one_of, same_text, dedupe, entry, field_or, has_low_confidence, is_income,
  is_deduction, is_out_of_scope,
}

pub data RiskLevel : Type 0 where
  low medium high : RiskLevel

pub data EvidenceStatus : Type 0 where
  complete partial missing_or_incomplete : EvidenceStatus

abbrev pub tax_agent_categories : List (String × String)
tax_agent_categories =
    ("mixed_use", "Mixed-use asset — apportionment requires tax agent guidance.")
    ∷ ("capital_asset", "Asset over $300 — decline in value calculation may be complex.")
    ∷ ("rental_property", "Rental property deductions require capital works schedules.")
    ∷ ("investment_loss", "Capital gains/losses require ATO reconciliation.")
    ∷ ("foreign_income", "Foreign income may require specific ATO disclosure.")
    ∷ ("crypto", "Cryptocurrency transactions require ATO record-keeping.")
    ∷ ("business_income", "Business/sole-trader income requires BAS reconciliation.")
    ∷ ("other", "Check ATO guidance — category requires professional review.")
    ∷ []

unfoldable pub assess_risk : TaxItem → RiskLevel
assess_risk i =
    if i.needs_review && is_one_of ("mixed_use" ∷ "capital_asset" ∷ "other" ∷ []) i.category
    then high
    else if i.needs_review
    then medium
    else if has_low_confidence i
    then medium
    else low

unfoldable pub assess_evidence : TaxItem → EvidenceStatus
assess_evidence i =
    if is_one_of ("mixed_use" ∷ "donation" ∷ []) i.category
    then partial
    else if i.needs_review
    then partial
    else if not (is_some i.amount)
    then missing_or_incomplete
    else complete

pub record ItemReview : Type 0 where
  pub item_id : ℕ
  pub category : String
  pub risk_level : RiskLevel
  pub review_status : String
  pub evidence_status : EvidenceStatus
  pub date_in_financial_year : Bool
  pub findings : List String
  pub required_actions : List String
  pub requires_tax_agent : Bool
  pub tax_agent_reason : Option String

-- `if c: texts.append(…)`
abbrev pub append_if : Bool → List String → List String
append_if c texts = if c then texts else []

abbrev pub lacks_amount : TaxItem → Bool
lacks_amount i = not (is_some i.amount) && (is_income i.item_type || is_deduction i.item_type)

abbrev pub agent_reason : TaxItem → Option String
agent_reason i = if i.needs_review then entry tax_agent_categories i.category else none

abbrev pub reason_list : Option String → List String
reason_list none = []
reason_list (some r) = r ∷ []

module _ (p : Format) where
  abbrev pub name_of : TaxItem → String
  name_of i = field_or p i.description i.category

  abbrev pub confidence_text : TaxItem → String
  confidence_text i = elim i.confidence [ none ↦ "" | some c ↦ p.percent c ]

  unfoldable pub findings_of : TaxItem → List String
  findings_of i =
      (if i.needs_review
          then "Item flagged for review: " <> field_or p i.review_reason "No reason given."
          else "Item auto-classified and approved.")
        ∷ append_if (has_low_confidence i)
            (("Low confidence (" <> confidence_text i <> ") — verify classification.") ∷ [])
      ++ append_if (lacks_amount i) ("No dollar amount recorded." ∷ [])
      ++ append_if (same_text i.category "mixed_use") ("Work-use percentage not confirmed." ∷ [])
      ++ append_if (same_text i.category "donation") ("Donation requires receipt evidence." ∷ [])
      ++ reason_list (agent_reason i)

  unfoldable pub actions_of : TaxItem → List String
  actions_of i =
      append_if i.needs_review
        (("Review '" <> name_of i <> "': is this correctly classified?") ∷ [])
      ++ append_if (has_low_confidence i && not i.needs_review)
          ("Confirm low-confidence item is correctly classified." ∷ [])
      ++ append_if (lacks_amount i) (("Enter amount for '" <> name_of i <> "'.") ∷ [])
      ++ append_if (same_text i.category "mixed_use") (
          "Confirm work-use percentage for mixed-use item." ∷ "Confirm not reimbursed by employer."
          ∷ [])
      ++ append_if (same_text i.category "donation") ("Ensure donation receipt is on file." ∷ [])

  unfoldable pub review_item : TaxItem → ItemReview
  review_item i = record {
    item_id = i.id;
    category = i.category;
    risk_level = assess_risk i;
    review_status = if i.needs_review then "needs_user_review" else "user_confirmed";
    evidence_status = assess_evidence i;
    date_in_financial_year = true;
    findings = findings_of i;
    required_actions = dedupe (actions_of i);
    requires_tax_agent = is_some (agent_reason i);
    tax_agent_reason = agent_reason i;
  }

-- The variables of the loop over the items.
pub record Tally : Type 0 where
  pub low_count : ℕ
  pub medium_count : ℕ
  pub high_count : ℕ
  pub evidence_complete : ℕ
  pub evidence_incomplete : ℕ
  pub fy_date_warnings : ℕ
  pub unresolved_questions : List String
  pub tax_agent_triggers : List String

abbrev pub no_tally : Tally
no_tally = record {
  low_count = 0;
  medium_count = 0;
  high_count = 0;
  evidence_complete = 0;
  evidence_incomplete = 0;
  fy_date_warnings = 0;
  unresolved_questions = [];
  tax_agent_triggers = [];
}

abbrev pub is_low : RiskLevel → Bool
is_low low = true
is_low _ = false

abbrev pub is_medium : RiskLevel → Bool
is_medium medium = true
is_medium _ = false

abbrev pub is_high : RiskLevel → Bool
is_high high = true
is_high _ = false

abbrev pub is_complete : EvidenceStatus → Bool
is_complete complete = true
is_complete _ = false

-- `n += 1` under a condition
abbrev pub bump_if : Bool → ℕ → ℕ
bump_if c n = if c then n + 1 else n

pub data ReviewOutcome : Type 0 where
  completed in_progress blocked : ReviewOutcome

pub record Report : Type 0 where
  pub financial_year : String
  pub review_status : ReviewOutcome
  pub export_status : String
  pub reason : String
  pub fy_dates_validated : Bool
  pub documents_reviewed : ℕ
  pub income_items : ℕ
  pub deduction_items : ℕ
  pub out_of_scope_items : ℕ
  pub needs_review_items : ℕ
  pub tally : Tally
  pub items : List ItemReview
  pub unresolved_questions : List String
  pub tax_agent_triggers : List String

module _ (p : Format) where
  abbrev pub trigger_of : TaxItem → String
  trigger_of i =
      "Item '"
      <> name_of p i
      <> "' ("
      <> p.head8 i.id
      <> "): "
      <> elim (agent_reason i) [ none ↦ "See review details." | some r ↦ r ]

  unfoldable pub add_review : TaxItem → Tally → Tally
  unfolding review_item
  add_review i t =
      let r = review_item p i in
      record {
        low_count = bump_if (is_low r.risk_level) t.low_count;
        medium_count = bump_if (is_medium r.risk_level) t.medium_count;
        high_count = bump_if (is_high r.risk_level) t.high_count;
        evidence_complete = bump_if (is_complete r.evidence_status) t.evidence_complete;
        evidence_incomplete = bump_if (not (is_complete r.evidence_status)) t.evidence_incomplete;
        fy_date_warnings = bump_if (not r.date_in_financial_year) t.fy_date_warnings;
        unresolved_questions = t.unresolved_questions ++ r.required_actions;
        tax_agent_triggers =
            t.tax_agent_triggers ++ append_if r.requires_tax_agent (trigger_of i ∷ []);
      }

  -- The loop.
  unfoldable pub tally_items : List TaxItem → Tally → Tally
  tally_items [] t = t
  tally_items (i ∷ items) t = tally_items items (add_review i t)

  abbrev pub outcome_of : ℕ → List String → ReviewOutcome
  outcome_of needs_review_count triggers =
      if needs_review_count == 0 && length triggers == 0
      then completed
      else if ltb 0 needs_review_count
      then in_progress
      else blocked

  abbrev pub export_status_of : ReviewOutcome → String
  export_status_of completed = "ready_for_human_review_export"
  export_status_of _ = "not_export_ready"

  abbrev pub reason_of : ℕ → ReviewOutcome → String
  reason_of n completed = "All items reviewed. Package ready for human/tax-agent review."
  reason_of n in_progress = p.decimal n <> " item(s) require user review before export."
  reason_of n blocked = "Tax agent review recommended before export."

  abbrev pub validated : Tally → ReviewOutcome → Bool
  validated t completed = true
  validated t _ = t.fy_date_warnings == 0

  abbrev pub needs_review_count : List TaxItem → ℕ
  needs_review_count items = count (λ (i : TaxItem). i.needs_review) items

  unfoldable pub report_of : TaxSession → List Document → List TaxItem → Report
  report_of session documents items =
      let t = tally_items items no_tally in
      let triggers = dedupe t.tax_agent_triggers in
      let outcome = outcome_of (needs_review_count items) triggers in
      record {
        financial_year = session.financial_year;
        review_status = outcome;
        export_status = export_status_of outcome;
        reason = reason_of (needs_review_count items) outcome;
        fy_dates_validated = validated t outcome;
        documents_reviewed = length documents;
        income_items = count (λ (i : TaxItem). is_income i.item_type) items;
        deduction_items = count (λ (i : TaxItem). is_deduction i.item_type) items;
        out_of_scope_items = count (λ (i : TaxItem). is_out_of_scope i.item_type) items;
        needs_review_items = needs_review_count items;
        tally = t;
        items = map (review_item p) items;
        unresolved_questions = dedupe t.unresolved_questions;
        tax_agent_triggers = triggers;
      }

  -- `if not session: raise ValueError(…)`
  pub session_or_raise : ℕ → Option TaxSession → Service TaxSession
  session_or_raise session_id none =
      raise (value_error ("Session not found: " <> p.ident session_id))
  session_or_raise session_id (some s) = pure s

  unfoldable pub run_compliance_review : ℕ → Service Report
  unfolding session_or_raise
  run_compliance_review session_id = do
    row ← query (λ w. scalar_one_or_none (select (λ s. s.id == session_id) w.db.tax_sessions))
    session ← session_or_raise session_id row
    documents ← gets (λ w. select (λ d. d.session_id == session_id) w.db.documents)
    items ← gets (λ w. select (λ i. i.session_id == session_id) w.db.items)
    pure (report_of session documents items)
