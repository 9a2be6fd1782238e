-- ===== src/Review/Export.antt =====
-- app/services/export/__init__.py: the review pack of a session. The rows that `_item_to_json` and
-- its siblings copy field by field are the rows here. Amounts are exact, in cents, where the source
-- adds floats and rounds the sum to cents.
use tax_return_ai.Base.{
  ℕ, ◌&&◌, not, String, ◌<>◌, Option, none, some, List, [], ◌∷◌, ◌++◌, ◌==◌, if◌then◌else◌, select,
  length, map, scalar_one_or_none, value_error, ◌>>=◌, ◌>>◌, pure, raise, modify, query, gets,
}
use tax_return_ai.Base.Int.{ℤ, pos, ◌+ℤ◌}
use tax_return_ai.Models.Audit.{text, number}
use tax_return_ai.Models.Tax.{TaxSession, Document, TaxItem}
use tax_return_ai.Models.World.{Service, commit}
use tax_return_ai.Audit.{write_audit}
use tax_return_ai.Review.Format.{
  Format, same_text, dedupe, entry, has_low_confidence, is_income, is_deduction, is_out_of_scope,
}
use tax_return_ai.Review.Compliance.{name_of, confidence_text, lacks_amount, append_if}

abbrev pub ato_high_risk_categories : List (String × String)
ato_high_risk_categories =
    ("work_from_home", "D5 — Home office expenses (ATO scrutiny risk)")
    ∷ ("tools_equipment", "D5 — Equipment under $300 or decline in value")
    ∷ ("mixed_use", "Mixed-use items require personal-use apportionment")
    ∷ ("donation", "D15 — Donations require receipt evidence")
    ∷ ("union_fee", "D5 — Union fees (low risk)")
    ∷ ("subscription", "D5 — Professional subscriptions (low risk)")
    ∷ ("other", "D5/Other — Review ATO guidance for this category")
    ∷ []

-- `i.amount or 0`
abbrev pub amount_or_zero : TaxItem → ℤ
amount_or_zero i = elim i.amount [ none ↦ pos 0 | some a ↦ a ]

-- `sum(i.amount or 0 for i in items)`
unfoldable pub total : List TaxItem → ℤ
total [] = pos 0
total (i ∷ items) = amount_or_zero i +ℤ total items

abbrev pub income_items : List TaxItem → List TaxItem
income_items items = select (λ i. is_income i.item_type) items

abbrev pub deduction_items : List TaxItem → List TaxItem
deduction_items items = select (λ i. is_deduction i.item_type) items

abbrev pub out_of_scope_items : List TaxItem → List TaxItem
out_of_scope_items items = select (λ i. is_out_of_scope i.item_type) items

abbrev pub needs_review_items : List TaxItem → List TaxItem
needs_review_items items = select (λ i. i.needs_review) items

abbrev pub approved_items : List TaxItem → List TaxItem
approved_items items = select (λ i. not i.needs_review) items

pub record ExportPackage : Type 0 where
  pub title : String
  pub session : TaxSession
  pub total_documents : ℕ
  pub total_items : ℕ
  pub income_count : ℕ
  pub deduction_count : ℕ
  pub needs_review_count : ℕ
  pub approved_count : ℕ
  pub total_income : ℤ
  pub total_candidate_deductions : ℤ
  pub income : List TaxItem
  pub deductions : List TaxItem
  pub needs_review : List TaxItem
  pub out_of_scope : List TaxItem
  pub source_documents : List Document
  pub export_warnings : List String

title_of : Option String → String
title_of none = "Untitled Session"
title_of (some t) = if same_text t "" then "Untitled Session" else t

module _ (p : Format) where
  risk_warning : TaxItem → Option String → List String
  risk_warning i none = []
  risk_warning i (some hint) = ("Item '" <> name_of p i <> "' needs review. " <> hint) ∷ []

  -- The first loop.
  unfoldable pub risk_warnings : List TaxItem → List String
  unfolding risk_warning
  risk_warnings [] = []
  risk_warnings (i ∷ items) =
      append_if i.needs_review (risk_warning i (entry ato_high_risk_categories i.category))
      ++ risk_warnings items

  abbrev pub confidence_warning : TaxItem → String
  confidence_warning i =
      "Item '"
      <> name_of p i
      <> "' has low confidence ("
      <> confidence_text p i
      <> ") but was auto-approved — verify manually."

  abbrev pub count_warning : List TaxItem → String → List String
  count_warning [] what = []
  count_warning (i ∷ items) what = (p.decimal (length (i ∷ items)) <> what) ∷ []

  unfoldable pub generate_warnings : List TaxItem → List String
  generate_warnings items = dedupe (
      risk_warnings items
      ++ map confidence_warning (select (λ i. has_low_confidence i && not i.needs_review) items)
      ++ count_warning (select lacks_amount items) " item(s) have no dollar amount recorded."
      ++ count_warning (needs_review_items items) " item(s) require human review before use.")

  unfoldable pub package_of : TaxSession → List Document → List TaxItem → ExportPackage
  unfolding title_of
  package_of session documents items = record {
    title = title_of session.title;
    session = session;
    total_documents = length documents;
    total_items = length items;
    income_count = length (income_items items);
    deduction_count = length (deduction_items items);
    needs_review_count = length (needs_review_items items);
    approved_count = length (approved_items items);
    total_income = total (income_items items);
    total_candidate_deductions = total (deduction_items items);
    income = income_items items;
    deductions = deduction_items items;
    needs_review = needs_review_items items;
    out_of_scope = out_of_scope_items items;
    source_documents = documents;
    export_warnings = generate_warnings items;
  }

  session_or_raise : ℕ → Option TaxSession → Service TaxSession
  session_or_raise session_id none =
      raise (value_error ("Session not found: " <> p.ident session_id))
  session_or_raise session_id (some s) = pure s

  unfoldable pub generate_export : ℕ → ℕ → Service ExportPackage
  unfolding session_or_raise
  generate_export now session_id = do
    row ← query (λ w. scalar_one_or_none (select (λ s. s.id == session_id) w.db.tax_sessions))
    session ← session_or_raise session_id row
    documents ← gets (λ w. select (λ d. d.session_id == session_id) w.db.documents)
    items ← gets (λ w. select (λ i. i.session_id == session_id) w.db.items)
    let pkg = package_of session documents items
    write_audit now "tax_session" session_id "exported" (
        ("event", text "review_pack_generated")
        ∷ ("total_items", number pkg.total_items)
        ∷ ("income_count", number pkg.income_count)
        ∷ ("deduction_count", number pkg.deduction_count)
        ∷ ("needs_review_count", number pkg.needs_review_count)
        ∷ ("warnings_count", number (length pkg.export_warnings))
        ∷ [])
    modify commit
    pure pkg
