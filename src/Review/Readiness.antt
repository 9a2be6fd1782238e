-- ===== src/Review/Readiness.antt =====
-- What the report of app/services/compliance_review says about the items.
use tax_return_ai.Base.{
  ℕ, ◌+◌, ◌≡◌, ◌≤◌, refl, ◌∙◌, Bool, true, false, not, List, [], ◌∷◌, if◌then◌else◌, count,
  count-le-length, length, arith, Bool-cases, inl, inr, ◌==◌, ==_cases, append-nil,
}
use tax_return_ai.Models.Tax.{TaxItem, TaxSession, Document}
use tax_return_ai.Review.Format.{Format, is_income, is_deduction, is_out_of_scope}
use tax_return_ai.Review.Compliance.{
  RiskLevel, low, medium, high, bump_if, is_low, is_medium, is_high, is_complete, Tally, no_tally,
  assess_risk, assess_evidence, review_item, add_review, tally_items, report_of, needs_review_count,
  completed, in_progress,
}

types_count :
    (items : List TaxItem)
    → count (λ (i : TaxItem). is_income i.item_type) items
        + count (λ (i : TaxItem). is_deduction i.item_type) items
        + count (λ (i : TaxItem). is_out_of_scope i.item_type) items
      ≤ length items
types_count [] = omega arith
types_count (i ∷ items) = ground (arith, types_count items)

-- Each item adds one to one of the three risk counts, and one to one of the two evidence counts.
bump_risk :
    (r : RiskLevel) (l m h : ℕ)
    → bump_if (is_low r) l + bump_if (is_medium r) m + bump_if (is_high r) h ≡ l + m + h + 1
bump_risk low l m h = omega arith
bump_risk medium l m h = omega arith
bump_risk high l m h = omega arith

bump_evidence : (b : Bool) (c d : ℕ) → bump_if b c + bump_if (not b) d ≡ c + d + 1
bump_evidence true c d = omega arith
bump_evidence false c d = omega arith

module _ (p : Format) where
  tally_items-counts :
      (items : List TaxItem) (t : Tally)
      → let t' = tally_items p items t in
        (t'.low_count + t'.medium_count + t'.high_count
          ≡ t.low_count + t.medium_count + t.high_count + length items)
        × (t'.evidence_complete + t'.evidence_incomplete
            ≡ t.evidence_complete + t.evidence_incomplete + length items)
        × (t'.fy_date_warnings ≡ t.fy_date_warnings)
  unfolding tally_items add_review review_item
  tally_items-counts [] t = (omega arith, omega arith, refl)
  tally_items-counts (i ∷ items) t =
      let (risk, evidence, dates) = tally_items-counts items (add_review p i t) in
      (
        omega (arith, risk, bump_risk (assess_risk i) t.low_count t.medium_count t.high_count),
        omega (
          arith,
          evidence,
          bump_evidence (is_complete (assess_evidence i)) t.evidence_complete t.evidence_incomplete,
        ),
        dates,
      )

  add_review-no_trigger :
      (i : TaxItem) (t : Tally)
      → i.needs_review ≡ false
      → (add_review p i t).tax_agent_triggers ≡ t.tax_agent_triggers
  unfolding add_review review_item
  add_review-no_trigger i t e = rw e (append-nil t.tax_agent_triggers)

  -- An item triggers the referral only if it needs review.
  tally_items-triggers :
      (items : List TaxItem) (t : Tally)
      → needs_review_count p items ≡ 0
      → (tally_items p items t).tax_agent_triggers ≡ t.tax_agent_triggers
  unfolding tally_items
  tally_items-triggers [] t e = refl
  tally_items-triggers (i ∷ items) t e = elim (Bool-cases i.needs_review) [
    | inl y ↦ absurd (ground (arith, y, e))
    | inr n ↦
        tally_items-triggers items (add_review p i t) (ground (arith, n, e))
        ∙ add_review-no_trigger i t n
  ]

  -- In every compliance report the three risk counts and the two evidence counts each add up to
  -- the number of items, no item counts as dated outside the financial year, and the items to
  -- review and the three counts by type are at most all items.
  pub report_of-counts :
      (session : TaxSession) (documents : List Document) (items : List TaxItem)
      → let r = report_of p session documents items in
        (r.tally.low_count + r.tally.medium_count + r.tally.high_count ≡ length items)
        × (r.tally.evidence_complete + r.tally.evidence_incomplete ≡ length items)
        × (r.tally.fy_date_warnings ≡ 0)
        × (r.needs_review_items ≤ length items)
        × (r.income_items + r.deduction_items + r.out_of_scope_items ≤ length items)
  unfolding report_of
  report_of-counts session documents items =
      let (risk, evidence, dates) = tally_items-counts items no_tally in
      (
        omega (arith, risk),
        omega (arith, evidence),
        dates,
        count-le-length (λ (i : TaxItem). i.needs_review) items,
        types_count items,
      )

  -- The compliance review is completed exactly when no item needs review, and in progress
  -- otherwise. It is never blocked: a referral to a tax agent comes only from an item that needs
  -- review.
  pub report_of-status :
      (session : TaxSession) (documents : List Document) (items : List TaxItem)
      → (report_of p session documents items).review_status
        ≡ (if needs_review_count p items == 0 then completed else in_progress)
  unfolding report_of
  report_of-status session documents items = elim (==_cases (needs_review_count p items) 0) [
    | inl e ↦ ground (arith, e, tally_items-triggers items no_tally e)
    | inr n ↦ ground (arith, n)
  ]
