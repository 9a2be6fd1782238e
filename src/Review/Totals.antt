-- ===== src/Review/Totals.antt =====
-- What the review pack of app/services/export holds of the items of its session.
use tax_return_ai.Base.{
  ◌+◌, ◌≡◌, ◌≤◌, ◌<◌, refl, sym, ap, ◌∙◌, subst, Bool, true, false, ◌&&◌, ◌||◌, not, String, ◌<>◌,
  List, [], ◌∷◌, ◌++◌, select, length, map, arith, Bool-cases, inl, inr,
}
use tax_return_ai.Models.Tax.{TaxItem, TaxSession, Document}
use tax_return_ai.Text.{codes, eq_text, eq_text_sound, eq_text_refl}
use tax_return_ai.Review.Format.{
  Format, same_text, is_one_of, drop_text, dedupe, has_low_confidence,
}
use tax_return_ai.Review.Compliance.{lacks_amount}
use tax_return_ai.Review.Export.{
  income_items, deduction_items, out_of_scope_items, needs_review_items, package_of,
  generate_warnings, count_warning, confidence_warning, risk_warnings,
}

same_text_trans :
    (x y z : String) → same_text y z ≡ true → same_text z x ≡ true → same_text y x ≡ true
same_text_trans x y z e f =
    subst (λ t. eq_text t (codes x) ≡ true) (sym (eq_text_sound (codes y) (codes z) e)) f

is_one_of-drop_text :
    (x y : String) (zs : List String)
    → same_text y x ≡ false
    → is_one_of (drop_text y zs) x ≡ is_one_of zs x
is_one_of-drop_text x y [] n = refl
is_one_of-drop_text x y (z ∷ zs) n = elim (Bool-cases (same_text y z)) [
  | inl e ↦ elim (Bool-cases (same_text z x)) [
    | inl f ↦ absurd (ground (arith, n, same_text_trans x y z e f))
    | inr f ↦ rw (e, f) (is_one_of-drop_text x y zs n)
  ]
  | inr e ↦ rw e (ap (λ b. same_text z x || b) (is_one_of-drop_text x y zs n))
]

is_one_of-dedupe : (x : String) (ys : List String) → is_one_of (dedupe ys) x ≡ is_one_of ys x
is_one_of-dedupe x [] = refl
is_one_of-dedupe x (y ∷ ys) = elim (Bool-cases (same_text y x)) [
  | inl e ↦ rw e refl
  | inr e ↦ rw e (is_one_of-drop_text x y (dedupe ys) e ∙ is_one_of-dedupe x ys)
]

is_one_of-append :
    (x : String) (ys zs : List String) → is_one_of zs x ≡ true → is_one_of (ys ++ zs) x ≡ true
is_one_of-append x [] zs e = e
is_one_of-append x (y ∷ ys) zs e = ground (arith, is_one_of-append x ys zs e)

length-select-not :
    (q : TaxItem → Bool) (items : List TaxItem)
    → length (select q items) + length (select (λ i. not (q i)) items) ≡ length items
length-select-not q [] = omega arith
length-select-not q (i ∷ items) = ground (arith, length-select-not q items)

types_length :
    (items : List TaxItem)
    → length (income_items items)
        + length (deduction_items items)
        + length (out_of_scope_items items)
      ≤ length items
types_length [] = omega arith
types_length (i ∷ items) = ground (arith, types_length items)

module _ (p : Format) where
  notice :
      (items : List TaxItem) (what : String)
      → 0 < length items
      → is_one_of (count_warning p items what) (p.decimal (length items) <> what) ≡ true
  notice [] what l = absurd (omega (arith, l))
  notice (i ∷ items) what l =
      ground (arith, eq_text_refl (codes (p.decimal (length (i ∷ items)) <> what)))

  -- In every pack the approved items and those listed for review add up to all items, and the
  -- lists by type hold at most all items.
  pub package_of-counts :
      (session : TaxSession) (documents : List Document) (items : List TaxItem)
      → let pkg = package_of p session documents items in
        (pkg.approved_count + pkg.needs_review_count ≡ pkg.total_items)
        × (pkg.income_count + pkg.deduction_count + length pkg.out_of_scope ≤ pkg.total_items)
  unfolding package_of
  package_of-counts session documents items =
      (omega (arith, length-select-not (λ (i : TaxItem). i.needs_review) items), types_length items)

  -- If an item of the pack needs review, the warnings of the pack hold the notice with the number
  -- of those items, whatever other warnings there are.
  pub package_of-notice :
      (session : TaxSession) (documents : List Document) (items : List TaxItem)
      → 0 < (package_of p session documents items).needs_review_count
      → is_one_of (package_of p session documents items).export_warnings (
          p.decimal (package_of p session documents items).needs_review_count
          <> " item(s) require human review before use.")
        ≡ true
  unfolding package_of generate_warnings
  package_of-notice session documents items l =
      let x =
        p.decimal (length (needs_review_items items))
        <> " item(s) require human review before use." in
      let last =
        count_warning p (needs_review_items items) " item(s) require human review before use." in
      let amounts =
        count_warning p (select lacks_amount items) " item(s) have no dollar amount recorded." in
      let low =
        map (confidence_warning p)
          (select (λ i. has_low_confidence i && not i.needs_review) items) in
      is_one_of-dedupe x (risk_warnings p items ++ low ++ amounts ++ last)
      ∙ is_one_of-append x (risk_warnings p items ++ low ++ amounts) last
          (notice (needs_review_items items) " item(s) require human review before use." l)
