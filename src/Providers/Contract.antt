-- ===== src/Providers/Contract.antt =====
-- The contract of `AIProvider.classify` in app/ai/providers/base.py, and the provider of mock.py.
use tax_return_ai.Base.{
  ◌≡◌, ◌≢◌, ◌<◌, refl, Bool, true, false, String, some, List, [], ◌∷◌, leb, All, is_some, or_else,
  arith, Bool-cases, inl, inr, length, ◌==◌, ◌||◌, not, any, ◌&&◌,
}
use tax_return_ai.Classification.{ClassificationResult}
use tax_return_ai.Workspaces.{has_text}
use tax_return_ai.Text.{lower, codes, strip}
use tax_return_ai.Providers.Mock.{
  MockRule, mock_rules, apply_trigger, matched, updated_by, base_result, or_unmatched,
  classify_mock, mentions, trigger_words, plain_or_none,
}

-- A low confidence is flagged, and what is flagged has a reason.
abbrev pub IsSafe : ClassificationResult → Type 0
IsSafe r =
    (or_else r.confidence 0 < 7000 → r.needs_review ≡ some true)
    × (r.needs_review ≡ some true → has_text r.review_reason ≡ true)

-- The keys that every result has.
abbrev pub IsComplete : ClassificationResult → Type 0
IsComplete r =
    (is_some r.item_type ≡ true)
    × (is_some r.category ≡ true)
    × (is_some r.confidence ≡ true)
    × (is_some r.needs_review ≡ true)

-- With a trigger, every result is flagged.
abbrev pub MeetsContract : Bool → ClassificationResult → Type 0
MeetsContract has_trigger r =
    IsComplete r × IsSafe r × (has_trigger ≡ true → r.needs_review ≡ some true)

apply_trigger-MeetsContract :
    (b : Bool) (r : ClassificationResult)
    → IsComplete r
    → IsSafe r
    → MeetsContract b (apply_trigger b r)
unfolding apply_trigger
apply_trigger-MeetsContract false r complete safe =
    (complete, safe, λ e. absurd (ground (arith, e)))
apply_trigger-MeetsContract true r (i, c, f, n) (low, explained) =
    elim (Bool-cases (leb 7000 (or_else r.confidence 0))) [
      | inl h ↦ rw h ((i, c, f, refl), (λ x. refl, λ x. ground (arith, h)), λ x. refl)
      | inr h ↦ rw h ((i, c, f, n), (low, explained), λ x. low (ground (arith, h)))
    ]

-- A row of the table keeps the contract.
abbrev IsSafeRule : MockRule → Type 0
IsSafeRule m = (t : String) → IsSafe (updated_by m (base_result t))

abbrev is_safe_rule : MockRule → Bool
is_safe_rule m =
    (m.needs_review || leb 7000 m.confidence)
    && (not m.needs_review || has_text (plain_or_none m.review_reason))

IsSafeRule-row : (m : MockRule) → is_safe_rule m ≡ true → IsSafeRule m
IsSafeRule-row m e t = (λ x. ground (arith, e, x), λ x. ground (arith, e, x))

neither : (a b : Bool) → (not a || b) ≡ false → (a ≡ true) × (b ≡ false)
neither true b e = (refl, e)
neither false b e = absurd (ground (arith, e))

IsSafeRule-rows :
    (rules : List MockRule) → any (λ m. not (is_safe_rule m)) rules ≡ false → All IsSafeRule rules
IsSafeRule-rows [] e = tt
IsSafeRule-rows (m ∷ rules) e = (
  IsSafeRule-row m (neither (is_safe_rule m) _ e).0,
  IsSafeRule-rows rules (neither (is_safe_rule m) _ e).1,
)

mock_rules-IsSafeRule : (b : Bool) → All IsSafeRule (mock_rules b)
mock_rules-IsSafeRule true = IsSafeRule-rows (mock_rules true) refl
mock_rules-IsSafeRule false = IsSafeRule-rows (mock_rules false) refl

matched-MeetsContract :
    (t : String) (b : Bool) (rules : List MockRule)
    → All IsSafeRule rules
    → All (MeetsContract b) (matched t b rules)
unfolding matched
matched-MeetsContract t b [] all = tt
matched-MeetsContract t b (m ∷ rules) (safe, all) =
    let here =
      apply_trigger-MeetsContract b (updated_by m (base_result t)) (refl, refl, refl, refl)
        (safe t) in
    let rest = matched-MeetsContract t b rules all in
    elim (Bool-cases (mentions m.keywords (lower (codes t)))) [
      | inl h ↦ rw h (here, rest)
      | inr h ↦ rw h rest
    ]

base_result-IsSafe : (t : String) → IsSafe (base_result t)
base_result-IsSafe t = (λ x. refl, λ x. refl)

or_unmatched-MeetsContract :
    (t : String) (b : Bool) (rs : List ClassificationResult)
    → All (MeetsContract b) rs
    → All (MeetsContract b) (or_unmatched t b rs) × (or_unmatched t b rs ≢ [])
or_unmatched-MeetsContract t b [] all = (
  (
    apply_trigger-MeetsContract b (base_result t) (refl, refl, refl, refl) (base_result-IsSafe t),
    tt,
  ),
  λ e. absurd (cc),
)
or_unmatched-MeetsContract t b (r ∷ rs) all = (all, λ e. absurd (cc))

-- The mock provider meets the contract of the interface: for any text it answers with a result at
-- least, each has an item type, a category, a confidence and a flag, a confidence below seventy
-- percent is flagged, what is flagged has a reason, and if the text has one of the uncertain
-- words every result is flagged.
pub classify_mock-MeetsContract :
    (t : String)
    → All (MeetsContract (mentions trigger_words (lower (codes t)))) (classify_mock t)
      × (classify_mock t ≢ [])
unfolding classify_mock
classify_mock-MeetsContract t =
    let b = mentions trigger_words (lower (codes t)) in
    elim (Bool-cases (length (strip (codes t)) == 0)) [
      | inl h ↦
          rw h
            ((((refl, refl, refl, refl), (λ x. refl, λ x. refl), λ x. refl), tt), λ e. absurd (cc))
      | inr h ↦ rw h (
          or_unmatched-MeetsContract t b (matched t b (mock_rules b))
            (matched-MeetsContract t b (mock_rules b) (mock_rules-IsSafeRule b)))
    ]
