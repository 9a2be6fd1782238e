-- ===== src/Providers/Trusted.antt =====
-- The objects that `build_classification_result` of app/ai/providers/shared.py takes at their word, by
-- the literal statuses.
use tax_return_ai.Base.{
  ℕ, ◌≡◌, ◌≤◌, ◌<◌, ◌⊎◌, ◌∙◌, refl, sym, ap, subst, true, false, not, String, Option, none, some,
  List, [], ◌∷◌, any, or_else, leb, Bool-cases, inl, inr, arith,
}
use tax_return_ai.Providers.{Analysis}
use tax_return_ai.Providers.Build.{status_needs_review, settled_statuses}
use tax_return_ai.Text.{Text, codes, eq_text, eq_text_sound, eq_text_refl}

-- The text is one of the texts.
abbrev pub IsOneOf : Text → List String → Type 0
IsOneOf t [] = ⊥
IsOneOf t (s ∷ ss) = (t ≡ codes s) ⊎ IsOneOf t ss

any-IsOneOf :
    (t : Text) (ss : List String) → any (λ s. eq_text (codes s) t) ss ≡ true → IsOneOf t ss
any-IsOneOf t [] e = absurd (cc)
any-IsOneOf t (s ∷ ss) e = elim (Bool-cases (eq_text (codes s) t)) [
  | inl f ↦ inl (sym (eq_text_sound (codes s) t f))
  | inr f ↦ inr (any-IsOneOf t ss (ground (arith, e, f)))
]

IsOneOf-any :
    (t : Text) (ss : List String) → IsOneOf t ss → any (λ s. eq_text (codes s) t) ss ≡ true
IsOneOf-any t [] i = elim i [ ]
IsOneOf-any t (s ∷ ss) (inl e) =
    rw (subst (λ x. eq_text (codes s) x ≡ true) (sym e) (eq_text_refl (codes s))) refl
IsOneOf-any t (s ∷ ss) (inr i) = ground (arith, IsOneOf-any t ss i)

abbrev pub IsSettled : String → Type 0
IsSettled st = IsOneOf (codes st) ("auto_classified" ∷ "user_confirmed" ∷ "ready_for_export" ∷ [])

-- An object that says that nobody need look at it, and with what confidence.
pub record IsTrusted (a : Analysis) : Type 0 where
  pub status : String
  pub has_status : a.review_status ≡ some status
  pub is_settled : IsSettled status
  pub certainty : ℕ
  pub has_certainty : a.confidence ≡ some certainty
  pub is_certain : 7000 ≤ certainty

pub status_needs_review-cases :
    (o : Option String)
    → ((status_needs_review o ≡ false) × (st : String) × (o ≡ some st) × IsSettled st)
      ⊎ ((status_needs_review o ≡ true) × ((st : String) → o ≡ some st → IsSettled st → ⊥))
unfolding status_needs_review
status_needs_review-cases none = inr (refl, λ st e i. absurd (ground (arith, e)))
status_needs_review-cases (some st) =
    elim (Bool-cases (any (λ s. eq_text (codes s) (codes st)) settled_statuses)) [
      | inl e ↦ inl (ap not e, st, refl, any-IsOneOf (codes st) settled_statuses e)
      | inr e ↦ inr (
        ap not e,
        λ other f i.
            let is_settled = λ (o : Option String).
              any (λ s. eq_text (codes s) (codes (or_else o ""))) settled_statuses in
            let true_of : is_settled (some other) ≡ true =
              IsOneOf-any (codes other) settled_statuses i in
            absurd (ground (arith, sym e ∙ ap is_settled f ∙ true_of)),
      )
    ]

pub confidence_cases :
    (o : Option ℕ)
    → ((n : ℕ) × (o ≡ some n) × (7000 ≤ n))
      ⊎ ((or_else o 5000 < 7000) × ((n : ℕ) → o ≡ some n → 7000 ≤ n → ⊥))
confidence_cases none = inr (ground arith, λ n e h. absurd (ground (arith, e)))
confidence_cases (some n) = elim (Bool-cases (leb 7000 n)) [
  | inl e ↦ inl (n, refl, ground (arith, e))
  | inr e ↦ inr (ground (arith, e), λ m f h. ground (arith, e, f, h))
]
