-- ===== src/Review/Format.antt =====
-- What both reports share: the f-strings over an item, the tests on texts, and the removal of
-- duplicates. Confidence is in ten-thousandths.
use tax_return_ai.Base.{
  ℕ, Bool, true, false, String, Option, none, some, List, [], ◌∷◌, ltb, if◌then◌else◌, any,
}
use tax_return_ai.Models.Tax.{FieldText, ItemType, TaxItem}
use tax_return_ai.Text.{codes, eq_text}

-- What Python's formatting gives: the text of a field, `:.0%` of a confidence, the first eight
-- characters of an id, the id itself, and the decimal digits of a number.
pub record Format : Type 0 where
  pub field : FieldText → String
  pub percent : ℕ → String
  pub head8 : ℕ → String
  pub ident : ℕ → String
  pub decimal : ℕ → String

abbrev pub same_text : String → String → Bool
same_text a b = eq_text (codes a) (codes b)

abbrev pub is_one_of : List String → String → Bool
is_one_of names x = any (λ n. same_text n x) names

-- `list(dict.fromkeys(texts))`: the later copies are dropped
abbrev pub drop_text : String → List String → List String
drop_text x [] = []
drop_text x (y ∷ ys) = let rest = drop_text x ys in if same_text x y then rest else y ∷ rest

abbrev pub dedupe : List String → List String
dedupe [] = []
dedupe (x ∷ xs) = x ∷ drop_text x (dedupe xs)

-- `names[category]`, where it is there
abbrev pub entry : List (String × String) → String → Option String
entry [] x = none
entry ((n, text) ∷ names) x = let rest = entry names x in if same_text n x then some text else rest

-- `field or default`: an absent and an empty field give the default
abbrev pub field_or : Format → Option FieldText → String → String
field_or p none default = default
field_or p (some t) default = if same_text (p.field t) "" then default else p.field t

abbrev pub has_low_confidence : TaxItem → Bool
has_low_confidence i = elim i.confidence [ none ↦ false | some c ↦ ltb c 7000 ]

abbrev pub is_income : ItemType → Bool
is_income ItemType.income = true
is_income _ = false

abbrev pub is_deduction : ItemType → Bool
is_deduction ItemType.deduction = true
is_deduction _ = false

abbrev pub is_out_of_scope : ItemType → Bool
is_out_of_scope ItemType.out_of_scope = true
is_out_of_scope _ = false
