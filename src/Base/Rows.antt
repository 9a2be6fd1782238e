-- ===== src/Base/Rows.antt =====
-- Tables as lists of rows, in insertion order. A row that a query returns is an object of the
-- session, so writing its fields is an update of the rows with its key.
use mathlib.Core.Path.{◌≡◌, refl, subst}
use mathlib.Core.Logic.{inl, inr}
use mathlib.Core.Bool.{Bool, true}
use mathlib.Core.Option.{Option, none, some}
use mathlib.Core.List.{List, [], ◌∷◌}
use native.Mathlib.Omega.{arith}
use tax_return_ai.Base.Tests.{if◌then◌else◌, Bool-cases}
use tax_return_ai.Base.Lists.{select, All}
use tax_return_ai.Base.Outcome.{Result, ok, err, multiple_results}

-- `result.scalar_one_or_none()`
abbrev pub scalar_one_or_none : {A : Type 0} → List A → Result (Option A)
scalar_one_or_none [] = ok none
scalar_one_or_none (x ∷ []) = ok (some x)
scalar_one_or_none (x ∷ y ∷ xs) = err multiple_results

-- `result.scalars().first()`
abbrev pub first : {A : Type 0} → List A → Option A
first [] = none
first (x ∷ xs) = some x

module _ {A : Type 0} where
  abbrev pub find : (A → Bool) → List A → Option A
  find p [] = none
  find p (x ∷ xs) = let rest = find p xs in if p x then some x else rest

  abbrev pub update_where : (A → Bool) → (A → A) → List A → List A
  update_where p f [] = []
  update_where p f (x ∷ xs) = (if p x then f x else x) ∷ update_where p f xs

  pub first-select : (p : A → Bool) (xs : List A) → first (select p xs) ≡ find p xs
  first-select p [] = refl
  first-select p (x ∷ xs) = ground (arith, first-select p xs)

  pub find_sound : (p : A → Bool) (xs : List A) (a : A) → find p xs ≡ some a → p a ≡ true
  find_sound p [] a h = cc
  find_sound p (x ∷ xs) a h = ground (arith, find_sound p xs a)

  pub find-All {κ} :
      (P : A → Type κ) (p : A → Bool) (xs : List A) (a : A) → All P xs → find p xs ≡ some a → P a
  find-All P p [] a all h = absurd (cc)
  find-All P p (x ∷ xs) a all h = elim (Bool-cases (p x)) [
    | inl e ↦ subst P (cc) all.0
    | inr e ↦ find-All P p xs a all.1 (rw e at h)
  ]
