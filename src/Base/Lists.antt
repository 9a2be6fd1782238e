-- ===== src/Base/Lists.antt =====
-- Lists under native numbers, and the predicates by recursion that tactics read.
use Prim.Native.Nat.{ℕ, zero, suc, ◌+◌, ◌≤◌}
use mathlib.Core.Path.{◌≡◌, refl, ap}
use mathlib.Core.Bool.{Bool, false, ◌||◌}
use mathlib.Core.List.{List, [], ◌∷◌, ◌++◌}
use native.Mathlib.Omega.{arith}
use tax_return_ai.Base.Tests.{if◌then◌else◌}

module _ {ℓ} {A : Type ℓ} where
  abbrev pub length : List A → ℕ
  length [] = 0
  length (x ∷ xs) = suc (length xs)

  pub length-append : (xs ys : List A) → length (xs ++ ys) ≡ length xs + length ys
  length-append [] ys = omega arith
  length-append (x ∷ xs) ys = omega (arith, length-append xs ys)

  -- `[x for x in xs if p(x)]`, and the rows of a `select … where`
  abbrev pub select : (A → Bool) → List A → List A
  select p [] = []
  select p (x ∷ xs) = let rest = select p xs in if p x then x ∷ rest else rest

  -- `sum(1 for x in xs if p(x))`
  abbrev pub count : (A → Bool) → List A → ℕ
  count p [] = 0
  count p (x ∷ xs) = let rest = count p xs in if p x then suc rest else rest

  -- `any(p(x) for x in xs)`
  abbrev pub any : (A → Bool) → List A → Bool
  any p [] = false
  any p (x ∷ xs) = p x || any p xs

  -- `xs[n:]` and `xs[:n]`, and a query's `offset` and `limit`
  abbrev pub drop : ℕ → List A → List A
  drop n [] = []
  drop n (x ∷ xs) = elim n [ zero ↦ x ∷ xs | suc m ↦ drop m xs ]

  abbrev pub take : ℕ → List A → List A
  take n [] = []
  take n (x ∷ xs) = elim n [ zero ↦ [] | suc m ↦ x ∷ take m xs ]

  pub length-take : (n : ℕ) (xs : List A) → length (take n xs) ≤ n
  length-take n [] = omega arith
  length-take zero (x ∷ xs) = omega arith
  length-take (suc n) (x ∷ xs) = ground (arith, length-take n xs)

  pub length-select : (p : A → Bool) (xs : List A) → length (select p xs) ≡ count p xs
  length-select p [] = refl
  length-select p (x ∷ xs) = ground (arith, length-select p xs)

  pub count-le-length : (p : A → Bool) (xs : List A) → count p xs ≤ length xs
  count-le-length p [] = omega arith
  count-le-length p (x ∷ xs) = ground (arith, count-le-length p xs)

module _ {ℓ κ} {A : Type ℓ} where
  abbrev pub All : (A → Type κ) → List A → Type κ
  All P [] = Unit
  All P (x ∷ xs) = P x × All P xs

  pub All-append : (P : A → Type κ) (xs ys : List A) → All P xs → All P ys → All P (xs ++ ys)
  All-append P [] ys hx hy = hy
  All-append P (x ∷ xs) ys hx hy = (hx.0, All-append P xs ys hx.1 hy)

  pub All-drop : (P : A → Type κ) (n : ℕ) (xs : List A) → All P xs → All P (drop n xs)
  All-drop P n [] all = tt
  All-drop P zero (x ∷ xs) all = all
  All-drop P (suc n) (x ∷ xs) all = All-drop P n xs all.1

  pub All-take : (P : A → Type κ) (n : ℕ) (xs : List A) → All P xs → All P (take n xs)
  All-take P n [] all = tt
  All-take P zero (x ∷ xs) all = tt
  All-take P (suc n) (x ∷ xs) all = (all.0, All-take P n xs all.1)

pub append-nil {ℓ} : {A : Type ℓ} (xs : List A) → xs ++ [] ≡ xs
append-nil [] = refl
append-nil (x ∷ xs) = ap (λ ys. x ∷ ys) (append-nil xs)

pub append_snoc {ℓ} :
    {A : Type ℓ} (xs : List A) (y : A) (ys : List A) → (xs ++ y ∷ []) ++ ys ≡ xs ++ y ∷ ys
append_snoc [] y ys = refl
append_snoc (x ∷ xs) y ys = ap (λ r. x ∷ r) (append_snoc xs y ys)
