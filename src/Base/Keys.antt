-- ===== src/Base/Keys.antt =====
-- Tables with a unique column: what a query by that column finds, and what updates keep.
use mathlib.Core.Logic.{◌≢◌, ◌⊎◌, inl, inr}
use tax_return_ai.Base.Tests.{Bool-cases, ◌==◌, ==_cases, if◌then◌else◌}
use tax_return_ai.Base.Lists.{select, any, All}
use tax_return_ai.Base.Outcome.{ok}
use tax_return_ai.Base.Rows.{scalar_one_or_none, find, find_sound, first, update_where}
use Prim.Native.Nat.{ℕ}
use mathlib.Core.Path.{◌≡◌, refl, sym, subst}
use mathlib.Core.Bool.{Bool, true, ◌&&◌}
use mathlib.Core.Option.{Option, none, some}
use mathlib.Core.List.{List, [], ◌∷◌, ◌++◌}
use native.Mathlib.Omega.{arith}

abbrev pub map_some {ℓ κ} : {A : Type ℓ} {B : Type κ} → (A → B) → Option A → Option B
map_some f none = none
map_some f (some a) = some (f a)

-- `a or b` on optional rows
abbrev pub first_some {ℓ} : {A : Type ℓ} → Option A → Option A → Option A
first_some none b = b
first_some (some a) b = some a

module _ {A : Type 0} where
  pub find-append :
      (p : A → Bool) (xs ys : List A) → find p (xs ++ ys) ≡ first_some (find p xs) (find p ys)
  find-append p [] ys = refl
  find-append p (x ∷ xs) ys = ground (arith, find-append p xs ys)

-- The row that a query by a unique column finds, if it passes a further test.
abbrev pub keep_if : {A : Type 0} → (A → Bool) → Option A → Option A
keep_if q none = none
keep_if q (some x) = if q x then some x else none

module _ {A : Type 0} (key : A → ℕ) where
  -- `key` is unique in the table.
  abbrev pub DistinctBy : List A → Type 0
  DistinctBy [] = Unit
  DistinctBy (x ∷ xs) = All (λ y. key y ≢ key x) xs × DistinctBy xs

  -- The row with a key.
  abbrev pub by_key : ℕ → List A → Option A
  by_key k xs = find (λ x. key x == k) xs

  select_absent : (k : ℕ) (xs : List A) → All (λ y. key y ≢ k) xs → select (λ x. key x == k) xs ≡ []
  select_absent k [] h = refl
  select_absent k (x ∷ xs) h = ground (arith, h.0, select_absent k xs h.1)

  find_absent : (k : ℕ) (xs : List A) → All (λ y. key y ≢ k) xs → by_key k xs ≡ none
  find_absent k [] h = refl
  find_absent k (x ∷ xs) h = ground (arith, h.0, find_absent k xs h.1)

  subst_absent : (k j : ℕ) (xs : List A) → j ≡ k → All (λ y. key y ≢ j) xs → All (λ y. key y ≢ k) xs
  subst_absent k j [] e h = tt
  subst_absent k j (x ∷ xs) e h = (ground (arith, h.0), subst_absent k j xs e h.1)

  -- A query by a unique column finds the row with the key, and cannot fail.
  pub scalar-select :
      (k : ℕ) (xs : List A)
      → DistinctBy xs
      → scalar_one_or_none (select (λ x. key x == k) xs) ≡ ok (by_key k xs)
  scalar-select k [] d = refl
  scalar-select k (x ∷ xs) d = elim (==_cases (key x) k) [
    | inl e ↦ ground (arith, e, select_absent k xs (subst_absent k (key x) xs e d.0))
    | inr n ↦ ground (arith, n, scalar-select k xs d.1)
  ]

  -- An update of any rows that keeps their keys, as a lookup sees it.
  pub by_key-update_where :
      (q : A → Bool) (f : A → A)
      → ((x : A) → key (f x) ≡ key x)
      → (k : ℕ) (xs : List A)
      → by_key k (update_where q f xs) ≡ map_some (λ x. if q x then f x else x) (by_key k xs)
  by_key-update_where q f same k [] = refl
  by_key-update_where q f same k (x ∷ xs) =
      ground (arith, same x, by_key-update_where q f same k xs)

  -- An update of the rows with one key.
  pub by_key-update_key :
      (f : A → A)
      → ((x : A) → key (f x) ≡ key x)
      → (k j : ℕ) (xs : List A)
      → by_key j (update_where (λ x. key x == k) f xs)
        ≡ (if k == j then map_some f (by_key j xs) else by_key j xs)
  by_key-update_key f same k j [] = ground arith
  by_key-update_key f same k j (x ∷ xs) = ground (arith, same x, by_key-update_key f same k j xs)

  absent-update_where :
      (q : A → Bool) (f : A → A)
      → ((x : A) → key (f x) ≡ key x)
      → (k : ℕ) (xs : List A) → All (λ y. key y ≢ k) xs
      → All (λ y. key y ≢ k) (update_where q f xs)
  absent-update_where q f same k [] h = tt
  absent-update_where q f same k (x ∷ xs) h =
      (ground (arith, h.0, same x), absent-update_where q f same k xs h.1)

  pub DistinctBy-update_where :
      (q : A → Bool) (f : A → A)
      → ((x : A) → key (f x) ≡ key x)
      → (xs : List A) → DistinctBy xs
      → DistinctBy (update_where q f xs)
  DistinctBy-update_where q f same [] d = tt
  DistinctBy-update_where q f same (x ∷ xs) d = (
    subst_absent (key (if q x then f x else x)) (key x) (update_where q f xs)
        (ground (arith, same x)) (absent-update_where q f same (key x) xs d.0),
    DistinctBy-update_where q f same xs d.1,
  )

  absent-append :
      (k : ℕ) (y : A) (xs : List A)
      → All (λ z. key z ≢ k) xs
      → key y ≢ k
      → All (λ z. key z ≢ k) (xs ++ y ∷ [])
  absent-append k y [] h n = (n, tt)
  absent-append k y (x ∷ xs) h n = (h.0, absent-append k y xs h.1 n)

  -- A row with a new key keeps the column unique.
  pub DistinctBy-append :
      (y : A) (xs : List A) → DistinctBy xs → by_key (key y) xs ≡ none → DistinctBy (xs ++ y ∷ [])
  DistinctBy-append y [] d e = (tt, tt)
  DistinctBy-append y (x ∷ xs) d e = (
    absent-append (key x) y xs d.0 (ground (arith, e)),
    DistinctBy-append y xs d.1 (ground (arith, e)),
  )

  select_absent_and :
      (q : A → Bool) (k : ℕ) (xs : List A)
      → All (λ y. key y ≢ k) xs
      → select (λ x. key x == k && q x) xs ≡ []
  select_absent_and q k [] h = refl
  select_absent_and q k (x ∷ xs) h = ground (arith, h.0, select_absent_and q k xs h.1)

  pub scalar-select_and :
      (q : A → Bool) (k : ℕ) (xs : List A)
      → DistinctBy xs
      → scalar_one_or_none (select (λ x. key x == k && q x) xs) ≡ ok (keep_if q (by_key k xs))
  scalar-select_and q k [] d = refl
  scalar-select_and q k (x ∷ xs) d = elim (==_cases (key x) k) [
    | inl e ↦ ground (arith, e, select_absent_and q k xs (subst_absent k (key x) xs e d.0))
    | inr n ↦ ground (arith, n, scalar-select_and q k xs d.1)
  ]

-- Membership by recursion.
abbrev pub IsIn : {A : Type 0} → A → List A → Type 0
IsIn j [] = ⊥
IsIn j (k ∷ ks) = (j ≡ k) ⊎ IsIn j ks

pub All-IsIn : {A : Type 0} (P : A → Type 0) (x : A) (xs : List A) → All P xs → IsIn x xs → P x
All-IsIn P x [] all i = absurd i
All-IsIn P x (y ∷ ys) all (inl e) = subst P (sym e) all.0
All-IsIn P x (y ∷ ys) all (inr i) = All-IsIn P x ys all.1 i

module _ {A : Type 0} (key : A → ℕ) where
  pub IsIn-by_key :
      (x : A) (xs : List A) → DistinctBy key xs → IsIn x xs → by_key key (key x) xs ≡ some x
  IsIn-by_key x [] d i = absurd i
  IsIn-by_key x (y ∷ ys) d (inl e) = ground (arith, e)
  IsIn-by_key x (y ∷ ys) d (inr i) =
      ground (arith, All-IsIn (λ z. key z ≢ key y) x ys d.0 i, IsIn-by_key x ys d.1 i)

pub All-of_IsIn :
    {A : Type 0} (P : A → Type 0) (xs : List A) → ((x : A) → IsIn x xs → P x) → All P xs
All-of_IsIn P [] h = tt
All-of_IsIn P (x ∷ xs) h = (h x (inl refl), All-of_IsIn P xs (λ y i. h y (inr i)))

-- What holds of each row holds of each row that a query returns, as does the query's condition.
pub All-select :
    {A : Type 0} (P : A → Type 0) (q : A → Bool) (xs : List A)
    → All P xs
    → All (λ x. P x × (q x ≡ true)) (select q xs)
All-select P q [] all = tt
All-select P q (x ∷ xs) all = elim (Bool-cases (q x)) [
  | inl e ↦ rw e ((all.0, e), All-select P q xs all.1)
  | inr e ↦ rw e (All-select P q xs all.1)
]

pub first-All :
    {A : Type 0} (P : A → Type 0) (xs : List A) (x : A) → All P xs → first xs ≡ some x → P x
first-All P [] x all e = absurd (cc)
first-All P (y ∷ ys) x all e = subst P (ground (arith, e)) all.0

module _ {A : Type 0} (key : A → ℕ) where
  pub key_eq : (k : ℕ) (x : A) → (key x == k) ≡ true → key x ≡ k
  key_eq k x e = ground (arith, e)

  -- A row that is found by its key and passes a test is the row of its own key.
  pub keep_if-by_key :
      (q : A → Bool) (k : ℕ) (x : A) (xs : List A)
      → keep_if q (by_key key k xs) ≡ some x
      → (by_key key (key x) xs ≡ some x) × (key x ≡ k) × (q x ≡ true)
  keep_if-by_key q k x xs e =
      let row : by_key key k xs ≡ some x = ground (arith, e) in
      let same = key_eq k x (find_sound (λ y. key y == k) xs x row) in
      (subst (λ i. by_key key i xs ≡ some x) (sym same) row, same, ground (arith, e))

-- Membership in what a query returns.
pub find-IsIn : {A : Type 0} (p : A → Bool) (xs : List A) (x : A) → find p xs ≡ some x → IsIn x xs
find-IsIn p [] x e = absurd (cc)
find-IsIn p (y ∷ ys) x e = elim (Bool-cases (p y)) [
  | inl t ↦ inl (ground (arith, t, e))
  | inr f ↦ inr (find-IsIn p ys x (ground (arith, f, e)))
]

pub IsIn-select :
    {A : Type 0} (q : A → Bool) (x : A) (xs : List A)
    → IsIn x xs
    → q x ≡ true
    → IsIn x (select q xs)
IsIn-select q x [] i e = i
IsIn-select q x (y ∷ ys) (inl h) e = rw (subst (λ z. q z ≡ true) h e) (inl h)
IsIn-select q x (y ∷ ys) (inr i) e = elim (Bool-cases (q y)) [
  | inl t ↦ rw t (inr (IsIn-select q x ys i e))
  | inr f ↦ rw f (IsIn-select q x ys i e)
]

pub All-of_select :
    {A : Type 0} (P : A → Type 0) (q : A → Bool) (xs : List A) → All P xs → All P (select q xs)
All-of_select P q [] all = tt
All-of_select P q (x ∷ xs) all = elim (Bool-cases (q x)) [
  | inl t ↦ rw t (all.0, All-of_select P q xs all.1)
  | inr f ↦ rw f (All-of_select P q xs all.1)
]

pub DistinctBy-select :
    {A : Type 0} (key : A → ℕ) (q : A → Bool) (xs : List A)
    → DistinctBy key xs
    → DistinctBy key (select q xs)
DistinctBy-select key q [] d = tt
DistinctBy-select key q (x ∷ xs) d = elim (Bool-cases (q x)) [
  | inl t ↦ rw t (All-of_select (λ y. key y ≢ key x) q xs d.0, DistinctBy-select key q xs d.1)
  | inr f ↦ rw f (DistinctBy-select key q xs d.1)
]

pub All-update_where :
    {A : Type 0} (P : A → Type 0) (q : A → Bool) (f : A → A)
    → ((x : A) → P x → P (f x))
    → (xs : List A) → All P xs
    → All P (update_where q f xs)
All-update_where P q f keeps [] all = tt
All-update_where P q f keeps (x ∷ xs) all = (
  elim (Bool-cases (q x)) [ inl e ↦ rw e (keeps x all.0) | inr e ↦ rw e all.0 ],
  All-update_where P q f keeps xs all.1,
)

-- A value that is equal to one of a list.
pub any-All : (P : ℕ → Type 0) (k : ℕ) (ks : List ℕ) → any (λ i. k == i) ks ≡ true → All P ks → P k
any-All P k [] e all = absurd (cc)
any-All P k (i ∷ ks) e all = elim (Bool-cases (k == i)) [
  | inl t ↦ subst P {x = i} {y = k} (ground (arith, t)) all.0
  | inr f ↦ any-All P k ks (ground (arith, f, e)) all.1
]

pub All-where :
    {A : Type 0} (P : A → Type 0) (q : A → Bool)
    → ((x : A) → q x ≡ true → P x)
    → (xs : List A) → All P (select q xs)
All-where P q h [] = tt
All-where P q h (x ∷ xs) = elim (Bool-cases (q x)) [
  | inl e ↦ rw e (h x e, All-where P q h xs)
  | inr e ↦ rw e (All-where P q h xs)
]
