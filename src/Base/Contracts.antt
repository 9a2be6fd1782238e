-- ===== src/Base/Contracts.antt =====
-- Contracts of the actions of Outcome: what an action keeps whatever its outcome is, and what holds
-- when it answers.
use mathlib.Core.Path.{◌≡◌, refl}
use native.Mathlib.Omega.{arith}
use mathlib.Core.Bool.{Bool, true, false}
use tax_return_ai.Base.Tests.{if◌then◌else◌}
use tax_return_ai.Base.Outcome.{Result, ok, err, Exn, Action, ◌>>=◌, ◌>>◌, raise, pure, query, gets}

module _ {S : Type 0} where
  pub record Keeps (P : S → Type 0) {A : Type 0} (m : Action S A) : Type 0 where
    pub kept : (s : S) → P s → P (m s).1

  pub record Ends (P : S → Type 0) {A : Type 0} (m : Action S A) : Type 0 where
    pub reached : (s : S) (a : A) → (m s).0 ≡ ok a → P (m s).1

module _ {S : Type 0} {P : S → Type 0} where
  Keeps-after :
      {A B : Type 0} (f : A → Action S B)
      → ((a : A) → Keeps P (f a))
      → (r : Result A) (s : S) → P s
      → P (((λ _. (r, s)) >>= f) s).1
  Keeps-after f k (ok a) s h = (k a).kept s h
  Keeps-after f k (err e) s h = h

  pub >>=-Keeps :
      {A B : Type 0} {m : Action S A} {f : A → Action S B}
      → Keeps P m
      → ((a : A) → Keeps P (f a))
      → Keeps P (m >>= f)
  >>=-Keeps {m} {f} km kf = record { kept = λ s h. Keeps-after f kf (m s).0 (m s).1 (km.kept s h) }

  pub >>-Keeps :
      {A B : Type 0} {m : Action S A} {n : Action S B} → Keeps P m → Keeps P n → Keeps P (m >> n)
  >>-Keeps km kn = >>=-Keeps km (λ _. kn)

  Ends-after :
      {A B : Type 0} (f : A → Action S B)
      → ((a : A) → Ends P (f a))
      → (r : Result A) (s : S) (b : B) → (((λ _. (r, s)) >>= f) s).0 ≡ ok b
      → P (((λ _. (r, s)) >>= f) s).1
  Ends-after f k (ok a) s b e = (k a).reached s b e
  Ends-after f k (err x) s b e = absurd (ground (arith, e))

  pub >>=-Ends :
      {A B : Type 0} (m : Action S A) {f : A → Action S B}
      → ((a : A) → Ends P (f a))
      → Ends P (m >>= f)
  >>=-Ends m {f} k = record { reached = λ s b e. Ends-after f k (m s).0 (m s).1 b e }

  pub >>-Ends : {A B : Type 0} (m : Action S A) {n : Action S B} → Ends P n → Ends P (m >> n)
  >>-Ends m k = >>=-Ends m (λ _. k)

  Ends-then :
      {A B : Type 0} (f : A → Action S B)
      → ((a : A) → Keeps P (f a))
      → (r : Result A) (s : S) (b : B) → ((a : A) → r ≡ ok a → P s)
      → (((λ _. (r, s)) >>= f) s).0 ≡ ok b
      → P (((λ _. (r, s)) >>= f) s).1
  Ends-then f k (ok a) s b h e = (k a).kept s (h a refl)
  Ends-then f k (err x) s b h e = absurd (ground (arith, e))

  -- What holds when the first part answers, and is kept by what follows it.
  pub >>=-Ends_kept :
      {A B : Type 0} {m : Action S A} {f : A → Action S B}
      → Ends P m
      → ((a : A) → Keeps P (f a))
      → Ends P (m >>= f)
  >>=-Ends_kept {m} {f} em kf = record {
    reached = λ s b e. Ends-then f kf (m s).0 (m s).1 b (em.reached s) e;
  }

  pub raise-Ends : {A : Type 0} (x : Exn) → Ends P (raise {A = A} x)
  raise-Ends x = record { reached = λ s a e. absurd (ground (arith, e)) }

  pub if-Ends :
      {A : Type 0} (b : Bool) {m n : Action S A} → Ends P m → Ends P n → Ends P (if b then m else n)
  if-Ends true em en = em
  if-Ends false em en = en

  pub if-Keeps :
      {A : Type 0} (b : Bool) {m n : Action S A}
      → Keeps P m
      → Keeps P n
      → Keeps P (if b then m else n)
  if-Keeps true km kn = km
  if-Keeps false km kn = kn

  pub pure-Keeps : {A : Type 0} (a : A) → Keeps P (pure {S = S} a)
  pure-Keeps a = record { kept = λ s h. h }

  pub raise-Keeps : {A : Type 0} (x : Exn) → Keeps P (raise {S = S} {A = A} x)
  raise-Keeps x = record { kept = λ s h. h }

  pub query-Keeps : {A : Type 0} (f : S → Result A) → Keeps P (query f)
  query-Keeps f = record { kept = λ s h. h }

  pub gets-Keeps : {A : Type 0} (f : S → A) → Keeps P (gets f)
  gets-Keeps f = record { kept = λ s h. h }

module _ {S : Type 0} (P : S → Type 0) where
  -- The second part from the one state that the first part leaves.
  at-after :
      {A B : Type 0} (f : A → Action S B) (r : Result A) (s : S)
      → ((a : A) → P (f a s).1)
      → P s
      → P (((λ _. (r, s)) >>= f) s).1
  at-after f (ok a) s k h = k a
  at-after f (err e) s k h = h

  pub >>=-at :
      {A B : Type 0} (m : Action S A) (f : A → Action S B) (s : S)
      → ((a : A) → P (f a (m s).1).1)
      → P (m s).1
      → P ((m >>= f) s).1
  >>=-at m f s k h = at-after f (m s).0 (m s).1 k h

pub ruleset keeps_rules =
    (>>=-Keeps, >>-Keeps, if-Keeps, pure-Keeps, raise-Keeps, query-Keeps, gets-Keeps)
