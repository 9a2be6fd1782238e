-- ===== src/Base/Outcome.antt =====
-- Exceptions as values, and a method call on a mutable state: the state comes back after a raise
-- too, since what was written to the session stays written until it is rolled back.
use Prim.Native.Nat.{ℕ}
use Prim.Native.String.{String}
use mathlib.Core.Path.{◌≡◌, ap}
use mathlib.Core.Bool.{Bool}
use mathlib.Core.Option.{Option, none, some}
use tax_return_ai.Base.Tests.{if◌then◌else◌}

-- The exception classes that the services raise. `http` is FastAPI's `HTTPException`, with its
-- status code; `multiple_results` is SQLAlchemy's `MultipleResultsFound`; `connection_error` stands for the
-- classes of RETRYABLE_EXCEPTIONS.
pub data Exn : Type 0 where
  value_error permission_error key_unavailable runtime_error connection_error : String → Exn
  provider_error : String → Exn
  http : ℕ → String → Exn
  multiple_results invalid_tag index_error provider_not_configured : Exn

pub data Result (A : Type 0) : Type 0 where
  ok : A → Result A
  err : Exn → Result A

abbrev pub Action : Type 0 → Type 0 → Type 0
Action S A = S → Result A × S

module _ {S A : Type 0} where
  abbrev pub pure : A → Action S A
  pure a s = (ok a, s)

  abbrev pub raise : Exn → Action S A
  raise e s = (err e, s)

  abbrev pub gets : (S → A) → Action S A
  gets f s = (ok (f s), s)

  -- a query whose result may be an exception
  abbrev pub query : (S → Result A) → Action S A
  query f s = (f s, s)

  -- a function that returns a value and the new state
  abbrev pub call : (S → A × S) → Action S A
  call f s = let (a, s') = f s in (ok a, s')

  -- `if c: return a`, and the rest of the body otherwise
  abbrev pub return_if : Bool → A → Action S A → Action S A
  return_if c a rest s = if c then (ok a, s) else rest s

infixl 5 ◌>>=◌ ◌>>◌
abbrev pub ◌>>=◌ : {S A B : Type 0} → Action S A → (A → Action S B) → Action S B
◌>>=◌ m f s = let (r, s') = m s in elim r [ ok a ↦ f a s' | err e ↦ (err e, s') ]

abbrev pub ◌>>◌ : {S A B : Type 0} → Action S A → Action S B → Action S B
m >> k = m >>= λ _. k

module _ {S : Type 0} where
  abbrev pub raise_if : Bool → Exn → Action S (Unit {0})
  raise_if c e s = (if c then err e else ok tt, s)

  abbrev pub modify : (S → S) → Action S (Unit {0})
  modify f s = (ok tt, f s)

-- `if not x: raise e`
abbrev pub or_raise : {S A : Type 0} → Option A → Exn → Action S A
or_raise none e = raise e
or_raise (some a) _ = pure a

-- A call that answers, and what follows it.
pub >>=-ok :
    {S A B : Type 0} (m : Action S A) (f : A → Action S B) (s : S) {a : A} {t : S}
    → m s ≡ (ok a, t)
    → (m >>= f) s ≡ f a t
>>=-ok {S} {A} m f s e =
    ap (λ (p : Result A × S). elim p.0 [ ok a ↦ f a p.1 | err y ↦ (err y, p.1) ]) e

pub >>=-err :
    {S A B : Type 0} (m : Action S A) (f : A → Action S B) (s : S) {x : Exn} {t : S}
    → m s ≡ (err x, t)
    → (m >>= f) s ≡ (err x, t)
>>=-err {S} {A} m f s e =
    ap (λ (p : Result A × S). elim p.0 [ ok a ↦ f a p.1 | err y ↦ (err y, p.1) ]) e
