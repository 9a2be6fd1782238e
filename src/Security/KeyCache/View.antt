-- ===== src/Security/KeyCache/View.antt =====
-- The abstract view of app/services/security/key_cache.py: which key a token hash gives at a time.
use tax_return_ai.Base.{
  ℕ, ◌≡◌, ◌≢◌, ◌⊎◌, Option, none, some, List, [], ◌∷◌, ltb, ◌==◌, if◌then◌else◌, arith, All,
}
use tax_return_ai.Base.Dict.{lookup, erase, lookup-erase}
use tax_return_ai.Security.KeyCache.{Row, KeyCache}

-- The row of a hash, while it has not expired.
abbrev pub fresh : ℕ → Option Row → Option Row
fresh now none = none
fresh now (some row) = if ltb now row.expires_at then some row else none

abbrev pub live : ℕ → KeyCache → ℕ → Option Row
live now c h = fresh now (lookup h c)

abbrev pub key_of : Option Row → Option ℕ
key_of none = none
key_of (some row) = some row.key

-- The rows that are not of the user.
abbrev pub without_user : ℕ → Option Row → Option Row
without_user user_id none = none
without_user user_id (some row) = if row.user_id == user_id then none else some row

-- A dict holds each key once.
abbrev pub IsDict : List (ℕ × Row) → Type 0
IsDict [] = Unit
IsDict ((h, row) ∷ c) = All (λ (e : ℕ × Row). e.0 ≢ h) c × IsDict c

-- Each listed entry is in the dict, or has been popped.
abbrev pub Agrees : List (ℕ × Row) → KeyCache → Type 0
Agrees [] c = Unit
Agrees ((h, row) ∷ items) c = ((lookup h c ≡ some row) ⊎ (lookup h c ≡ none)) × Agrees items c

pub Agrees-erase :
    (items : List (ℕ × Row)) (h : ℕ) (c : KeyCache) → Agrees items c → Agrees items (erase h c)
Agrees-erase [] h c a = tt
Agrees-erase ((j, row) ∷ items) h c a =
    (ground (arith, a.0, lookup-erase j h c), Agrees-erase items h c a.1)

Agrees-cons :
    (items : List (ℕ × Row)) (h : ℕ) (row : Row) (c : KeyCache)
    → All (λ (e : ℕ × Row). e.0 ≢ h) items
    → Agrees items c
    → Agrees items ((h, row) ∷ c)
Agrees-cons [] h row c d a = tt
Agrees-cons ((j, r) ∷ items) h row c d a =
    (ground (arith, a.0, d.0), Agrees-cons items h row c d.1 a.1)

pub Agrees-self : (c : KeyCache) → IsDict c → Agrees c c
Agrees-self [] d = tt
Agrees-self ((h, row) ∷ c) d = (ground arith, Agrees-cons c h row c d.0 (Agrees-self c d.1))
