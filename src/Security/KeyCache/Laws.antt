-- ===== src/Security/KeyCache/Laws.antt =====
-- The getters and the clearing functions of key_cache.py against the abstract view.
use tax_return_ai.Base.{
  ℕ, ◌≡◌, ◌≢◌, ◌⊎◌, ◌≤◌, ◌<◌, inl, inr, refl, Option, none, some, List, [], ◌∷◌, leb, ltb,
  Bool-cases, ◌==◌, if◌then◌else◌, arith, All,
}
use tax_return_ai.Base.Dict.{lookup, erase, lookup-erase, lookup-insert}
use tax_return_ai.Security.KeyCache.{
  Row, KeyCache, find_user_key, drop_user, cache_session_key, get_session_key_by_hash,
  get_session_key, get_user_active_key, clear_session_key, clear_user_keys,
}
use tax_return_ai.Security.KeyCache.View.{
  live, key_of, without_user, IsDict, Agrees, Agrees-erase, Agrees-self,
}

fresh-erase :
    (now t j h : ℕ) (c : KeyCache) (row : Row)
    → lookup h c ≡ some row
    → row.expires_at ≤ now
    → now ≤ t
    → live t (erase h c) j ≡ live t c j
fresh-erase now t j h c row e x l = ground (arith, lookup-erase j h c)

-- A read by a non-empty hash answers with the live key of the hash, and changes no answer of the
-- cache at that time or later: what it pops has expired.
pub get_session_key_by_hash-live :
    (h now : ℕ) (c : KeyCache)
    → h ≢ 0
    → ((get_session_key_by_hash h now c).0 ≡ key_of (live now c h))
      × ((t j : ℕ) → now ≤ t → live t (get_session_key_by_hash h now c).1 j ≡ live t c j)
unfolding get_session_key_by_hash
get_session_key_by_hash-live h now c ne =
    (ground arith, λ t j l. ground (arith, lookup-erase j h c))

pub get_session_key-live :
    (hash : ℕ → ℕ) (token now : ℕ) (c : KeyCache)
    → token ≢ 0
    → ((get_session_key hash token now c).0 ≡ key_of (live now c (hash token)))
      × ((t j : ℕ) → now ≤ t → live t (get_session_key hash token now c).1 j ≡ live t c j)
unfolding get_session_key
get_session_key-live hash token now c ne =
    (ground arith, λ t j l. ground (arith, lookup-erase j (hash token) c))

-- After a key has been cached for a token, the answer for the hash of the token is the new key
-- until it expires, and every other answer is as before.
pub live-cache_session_key :
    (hash : ℕ → ℕ) (token user_id key expires_at now j : ℕ) (c : KeyCache)
    → live now (cache_session_key hash token user_id key expires_at c) j ≡ (
        if j == hash token
        then (if ltb now expires_at
            then some (record { user_id = user_id; key = key; expires_at = expires_at })
            else none)
        else live now c j)
unfolding cache_session_key
live-cache_session_key hash token u key exp now j c =
    ground
      (arith, lookup-insert j (hash token) (record { user_id = u; key = key; expires_at = exp }) c)

pub live-clear_session_key :
    (hash : ℕ → ℕ) (token now j : ℕ) (c : KeyCache)
    → token ≢ 0
    → live now (clear_session_key hash token c) j ≡ (if j == hash token then none else live now c j)
unfolding clear_session_key
live-clear_session_key hash token now j c ne = ground (arith, lookup-erase j (hash token) c)

find_user_key-live :
    (u now : ℕ) (items : List (ℕ × Row)) (c : KeyCache)
    → Agrees items c
    → (t j : ℕ) → now ≤ t
    → live t (find_user_key u now items c).1 j ≡ live t c j
unfolding find_user_key
find_user_key-live u now [] c a t j l = refl
find_user_key-live u now ((h, row) ∷ items) c a t j l = ground (
  arith,
  a.0,
  lookup-erase j h c,
  find_user_key-live u now items (erase h c) (Agrees-erase items h c a.1) t j l,
  find_user_key-live u now items c a.1 t j l,
)

-- The search for a key of a user, which pops entries, changes no answer of the cache at that time
-- or later, if the cache holds each hash once.
pub get_user_active_key-live :
    (u now : ℕ) (c : KeyCache)
    → IsDict c
    → (t j : ℕ) → now ≤ t
    → live t (get_user_active_key u now c).1 j ≡ live t c j
unfolding get_user_active_key
get_user_active_key-live u now c d = find_user_key-live u now c c (Agrees-self c d)

-- The entries that the search may answer with.
abbrev pub IsActive : ℕ → ℕ → Row → Type 0
IsActive u now row = (row.user_id ≡ u) × (now < row.expires_at)

-- What the answer of the search says of the entries: `none` that no entry is the user's and live,
-- `some k` that an entry with the key `k` is.
abbrev pub Finds : ℕ → ℕ → Option ℕ → List (ℕ × Row) → Type 0
Finds u now none items = All (λ (e : ℕ × Row). ¬ IsActive u now e.1) items
Finds u now (some k) [] = ⊥
Finds u now (some k) (e ∷ items) = (IsActive u now e.1 × (e.1.key ≡ k)) ⊎ Finds u now (some k) items

Finds-cons :
    (u now : ℕ) (r : Option ℕ) (e : ℕ × Row) (items : List (ℕ × Row))
    → ¬ IsActive u now e.1
    → Finds u now r items
    → Finds u now r (e ∷ items)
Finds-cons u now none e items n f = (n, f)
Finds-cons u now (some k) e items n f = inr f

find_user_key-Finds :
    (u now : ℕ) (items : List (ℕ × Row)) (c : KeyCache)
    → Finds u now (find_user_key u now items c).0 items
unfolding find_user_key
find_user_key-Finds u now [] c = tt
find_user_key-Finds u now ((h, row) ∷ items) c = elim (Bool-cases (leb row.expires_at now)) [
  | inl e ↦ rw e (
      Finds-cons u now _ (h, row) items (λ a. ground (arith, a))
        (find_user_key-Finds u now items (erase h c)))
  | inr e ↦ elim (Bool-cases (row.user_id == u)) [
    | inl f ↦ rw (e, f) (inl ((ground arith, ground arith), refl))
    | inr f ↦
        rw (e, f)
          (Finds-cons u now _ (h, row) items (λ a. ground (arith, a))
            (find_user_key-Finds u now items c))
  ]
]

-- The search answers with the key of a live entry of the user, and with None only if there is no
-- such entry.
pub get_user_active_key-Finds :
    (u now : ℕ) (c : KeyCache) → Finds u now (get_user_active_key u now c).0 c
unfolding get_user_active_key
get_user_active_key-Finds u now c = find_user_key-Finds u now c c

lookup-drop_user :
    (u j : ℕ) (items : List (ℕ × Row)) (c : KeyCache)
    → Agrees items c
    → (lookup j (drop_user u items c) ≡ lookup j c)
      ⊎ ((lookup j (drop_user u items c) ≡ none) × (without_user u (lookup j c) ≡ none))
unfolding drop_user
lookup-drop_user u j [] c a = inl refl
lookup-drop_user u j ((h, row) ∷ items) c a = ground (
  arith,
  a.0,
  lookup-erase j h c,
  lookup-drop_user u j items (erase h c) (Agrees-erase items h c a.1),
  lookup-drop_user u j items c a.1,
)

-- The answer for `j` is another user's, or is still to be visited.
abbrev IsCovered : ℕ → ℕ → List (ℕ × Row) → KeyCache → Type 0
IsCovered u j items c = (lookup j c ≡ lookup j items) ⊎ (without_user u (lookup j c) ≡ lookup j c)

IsCovered-step :
    (u j h : ℕ) (row : Row) (items : List (ℕ × Row)) (c : KeyCache)
    → IsCovered u j ((h, row) ∷ items) c
    → IsCovered u j items (if row.user_id == u then erase h c else c)
IsCovered-step u j h row items c (inl e) = ground (arith, lookup-erase j h c)
IsCovered-step u j h row items c (inr e) = ground (arith, lookup-erase j h c)

drop_user-IsCovered :
    (u j : ℕ) (items : List (ℕ × Row)) (c : KeyCache)
    → IsCovered u j items c
    → IsCovered u j [] (drop_user u items c)
unfolding drop_user
drop_user-IsCovered u j [] c h = h
drop_user-IsCovered u j ((i, row) ∷ items) c h =
    drop_user-IsCovered u j items (if row.user_id == u then erase i c else c)
      (IsCovered-step u j i row items c h)

-- Clearing the keys of a user with a non-empty id drops exactly the entries of that user, if the
-- cache holds each hash once.
pub lookup-clear_user_keys :
    (u j : ℕ) (c : KeyCache)
    → u ≢ 0
    → IsDict c
    → lookup j (clear_user_keys u c) ≡ without_user u (lookup j c)
unfolding clear_user_keys
lookup-clear_user_keys u j c ne d =
    ground
      (arith, lookup-drop_user u j c c (Agrees-self c d), drop_user-IsCovered u j c c (inl refl))
