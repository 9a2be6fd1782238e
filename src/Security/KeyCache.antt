-- ===== src/Security/KeyCache.antt =====
-- app/services/security/key_cache.py: the process-wide dict `_SESSION_KEYS` from the hash of a
-- session token to the user, the field key and the expiry time.
-- Tokens, hashes and ids are texts that the code only compares and tests for being non-empty: they
-- are numbers here, and 0 stands for the empty text and for `None`. Times are microseconds. The
-- clock is read where `now` is an argument, and `_token_hash` (SHA-256) is the argument `hash`.
pub mod View
pub mod Laws
use tax_return_ai.Base.{
  ℕ, ◌≡◌, Bool, true, false, Option, none, some, List, [], ◌∷◌, leb, ◌==◌, if◌then◌else◌,
}
use tax_return_ai.Base.Dict.{Dict, lookup, insert, erase}

pub record Row : Type 0 where
  pub user_id : ℕ
  pub key : ℕ
  pub expires_at : ℕ

abbrev pub KeyCache : Type 0
KeyCache = Dict Row

unfoldable pub cache_session_key : (ℕ → ℕ) → ℕ → ℕ → ℕ → ℕ → KeyCache → KeyCache
cache_session_key hash token user_id key expires_at c =
    insert (hash token) (record { user_id = user_id; key = key; expires_at = expires_at }) c

-- The body of both getters behind the test of their argument.
read_row : ℕ → ℕ → Option Row → KeyCache → Option ℕ × KeyCache
read_row h now none c = (none, c)
read_row h now (some row) c =
    if leb row.expires_at now then (none, erase h c) else (some row.key, c)

unfoldable pub get_session_key_by_hash : ℕ → ℕ → KeyCache → Option ℕ × KeyCache
unfolding read_row
get_session_key_by_hash h now c = if h == 0 then (none, c) else read_row h now (lookup h c) c

unfoldable pub get_session_key : (ℕ → ℕ) → ℕ → ℕ → KeyCache → Option ℕ × KeyCache
unfolding read_row
get_session_key hash token now c =
    if token == 0 then (none, c) else read_row (hash token) now (lookup (hash token) c) c

-- The loop over `list(_SESSION_KEYS.items())`, a copy, while entries are popped from the dict.
find_user_key : ℕ → ℕ → List (ℕ × Row) → KeyCache → Option ℕ × KeyCache
find_user_key user_id now [] c = (none, c)
find_user_key user_id now ((h, row) ∷ items) c =
    let expired = find_user_key user_id now items (erase h c) in
    let next = find_user_key user_id now items c in
    if leb row.expires_at now
    then expired
    else if row.user_id == user_id
    then (some row.key, c)
    else next

unfoldable pub get_user_active_key : ℕ → ℕ → KeyCache → Option ℕ × KeyCache
unfolding find_user_key
get_user_active_key user_id now c = find_user_key user_id now c c

unfoldable pub clear_session_key_by_hash : ℕ → KeyCache → KeyCache
clear_session_key_by_hash h c = if h == 0 then c else erase h c

unfoldable pub clear_session_key : (ℕ → ℕ) → ℕ → KeyCache → KeyCache
clear_session_key hash token c = if token == 0 then c else erase (hash token) c

drop_user : ℕ → List (ℕ × Row) → KeyCache → KeyCache
drop_user user_id [] c = c
drop_user user_id ((h, row) ∷ items) c =
    drop_user user_id items (if row.user_id == user_id then erase h c else c)

unfoldable pub clear_user_keys : ℕ → KeyCache → KeyCache
unfolding drop_user
clear_user_keys user_id c = if user_id == 0 then c else drop_user user_id c c
