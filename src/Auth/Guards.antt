-- ===== src/Auth/Guards.antt =====
-- app/db/auth_deps.py: the dependencies that guard the routes. Each reads the clock anew in every
-- service that it calls, so it takes the times of those reads.
pub mod Laws
use tax_return_ai.Base.{
  ℕ, ◌==◌, Bool, true, false, not, Option, none, some, String, is_some, http, ◌>>=◌, ◌>>◌, pure,
  raise_if, or_raise, ok, Action,
}
use tax_return_ai.Config.{Settings}
use tax_return_ai.Models.Account.{User, AuthSession}
use tax_return_ai.Models.World.{World, Service}
use tax_return_ai.Security.KeyCache.{get_session_key}
use tax_return_ai.Auth.Crypto.{Crypto}
use tax_return_ai.Auth.Sessions.{resolve_session, is_unlock_capability_active}

abbrev pub unauthenticated : tax_return_ai.Base.Exn
unauthenticated = http 401 "Authentication required"

abbrev pub locked : tax_return_ai.Base.Exn
locked = http 423 "Workspace is locked. Unlock to view sensitive tax data."

-- `get_session_key(token)` on the cache of the process
abbrev pub session_key : Crypto → ℕ → ℕ → Service (Option ℕ)
session_key c now token w =
    let (key, cache) = get_session_key c.sha256_hex token now w.key_cache in
    (ok key, record w { key_cache = cache })

module _ (c : Crypto) (s : Settings) where
  unfoldable pub get_current_user : ℕ → ℕ → Service User
  get_current_user now token = do
    found ← resolve_session c s now token
    or_raise found.0 unauthenticated

  -- The second half of the guard: the capability of the session, and the key in the cache.
  unfoldable pub check_unlocked : ℕ → ℕ → ℕ → User → AuthSession → Service User
  check_unlocked t₂ t₃ token user session = do
    active ← is_unlock_capability_active c s t₂ user session token
    raise_if (not active) locked
    key ← session_key c t₃ token
    raise_if (not (is_some key)) locked
    pure user

  unfoldable pub get_current_unlocked_user : ℕ → ℕ → ℕ → ℕ → Service User
  get_current_unlocked_user t₁ t₂ t₃ token = do
    found ← resolve_session c s t₁ token
    user ← or_raise found.0 unauthenticated
    session ← or_raise found.1 unauthenticated
    check_unlocked t₂ t₃ token user session
