-- ===== src/Auth/Sessions.antt =====
-- app/services/auth/service.py: the life of a session, from `create_session` to `lock_session`.
-- A service call reads the clock once, as its argument `now`.
pub mod Resolve
pub mod Expiry
pub mod Closing
pub mod Live
use tax_return_ai.Base.{
  ℕ, ◌+◌, Bool, true, false, ◌&&◌, ◌||◌, not, String, Option, none, some, List, [], ◌∷◌, ◌++◌, leb,
  ◌==◌, is_some, if◌then◌else◌, select, find, update_where, scalar_one_or_none, ok, ◌>>=◌, ◌>>◌,
  modify, pure, query, gets, return_if, Action,
}
use tax_return_ai.Config.{
  Settings, timedelta, effective_session_idle_timeout_seconds,
  effective_session_absolute_timeout_seconds,
}
use tax_return_ai.Models.Account.{User, AuthSession}
use tax_return_ai.Models.Audit.{text, number}
use tax_return_ai.Models.World.{Db, World, Service, uuid4}
use tax_return_ai.Audit.{write_audit}
use tax_return_ai.Security.KeyCache.{
  KeyCache, cache_session_key, clear_session_key, clear_session_key_by_hash, clear_user_keys,
}
use tax_return_ai.Security.Capability.{revoke_capability_for_session, validate_unlock_capability}
use tax_return_ai.Auth.Crypto.{Crypto}

-- What the services read of the HTTP request: the client's address, 0 where it has none, and the
-- user agent.
pub record Request : Type 0 where
  pub client_ip : ℕ
  pub user_agent : Option String

abbrev pub is_user : ℕ → User → Bool
is_user user_id u = u.id == user_id && u.is_active

abbrev pub user_key : User → ℕ
user_key u = u.id

abbrev pub session_hash : AuthSession → ℕ
session_hash a = a.session_token_hash

abbrev pub has_token_hash : ℕ → AuthSession → Bool
has_token_hash h a = a.session_token_hash == h

-- `get_active_user`: the first active row
abbrev pub active_user : World → Option User
active_user w = find (λ u. u.is_active) w.db.users

abbrev pub session_rows : ℕ → World → List AuthSession
session_rows h w = select (has_token_hash h) w.db.auth_sessions

abbrev pub set_sessions : (List AuthSession → List AuthSession) → World → World
set_sessions f w = record w { db = record (w.db) { auth_sessions = f w.db.auth_sessions } }

abbrev pub set_users : (List User → List User) → World → World
set_users f w = record w { db = record (w.db) { users = f w.db.users } }

abbrev pub set_cache : (KeyCache → KeyCache) → World → World
set_cache f w = record w { key_cache = f w.key_cache }

unfoldable pub get_session_by_hash : ℕ → Service (Option AuthSession)
get_session_by_hash h = query (λ w. scalar_one_or_none (session_rows h w))

-- `user.unlock_epoch if user else 1`
abbrev pub epoch_of : Option User → ℕ
epoch_of none = 1
epoch_of (some u) = u.unlock_epoch

abbrev pub revoked_row : ℕ → AuthSession → AuthSession
revoked_row now a = record a { revoked_at = some now }

abbrev pub seen_row : ℕ → AuthSession → AuthSession
seen_row now a = record a { last_seen_at = now }

module _ (s : Settings) where
  -- `now - last_seen_at >= idle_cutoff`, and so on
  unfoldable pub idle_expired : ℕ → AuthSession → Bool
  idle_expired now a =
      leb (a.last_seen_at + timedelta (effective_session_idle_timeout_seconds s)) now

  unfoldable pub has_expired : ℕ → AuthSession → Bool
  unfolding idle_expired
  has_expired now a =
      leb a.expires_at now
      || idle_expired now a
      || leb (a.created_at + timedelta (effective_session_absolute_timeout_seconds s)) now

-- `clear_session_key(token)` and `clear_session_key_by_hash(hash)`
abbrev pub forget_key : Crypto → ℕ → ℕ → Service (Unit {0})
forget_key c token h =
    modify (
      set_cache (λ cache. clear_session_key_by_hash h (clear_session_key c.sha256_hex token cache)))

module _ (c : Crypto) (s : Settings) where
  -- The token is the random text that `secrets.token_urlsafe(48)` draws.
  unfoldable pub create_session : ℕ → ℕ → Request → ℕ → Service (ℕ × ℕ)
  create_session now user_id request token = do
    let token_hash = c.sha256_hex token
    let expires_at = now + timedelta (effective_session_absolute_timeout_seconds s)
    user ← query (λ w. scalar_one_or_none (select (is_user user_id) w.db.users))
    id ← uuid4
    let session : AuthSession = record {
      id = id;
      user_id = user_id;
      session_token_hash = token_hash;
      created_at = now;
      expires_at = expires_at;
      revoked_at = none;
      last_seen_at = now;
      user_agent = request.user_agent;
      ip_hash = if request.client_ip == 0 then none else some (c.sha256_hex request.client_ip);
      key_epoch = epoch_of user;
    }
    modify (set_sessions (λ rows. rows ++ session ∷ []))
    pure (token, expires_at)

  abbrev timeouts : List (String × tax_return_ai.Models.Audit.Value)
  timeouts =
      ("idle_timeout_seconds", number (effective_session_idle_timeout_seconds s))
      ∷ ("absolute_timeout_seconds", number (effective_session_absolute_timeout_seconds s))
      ∷ []

  -- The first expiry that is noticed marks the row and is written to the audit log.
  pub mark_expired : ℕ → AuthSession → Service (Option User × Option AuthSession)
  mark_expired now a = do
    modify (set_sessions (update_where (has_token_hash a.session_token_hash) (revoked_row now)))
    write_audit now "user" a.user_id
        (if idle_expired s now a then "auto_lock_triggered" else "session_expired") timeouts
    write_audit now "user" a.user_id "workspace_locked" (("reason", text "session_expired") ∷ [])
    pure (none, some (revoked_row now a))

  pub reject_session : ℕ → ℕ → AuthSession → Service (Option User × Option AuthSession)
  unfolding mark_expired
  reject_session now token a = do
    forget_key c token a.session_token_hash
    revoke_capability_for_session now a.session_token_hash (some now)
    if has_expired s now a && not (is_some a.revoked_at)
        then mark_expired now a
        else pure (none, some a)

  pub reject_stale : ℕ → ℕ → User → AuthSession → Service (Option User × Option AuthSession)
  reject_stale now token u a = do
    modify (set_sessions (update_where (has_token_hash a.session_token_hash) (revoked_row now)))
    revoke_capability_for_session now a.session_token_hash (some now)
    forget_key c token a.session_token_hash
    write_audit now "user" u.id "session_expired" (("reason", text "stale_key_epoch") ∷ [])
    pure (none, some (revoked_row now a))

  pub check_user : ℕ → ℕ → AuthSession → Option User → Service (Option User × Option AuthSession)
  unfolding reject_stale
  check_user now token a none = pure (none, some a)
  check_user now token a (some u) =
      if not (u.unlock_epoch == a.key_epoch)
      then reject_stale now token u a
      else modify (set_sessions (update_where (has_token_hash a.session_token_hash) (seen_row now)))
        >> pure (some u, some (seen_row now a))

  pub check_session : ℕ → ℕ → Option AuthSession → Service (Option User × Option AuthSession)
  unfolding check_user reject_session
  check_session now token none = do
    write_audit now "auth_session" (c.head36 (c.sha256_hex token)) "invalid_session_token"
        (("reason", text "session_not_found") ∷ [])
    pure (none, none)
  check_session now token (some a) =
      if is_some a.revoked_at || has_expired s now a then reject_session now token a else do
        user ← query (λ w. scalar_one_or_none (select (is_user a.user_id) w.db.users))
        check_user now token a user

  unfoldable pub resolve_session : ℕ → ℕ → Service (Option User × Option AuthSession)
  unfolding check_session
  resolve_session now token =
      return_if (token == 0) (none, none)
        (do
          session ← query (λ w. scalar_one_or_none (session_rows (c.sha256_hex token) w))
          check_session now token session)

  close_found : ℕ → ℕ → Option AuthSession → Service Bool
  close_found now token none = pure false
  close_found now token (some a) = do
    modify (set_sessions (update_where (has_token_hash a.session_token_hash) (revoked_row now)))
    write_audit now "user" a.user_id "workspace_locked" (("reason", text "manual_logout") ∷ [])
    revoke_capability_for_session now a.session_token_hash none
    forget_key c token a.session_token_hash
    pure true

  unfoldable pub revoke_session : ℕ → ℕ → Service Bool
  unfolding close_found
  revoke_session now token = return_if (token == 0) false (do
    session ← query (λ w. scalar_one_or_none (session_rows (c.sha256_hex token) w))
    close_found now token session)

  lock_found : ℕ → ℕ → Option AuthSession → Service Bool
  lock_found now token none = pure false
  lock_found now token (some a) = do
    revoke_capability_for_session now a.session_token_hash none
    forget_key c token a.session_token_hash
    write_audit now "user" a.user_id "workspace_locked" (("reason", text "manual_lock") ∷ [])
    pure true

  unfoldable pub lock_session : ℕ → ℕ → Service Bool
  unfolding lock_found
  lock_session now token = return_if (token == 0) false (do
    session ← query (λ w. scalar_one_or_none (session_rows (c.sha256_hex token) w))
    lock_found now token session)

  unfoldable pub is_unlock_capability_active : ℕ → User → AuthSession → ℕ → Service Bool
  is_unlock_capability_active now user a token =
      validate_unlock_capability s now user a (c.sha256_hex token) true
