-- ===== src/Security/Capability.antt =====
-- app/services/security/unlock_capability.py: the database row that lets a session read sensitive
-- data, with its sliding expiry, and the counters of refused validations.
pub mod Laws
pub mod Revocation
use tax_return_ai.Base.{
  ℕ, ◌+◌, ◌≡◌, min, max, Bool, true, false, ◌&&◌, ◌||◌, not, Option, none, some, List, [], ◌∷◌,
  ◌++◌, leb, ◌==◌, is_some, or_else, if◌then◌else◌, select, count, update_where, scalar_one_or_none,
  ok, ◌>>=◌, ◌>>◌, modify, pure, query, gets,
}
use tax_return_ai.Config.{Settings, timedelta, effective_session_idle_timeout_seconds}
use tax_return_ai.Models.Account.{User, AuthSession, UnlockCapability}
use tax_return_ai.Models.World.{Db, World, Metrics, Service, uuid4}

unfoldable pub capability_ttl_seconds : Settings → ℕ
capability_ttl_seconds s =
    let default_ttl = min (effective_session_idle_timeout_seconds s) 900 in max 60 default_ttl

abbrev pub token_hash : UnlockCapability → ℕ
token_hash c = c.session_token_hash

-- `select(UnlockCapability).where(session_token_hash == h)`, and the row that it returns
abbrev pub has_hash : ℕ → UnlockCapability → Bool
has_hash h c = c.session_token_hash == h

abbrev pub capability_rows : ℕ → World → List UnlockCapability
capability_rows h w = select (has_hash h) w.db.capabilities

abbrev pub set_capabilities : (List UnlockCapability → List UnlockCapability) → World → World
set_capabilities f w = record w { db = record (w.db) { capabilities = f w.db.capabilities } }

-- The fields that a new issue writes into the row of the session.
abbrev pub renew : ℕ → ℕ → User → AuthSession → UnlockCapability → UnlockCapability
renew now expires_at user session c = record c {
  user_id = user.id;
  auth_session_id = session.id;
  key_epoch = user.unlock_epoch;
  expires_at = expires_at;
  last_seen_at = now;
  revoked_at = none;
}

store_capability :
    ℕ → ℕ → User → AuthSession → ℕ → Option UnlockCapability → Service UnlockCapability
store_capability now expires_at user session h (some c) = do
  modify (set_capabilities (update_where (has_hash h) (renew now expires_at user session)))
  pure (renew now expires_at user session c)
store_capability now expires_at user session h none = do
  id ← uuid4
  let c : UnlockCapability = record {
    id = id;
    user_id = user.id;
    auth_session_id = session.id;
    session_token_hash = h;
    key_epoch = user.unlock_epoch;
    expires_at = expires_at;
    last_seen_at = now;
    revoked_at = none;
  }
  modify (set_capabilities (λ cs. cs ++ c ∷ []))
  pure c

unfoldable pub issue_unlock_capability :
    Settings → ℕ → User → AuthSession → ℕ → Service UnlockCapability
unfolding store_capability
issue_unlock_capability s now user session h = do
  let expires_at = now + timedelta (capability_ttl_seconds s)
  capability ← query (λ w. scalar_one_or_none (capability_rows h w))
  store_capability now expires_at user session h capability

abbrev bump_missing : Metrics → Metrics
bump_missing m = record m { locked_or_missing = m.locked_or_missing + 1 }

abbrev bump_revoked : Metrics → Metrics
bump_revoked m = record m { revoked = m.revoked + 1 }

abbrev bump_expired : Metrics → Metrics
bump_expired m = record m { expired = m.expired + 1 }

abbrev bump_stale : Metrics → Metrics
bump_stale m = record m { stale_epoch = m.stale_epoch + 1 }

-- `_CAPABILITY_METRICS[…] += 1; return False`
abbrev refuse : (Metrics → Metrics) → Service Bool
refuse bump w = (ok false, record w { metrics = bump w.metrics })

abbrev pub touched : ℕ → ℕ → UnlockCapability → UnlockCapability
touched now expires_at c = record c { last_seen_at = now; expires_at = expires_at }

check_capability :
    Settings → ℕ → User → AuthSession → ℕ → Bool → Option UnlockCapability → Service Bool
check_capability s now user session h touch none = refuse bump_missing
check_capability s now user session h touch (some c) =
    if not (c.user_id == user.id) || not (c.auth_session_id == session.id)
    then refuse bump_revoked
    else if is_some c.revoked_at
    then refuse bump_revoked
    else if leb c.expires_at now
    then refuse bump_expired
    else if not (user.unlock_epoch == c.key_epoch) || not (session.key_epoch == c.key_epoch)
    then refuse bump_stale
    else if touch
    then modify (
        set_capabilities
          (update_where (has_hash h) (touched now (now + timedelta (capability_ttl_seconds s)))))
      >> pure true
    else pure true

unfoldable pub validate_unlock_capability :
    Settings → ℕ → User → AuthSession → ℕ → Bool → Service Bool
unfolding check_capability
validate_unlock_capability s now user session h touch = do
  capability ← query (λ w. scalar_one_or_none (capability_rows h w))
  check_capability s now user session h touch capability

abbrev pub revoke_at : ℕ → UnlockCapability → UnlockCapability
revoke_at t c = record c { revoked_at = some t }

revoke_row : ℕ → ℕ → Option UnlockCapability → Service (Unit {0})
revoke_row t h none = pure tt
revoke_row t h (some c) = modify (set_capabilities (update_where (has_hash h) (revoke_at t)))

unfoldable pub revoke_capability_for_session : ℕ → ℕ → Option ℕ → Service (Unit {0})
unfolding revoke_row
revoke_capability_for_session now h revoked_at = do
  capability ← query (λ w. scalar_one_or_none (capability_rows h w))
  revoke_row (or_else revoked_at now) h capability

abbrev pub unrevoked_of : ℕ → UnlockCapability → Bool
unrevoked_of user_id c = c.user_id == user_id && not (is_some c.revoked_at)

unfoldable pub revoke_capabilities_for_user : ℕ → ℕ → Option ℕ → Service ℕ
revoke_capabilities_for_user now user_id revoked_at = do
  n ← gets (λ w. count (unrevoked_of user_id) w.db.capabilities)
  modify
      (set_capabilities (update_where (unrevoked_of user_id) (revoke_at (or_else revoked_at now))))
  pure n
