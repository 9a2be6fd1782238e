-- ===== src/Auth/Account.antt =====
-- app/services/auth/service.py: the account of the one local user, `setup_user`, `verify_unlock`
-- and `recovery_reset_password`. What `os.urandom` and `secrets` draw is an argument.
pub mod Closed
pub mod Recovery
use tax_return_ai.Base.{
  ◌<>◌, ◌&&◌, raise, ℕ, ◌+◌, Bool, true, not, String, Option, none, some, List, [], ◌∷◌, ◌++◌, ◌==◌,
  is_some, first_some, length, if◌then◌else◌, select, update_where, value_error, permission_error,
  ◌>>=◌, ◌>>◌, modify, pure, query, gets, raise_if, or_raise,
}
use tax_return_ai.Config.{Settings}
use tax_return_ai.Models.Account.{User, AuthSession, TaxWorkspace, WrappedDek}
use tax_return_ai.Models.Audit.{text}
use tax_return_ai.Models.World.{World, Service, uuid4}
use tax_return_ai.Audit.{write_audit}
use tax_return_ai.Security.KeyCache.{cache_session_key, clear_user_keys}
use tax_return_ai.Security.Capability.{issue_unlock_capability, revoke_capabilities_for_user}
use tax_return_ai.Text.{Text}
use tax_return_ai.Auth.Password.{validate_master_password}
use tax_return_ai.Auth.Crypto.{
  Crypto, hash_secret, hash_secret_for_kdf, verify_hash_any_kdf, derive_kek,
  derive_field_encryption_key, wrap_dek, unwrap_dek,
}
use tax_return_ai.Auth.Sessions.{
  Request, active_user, set_users, set_sessions, set_cache, get_session_by_hash, create_session,
}

-- The random values of one call.
pub record Entropy : Type 0 where
  pub token : ℕ
  pub password_salt : ℕ
  pub recovery_salt : ℕ
  pub recovery_key : Text
  pub dek : ℕ
  pub password_nonce : ℕ
  pub recovery_nonce : ℕ

-- `if pwd_error: raise ValueError(pwd_error)`
reject_password : Option String → Service (Unit {0})
reject_password none = pure tt
reject_password (some message) = raise (value_error message)

abbrev pub default_years : List String
default_years = "FY2025" ∷ "FY2024" ∷ []

unfoldable pub new_workspaces : ℕ → ℕ → List String → Service (Unit {0})
new_workspaces now user_id [] = pure tt
new_workspaces now user_id (fy ∷ years) = do
  id ← uuid4
  modify (λ w. record w {
    db = record (w.db) {
      workspaces =
          w.db.workspaces
          ++ (record {
            id = id;
            user_id = user_id;
            tax_year = fy;
            label = fy <> " Workspace";
            status = "active";
            created_at = now;
            last_opened_at = some now;
          })
            ∷ [];
    };
  })
  new_workspaces now user_id years

unfoldable pub seed_default_workspaces : ℕ → ℕ → Service (Unit {0})
unfolding new_workspaces
seed_default_workspaces now user_id = do
  existing ← gets (λ w. select (λ (ws : TaxWorkspace). ws.user_id == user_id) w.db.workspaces)
  if length existing == 0 then new_workspaces now user_id default_years else pure tt

-- Writing the fields of the user's row.
abbrev pub set_user : ℕ → (User → User) → World → World
set_user id f = set_users (update_where (λ u. u.id == id) f)

module _ (c : Crypto) (s : Settings) where
  unfoldable pub issue_for : ℕ → User → ℕ → Option AuthSession → Service (Unit {0})
  issue_for now user h none = pure tt
  issue_for now user h (some row) = issue_unlock_capability s now user row h >> pure tt

  -- The end that the three calls share: the key in the cache and the capability of the session.
  unfoldable pub open_key : ℕ → User → ℕ → ℕ → ℕ → Service (Unit {0})
  unfolding issue_for
  open_key now user token dek expires_at =
      modify (set_cache (cache_session_key c.sha256_hex token user.id dek expires_at))

  unfoldable pub open_capability : ℕ → User → ℕ → Service (Unit {0})
  unfolding issue_for
  open_capability now user token = do
    row ← get_session_by_hash (c.sha256_hex token)
    issue_for now user (c.sha256_hex token) row

  unfoldable pub setup_user :
      ℕ → Text → Option String → Option String → Request → Entropy → Service (User × Text × ℕ × ℕ)
  unfolding reject_password open_key open_capability
  setup_user now master_password display_name email request r = do
    reject_password (validate_master_password master_password)
    existing ← gets active_user
    raise_if (is_some existing) (value_error "Local user is already configured")
    let hashed = hash_secret c master_password r.password_salt
    let recovery = hash_secret c r.recovery_key r.recovery_salt
    id ← uuid4
    let user : User = record {
      id = id;
      email = email;
      display_name = display_name;
      password_kdf = hashed.0;
      password_salt = r.password_salt;
      password_hash = hashed.1;
      recovery_key_salt = r.recovery_salt;
      recovery_key_hash = recovery.1;
      encrypted_dek_by_password = some (
          wrap_dek c r.password_nonce r.dek (derive_kek c master_password r.password_salt hashed.0)
            "password_kek_v1");
      encrypted_dek_by_recovery = some (
          wrap_dek c r.recovery_nonce r.dek (derive_kek c r.recovery_key r.recovery_salt recovery.0)
            "recovery_kek_v1");
      dek_version = some "dek_wrapped_v1";
      dek_wrapping_metadata = some "{\"scheme\":\"password+recovery\"}";
      dek_created_at = some now;
      dek_rotated_at = none;
      unlock_epoch = 1;
      last_unlocked_at = some now;
      is_active = true;
    }
    modify (set_users (λ users. users ++ user ∷ []))
    seed_default_workspaces now user.id
    made ← create_session c s now user.id request r.token
    open_capability now user made.0
    open_key now user made.0 r.dek made.1
    write_audit now "user" user.id "workspace_unlocked" (("reason", text "initial_setup") ∷ [])
    pure (user, r.recovery_key, made.0, made.1)

  -- The data key of an unlock, and the row of the user, which an account without a wrapped key
  -- has completed on its first unlock.
  bootstrap : ℕ → Text → ℕ → User → User
  bootstrap now master_password nonce user =
      let dek =
        derive_field_encryption_key c master_password user.password_salt user.password_kdf in
      record user {
        encrypted_dek_by_password = some (
            wrap_dek c nonce dek (derive_kek c master_password user.password_salt user.password_kdf)
              "password_kek_v1");
        dek_version = some "legacy_password_derived";
        dek_wrapping_metadata = some "{\"scheme\":\"password_only_bootstrap\"}";
        dek_created_at = first_some user.dek_created_at (some now);
      }

  open_dek : ℕ → Text → ℕ → User → Option WrappedDek → Service (ℕ × User)
  unfolding bootstrap
  open_dek now master_password nonce user (some wrapped) = do
    dek ← query (λ w.
        unwrap_dek c wrapped (derive_kek c master_password user.password_salt user.password_kdf))
    pure (dek, user)
  open_dek now master_password nonce user none = do
    modify (set_user user.id (bootstrap now master_password nonce))
    pure (
      derive_field_encryption_key c master_password user.password_salt user.password_kdf,
      bootstrap now master_password nonce user,
    )

  abbrev pub unlocked_at : ℕ → User → User
  unlocked_at now u = record u { last_unlocked_at = some now }

  unlock_user : ℕ → Text → Request → Entropy → User → Service (User × ℕ × ℕ)
  unfolding open_dek open_key open_capability
  unlock_user now master_password request r found = do
    modify (set_user found.id (unlocked_at now))
    made ← create_session c s now found.id request r.token
    opened ←
        open_dek now master_password r.password_nonce (unlocked_at now found)
          found.encrypted_dek_by_password
    open_key now opened.1 made.0 opened.0 made.1
    open_capability now opened.1 made.0
    write_audit now "user" found.id "workspace_unlocked" (("reason", text "manual_unlock") ∷ [])
    pure (opened.1, made.0, made.1)

  wrong_password : ℕ → User → Service (User × ℕ × ℕ)
  wrong_password now user = do
    write_audit now "user" user.id "unlock_failed" (("reason", text "invalid_master_password") ∷ [])
    raise (permission_error "Invalid master password")

  unfoldable pub verify_unlock : ℕ → Text → Request → Entropy → Service (User × ℕ × ℕ)
  unfolding unlock_user wrong_password
  verify_unlock now master_password request r = do
    active ← gets active_user
    user ← or_raise active (value_error "Local user is not configured")
    if hash_secret_for_kdf c master_password user.password_salt user.password_kdf
          == user.password_hash
        then unlock_user now master_password request r user
        else wrong_password now user

  -- The new password, the key wrapped by it, and the next epoch.
  abbrev pub reset_row : ℕ → Text → ℕ → Entropy → User → User
  reset_row now new_master_password dek r u =
      let hashed = hash_secret c new_master_password r.password_salt in
      record u {
        password_salt = r.password_salt;
        password_kdf = hashed.0;
        password_hash = hashed.1;
        encrypted_dek_by_password = some (
            wrap_dek c r.password_nonce dek
              (derive_kek c new_master_password r.password_salt hashed.0) "password_kek_v1");
        dek_rotated_at = some now;
        last_unlocked_at = some now;
        unlock_epoch = (if u.unlock_epoch == 0 then 1 else u.unlock_epoch) + 1;
      }

  abbrev pub open_session_of : ℕ → AuthSession → Bool
  open_session_of user_id a = a.user_id == user_id && not (is_some a.revoked_at)

  abbrev pub close_at : ℕ → AuthSession → AuthSession
  close_at now a = record a { revoked_at = some now }

  -- What the reset does once the recovery key has been checked and the data key opened.
  unfoldable pub reset_account : ℕ → Text → Request → Entropy → User → ℕ → Service (User × ℕ × ℕ)
  unfolding open_key open_capability
  reset_account now new_master_password request r user dek = do
    modify (set_user user.id (reset_row now new_master_password dek r))
    modify (set_sessions (update_where (open_session_of user.id) (close_at now)))
    revoke_capabilities_for_user now user.id (some now)
    modify (set_cache (clear_user_keys user.id))
    made ← create_session c s now user.id request r.token
    open_capability now (reset_row now new_master_password dek r user) made.0
    open_key now (reset_row now new_master_password dek r user) made.0 dek made.1
    write_audit now "user" user.id "recovery_reset_completed" []
    write_audit now "user" user.id "workspace_unlocked" (("reason", text "recovery_reset") ∷ [])
    pure (reset_row now new_master_password dek r user, made.0, made.1)

  unfoldable pub recovery_reset_password :
      ℕ → Text → Text → Request → Entropy → Service (User × ℕ × ℕ)
  unfolding reject_password reset_account
  recovery_reset_password now recovery_key new_master_password request r = do
    reject_password (validate_master_password new_master_password)
    active ← gets active_user
    user ← or_raise active (value_error "Local user is not configured")
    let checked = verify_hash_any_kdf c recovery_key user.recovery_key_salt user.recovery_key_hash
    raise_if (not checked.0) (permission_error "Invalid recovery key")
    wrapped ←
        or_raise user.encrypted_dek_by_recovery
          (value_error "Recovery reset unavailable for this account")
    dek ←
        query
          (λ w. unwrap_dek c wrapped (derive_kek c recovery_key user.recovery_key_salt checked.1))
    reset_account now new_master_password request r user dek
