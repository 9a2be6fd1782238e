-- ===== src/Tests.antt =====
-- Concrete data for the tests: a user with two live sessions, both unlocked, and functions in the
-- place of the cryptographic library.
pub mod Auth
pub mod Security
pub mod Jobs
pub mod Recovery
pub mod RateLimit
pub mod Scope
pub mod Review
pub mod Packs
pub mod Documents
pub mod Items
pub mod Classification
pub mod Uploads
pub mod Pages
pub mod Entry
pub mod Providers
use tax_return_ai.Base.{
  ℕ, ◌+◌, ◌≡◌, ◌≢◌, refl, arith, String, Option, none, some, List, [], ◌∷◌, true,
}
use tax_return_ai.Config.{Settings}
use tax_return_ai.Models.Account.{User, AuthSession, UnlockCapability, argon2id}
use tax_return_ai.Models.World.{Db, World}
use tax_return_ai.Security.KeyCache.{KeyCache, Row}
use tax_return_ai.Security.KeyCache.View.{IsDict}
use tax_return_ai.Security.Capability.Laws.{IsUnique}
use tax_return_ai.Auth.Crypto.{Crypto, IsSound}
use tax_return_ai.Auth.Sessions.Resolve.{IsWellFormed}

abbrev pub test_crypto : Crypto
test_crypto = record {
  sha256_hex = λ n. n + 1;
  head36 = λ n. n;
  argon2 = λ secret salt. some (salt + 5);
  pbkdf2 = λ secret salt. salt + 6;
  wrap_digest = λ n. n + 1;
  field_digest = λ n. n + 2;
  encrypt = λ k n p. p;
  decrypt = λ k n p. some p;
}

pub test_crypto-IsSound : IsSound test_crypto
test_crypto-IsSound = record {
  sha256_inj = λ a b e. omega (arith, e);
  sha256_ne_empty = λ a. omega arith;
  decrypt-encrypt = λ k n p. refl;
}

abbrev pub test_settings : Settings
test_settings = record {
  ai_provider = "mock";
  max_upload_size_mb = 20;
  session_idle_timeout_minutes = 30;
  session_absolute_timeout_hours = 12;
  session_idle_timeout_seconds = some 600;
  session_absolute_timeout_seconds = some 3600;
}

abbrev pub ann : User
ann = record {
  id = 1;
  email = none;
  display_name = none;
  password_kdf = argon2id;
  password_salt = 11;
  password_hash = 16;
  recovery_key_salt = 12;
  recovery_key_hash = 17;
  encrypted_dek_by_password = none;
  encrypted_dek_by_recovery = none;
  dek_version = none;
  dek_wrapping_metadata = none;
  dek_created_at = none;
  dek_rotated_at = none;
  unlock_epoch = 3;
  last_unlocked_at = none;
  is_active = true;
}

-- The sessions of the tokens 7 and 5, opened at the time 100.
abbrev pub session_of : ℕ → ℕ → AuthSession
session_of id token = record {
  id = id;
  user_id = 1;
  session_token_hash = token + 1;
  created_at = 100;
  expires_at = 3600000100;
  revoked_at = none;
  last_seen_at = 100;
  user_agent = none;
  ip_hash = none;
  key_epoch = 3;
}

abbrev pub capability_of : ℕ → ℕ → ℕ → UnlockCapability
capability_of id session_id token = record {
  id = id;
  user_id = 1;
  auth_session_id = session_id;
  session_token_hash = token + 1;
  key_epoch = 3;
  expires_at = 600000100;
  last_seen_at = 100;
  revoked_at = none;
}

abbrev pub test_cache : KeyCache
test_cache =
    (8, record { user_id = 1; key = 77; expires_at = 600000100 })
    ∷ (6, record { user_id = 1; key = 78; expires_at = 600000100 })
    ∷ (4, record { user_id = 2; key = 79; expires_at = 50 })
    ∷ []

pub test_cache-IsDict : IsDict test_cache
test_cache-IsDict = ground arith

abbrev pub test_db : Db
test_db = record {
  users = ann ∷ [];
  auth_sessions = session_of 2 7 ∷ session_of 3 5 ∷ [];
  capabilities = capability_of 4 2 7 ∷ capability_of 5 3 5 ∷ [];
  workspaces = [];
  tax_sessions = [];
  documents = [];
  pages = [];
  items = [];
  links = [];
  classifications = [];
  exports = [];
  review_actions = [];
  jobs = [];
  audit = [];
}

abbrev pub test_world : World
test_world = record {
  db = test_db;
  committed = test_db;
  key_cache = test_cache;
  metrics = record { locked_or_missing = 0; stale_epoch = 0; revoked = 0; expired = 0 };
  files = [];
  next_id = 1000;
}

pub test_world-IsWellFormed : IsWellFormed test_world
test_world-IsWellFormed = record {
  users_distinct = ground arith;
  sessions_distinct = ground arith;
  capabilities_distinct = ground arith;
}

pub test_world-IsUnique : IsUnique test_world
test_world-IsUnique = ground arith
