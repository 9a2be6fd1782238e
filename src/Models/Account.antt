-- ===== src/Models/Account.antt =====
-- app/models/user.py, auth_session.py, unlock_capability.py and tax_workspace.py.
use tax_return_ai.Base.{ℕ, String, Bool, Option}

-- `password_kdf`: the two names that `hash_secret` returns.
pub data Kdf : Type 0 where
  argon2id pbkdf2_sha256_600k : Kdf

-- A wrapped data key as `_wrap_dek` writes it, or any other text in its column.
pub record WrapPayload : Type 0 where
  pub version : String
  pub alg : String
  pub nonce : ℕ
  pub ciphertext : ℕ
  pub key_version : String

pub data WrappedDek : Type 0 where
  wrap : WrapPayload → WrappedDek
  other_text : WrappedDek

pub record User : Type 0 where
  pub id : ℕ
  pub email : Option String
  pub display_name : Option String
  pub password_kdf : Kdf
  pub password_salt : ℕ
  pub password_hash : ℕ
  pub recovery_key_salt : ℕ
  pub recovery_key_hash : ℕ
  pub encrypted_dek_by_password : Option WrappedDek
  pub encrypted_dek_by_recovery : Option WrappedDek
  pub dek_version : Option String
  pub dek_wrapping_metadata : Option String
  pub dek_created_at : Option ℕ
  pub dek_rotated_at : Option ℕ
  pub unlock_epoch : ℕ
  pub last_unlocked_at : Option ℕ
  pub is_active : Bool

pub record AuthSession : Type 0 where
  pub id : ℕ
  pub user_id : ℕ
  pub session_token_hash : ℕ
  pub created_at : ℕ
  pub expires_at : ℕ
  pub revoked_at : Option ℕ
  pub last_seen_at : ℕ
  pub user_agent : Option String
  pub ip_hash : Option ℕ
  pub key_epoch : ℕ

pub record UnlockCapability : Type 0 where
  pub id : ℕ
  pub user_id : ℕ
  pub auth_session_id : ℕ
  pub session_token_hash : ℕ
  pub key_epoch : ℕ
  pub expires_at : ℕ
  pub last_seen_at : ℕ
  pub revoked_at : Option ℕ

pub record TaxWorkspace : Type 0 where
  pub id : ℕ
  pub user_id : ℕ
  pub tax_year : String
  pub label : String
  pub status : String
  pub created_at : ℕ
  pub last_opened_at : Option ℕ
