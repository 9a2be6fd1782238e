-- ===== src/Tests/Recovery.antt =====
-- A reset with the recovery key, with two sessions open.
use tax_return_ai.Tests.{test_crypto, test_settings, ann, session_of, test_world}
use tax_return_ai.Base.{◌+◌, ◌≡◌, refl, arith, none, some, [], ◌∷◌, ok}
use tax_return_ai.Config.{timedelta, effective_session_absolute_timeout_seconds}
use tax_return_ai.Models.Account.{User, wrap}
use tax_return_ai.Models.World.{World}
use tax_return_ai.Text.{codes}
use tax_return_ai.Audit.{write_audit}
use tax_return_ai.Security.Capability.{issue_unlock_capability, revoke_capabilities_for_user}
use tax_return_ai.Auth.Password.{validate_master_password}
use tax_return_ai.Auth.Crypto.{verify_hash_any_kdf, hash_secret_for_kdf, unwrap_dek, derive_kek}
use tax_return_ai.Auth.Sessions.{Request, create_session, get_session_by_hash, resolve_session}
use tax_return_ai.Auth.Sessions.Resolve.{IsWellFormed, user_of}
use tax_return_ai.Auth.Account.{
  Entropy, reset_row, reset_account, open_key, open_capability, issue_for, recovery_reset_password,
}
use tax_return_ai.Auth.Account.Recovery.{recovery_reset_password-resolve}

abbrev owner : User
owner = record ann {
  encrypted_dek_by_recovery = some (
      wrap (record {
        version = "dek_wrapped_v1";
        alg = "AES-256-GCM";
        nonce = 1;
        ciphertext = 22;
        key_version = "recovery_kek_v1";
      }));
}

abbrev owned_world : World
owned_world = record test_world { db = record (test_world.db) { users = owner ∷ [] } }

owned_world-IsWellFormed : IsWellFormed owned_world
owned_world-IsWellFormed = record {
  users_distinct = ground arith;
  sessions_distinct = ground arith;
  capabilities_distinct = ground arith;
}

abbrev drawn : Entropy
drawn = record {
  token = 99;
  password_salt = 13;
  recovery_salt = 14;
  recovery_key = codes "ABCDEF";
  dek = 70;
  password_nonce = 71;
  recovery_nonce = 72;
}

abbrev from_home : Request
from_home = record { client_ip = 0; user_agent = none }

reset_done :
    (recovery_reset_password test_crypto test_settings 500
      (codes "ABCDEF")
      (codes "Tax-return2026")
      from_home
      drawn
      owned_world).0
    ≡ ok (
      reset_row test_crypto test_settings 500 (codes "Tax-return2026") 22 drawn owner,
      99,
      500 + timedelta 3600,
    )
unfolding recovery_reset_password reset_account open_key open_capability issue_for
    issue_unlock_capability create_session get_session_by_hash write_audit
    revoke_capabilities_for_user validate_master_password verify_hash_any_kdf hash_secret_for_kdf
    unwrap_dek derive_kek effective_session_absolute_timeout_seconds
reset_done = refl

recovery_reset_password-resolve_example :
    user_of
      (resolve_session test_crypto test_settings 600 7
        (recovery_reset_password test_crypto test_settings 500
          (codes "ABCDEF")
          (codes "Tax-return2026")
          from_home
          drawn
          owned_world).1).0
    ≡ none
recovery_reset_password-resolve_example =
    recovery_reset_password-resolve test_crypto test_settings 500 600 7 (codes "ABCDEF")
      (codes "Tax-return2026") from_home drawn (session_of 2 7) owner
      (
        reset_row test_crypto test_settings 500 (codes "Tax-return2026") 22 drawn owner,
        99,
        500 + timedelta 3600,
      )
      owned_world owned_world-IsWellFormed refl refl refl refl reset_done
