-- ===== src/Tests/Auth.antt =====
-- The properties of app/services/auth and app/db/auth_deps.py in a world with two open sessions.
use tax_return_ai.Tests.{
  test_crypto, test_settings, ann, session_of, test_world, test_world-IsWellFormed,
}
use tax_return_ai.Base.{◌≡◌, ◌≢◌, refl, arith, false, none, some, ok, ◌==◌, ◌↔◌}
use tax_return_ai.Base.{[], ◌∷◌, err, http}
use tax_return_ai.Models.World.{World}
use tax_return_ai.Models.Account.{User}
use tax_return_ai.Auth.Sessions.{Request}
use tax_return_ai.Auth.Account.{Entropy}
use tax_return_ai.Auth.Routes.{unlock_auth}
use tax_return_ai.Auth.Routes.Laws.{unlock_auth-refused}
use tax_return_ai.Config.{
  effective_session_idle_timeout_seconds, effective_session_absolute_timeout_seconds,
}
use tax_return_ai.Text.{codes}
use tax_return_ai.Auth.Crypto.{hash_secret_for_kdf}
use tax_return_ai.Auth.Sessions.{has_expired, idle_expired, resolve_session, lock_session}
use tax_return_ai.Auth.Sessions.Resolve.{user_of, resolve_session-user}
use tax_return_ai.Auth.Sessions.Expiry.{resolve_session-expired, resolve_session-slides}
use tax_return_ai.Auth.Sessions.Closing.{lock_session-guard}
use tax_return_ai.Auth.Guards.{get_current_unlocked_user}
use tax_return_ai.Auth.Sessions.Live.{IsLive, resolve_session-IsLive}
use tax_return_ai.Auth.Guards.Laws.{
  IsAdmitted, get_current_unlocked_user_complete, get_current_unlocked_user_sound,
}

ann-IsAdmitted : IsAdmitted test_crypto test_settings 200 300 400 7 test_world ann
unfolding has_expired idle_expired effective_session_idle_timeout_seconds
    effective_session_absolute_timeout_seconds
ann-IsAdmitted = record {
  session = session_of 2 7;
  has_token = omega arith;
  found = refl;
  is_live = refl;
  unlocked = record {
    same_user = refl;
    same_session = refl;
    not_revoked = refl;
    not_expired = omega arith;
    user_epoch = refl;
    session_epoch = refl;
  };
  has_key = refl;
}

ann-IsAdmitted_phone : IsAdmitted test_crypto test_settings 200 300 400 5 test_world ann
unfolding has_expired idle_expired effective_session_idle_timeout_seconds
    effective_session_absolute_timeout_seconds
ann-IsAdmitted_phone = record {
  session = session_of 3 5;
  has_token = omega arith;
  found = refl;
  is_live = refl;
  unlocked = record {
    same_user = refl;
    same_session = refl;
    not_revoked = refl;
    not_expired = omega arith;
    user_epoch = refl;
    session_epoch = refl;
  };
  has_key = refl;
}

resolve_session-expired_example :
    (user_of (resolve_session test_crypto test_settings 700000000 7 test_world).0 ≡ none)
    × (user_of
          (resolve_session test_crypto test_settings 200 7
            (resolve_session test_crypto test_settings 700000000 7 test_world).1).0
        ≡ none)
unfolding has_expired idle_expired effective_session_idle_timeout_seconds
    effective_session_absolute_timeout_seconds
resolve_session-expired_example =
    resolve_session-expired test_crypto test_settings 700000000 200 7 (session_of 2 7) test_world
      test_world-IsWellFormed (omega arith) refl refl

ann_resolved : user_of (resolve_session test_crypto test_settings 200 7 test_world).0 ≡ some ann
unfolding has_expired idle_expired effective_session_idle_timeout_seconds
    effective_session_absolute_timeout_seconds
ann_resolved =
    resolve_session-user test_crypto test_settings 200 7 test_world test_world-IsWellFormed

resolve_session-slides_example :
    user_of
      (resolve_session test_crypto test_settings 600000150 7
        (resolve_session test_crypto test_settings 200 7 test_world).1).0
    ≡ some ann
unfolding effective_session_idle_timeout_seconds effective_session_absolute_timeout_seconds
resolve_session-slides_example =
    resolve_session-slides test_crypto test_settings 200 600000150 7 (session_of 2 7) ann test_world
      test_world-IsWellFormed (omega arith) refl ann_resolved (omega arith) (omega arith)
      (omega arith)

lock_session-guard_example :
    (user_of
        (resolve_session test_crypto test_settings 300 7
          (lock_session test_crypto test_settings 200 7 test_world).1).0
      ≡ user_of (resolve_session test_crypto test_settings 300 7 test_world).0)
    × ((get_current_unlocked_user test_crypto test_settings 400 401 402 7
          (lock_session test_crypto test_settings 200 7 test_world).1).0
        ≢ ok ann)
lock_session-guard_example =
    lock_session-guard test_crypto test_settings 200 300 400 401 402 7 (session_of 2 7) ann
      test_world test_world-IsWellFormed (omega arith) refl

get_current_unlocked_user_complete_example :
    (get_current_unlocked_user test_crypto test_settings 200 300 400 7 test_world).0 ≡ ok ann
get_current_unlocked_user_complete_example =
    get_current_unlocked_user_complete test_crypto test_settings 200 300 400 7 ann test_world
      test_world-IsWellFormed ann-IsAdmitted

ann_admitted :
    (get_current_unlocked_user test_crypto test_settings 200 300 400 5 test_world).0 ≡ ok ann
ann_admitted =
    get_current_unlocked_user_complete test_crypto test_settings 200 300 400 5 ann test_world
      test_world-IsWellFormed ann-IsAdmitted_phone

get_current_unlocked_user_sound_example :
    IsAdmitted test_crypto test_settings 200 300 400 5 test_world ann
get_current_unlocked_user_sound_example =
    get_current_unlocked_user_sound test_crypto test_settings 200 300 400 5 ann test_world
      test_world-IsWellFormed ann_admitted

abbrev entropy : Entropy
entropy = record {
  token = 99;
  password_salt = 13;
  recovery_salt = 14;
  recovery_key = codes "ABCDEF";
  dek = 70;
  password_nonce = 71;
  recovery_nonce = 72;
}

abbrev request : Request
request = record { client_ip = 0; user_agent = none }

abbrev ann_with_other_hash : User
ann_with_other_hash = record ann { password_hash = 99 }

abbrev other_world : World
other_world = record test_world { db = record (test_world.db) { users = ann_with_other_hash ∷ [] } }

wrong_hash :
    (hash_secret_for_kdf test_crypto
        (codes "wrong")
        ann_with_other_hash.password_salt
        ann_with_other_hash.password_kdf
      == ann_with_other_hash.password_hash)
    ≡ false
unfolding hash_secret_for_kdf
wrong_hash = refl

unlock_auth-refused_example :
    let (answer, w') =
      unlock_auth test_crypto test_settings 500 (codes "wrong") request entropy other_world in
    (answer ≡ err (http 401 "Invalid master password"))
    × (w'.db ≡ other_world.committed)
    × (w'.committed ≡ other_world.committed)
    × (w'.key_cache ≡ other_world.key_cache)
unlock_auth-refused_example =
    unlock_auth-refused test_crypto test_settings 500 (codes "wrong") request entropy
      ann_with_other_hash other_world refl wrong_hash

resolve_session-IsLive_example :
    (user_of (resolve_session test_crypto test_settings 200 7 test_world).0 ≡ some ann)
    ↔ IsLive test_crypto test_settings 200 7 test_world ann
resolve_session-IsLive_example =
    resolve_session-IsLive test_crypto test_settings 200 7 test_world ann test_world-IsWellFormed
