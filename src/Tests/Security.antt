-- ===== src/Tests/Security.antt =====
-- The properties of app/services/security at concrete caches, rows and settings.
use tax_return_ai.Tests.{
  test_settings, ann, session_of, test_cache, test_world, test_world-IsUnique,
}
use tax_return_ai.Base.{ℕ, ◌≡◌, ◌≤◌, ◌↔◌, arith, true, ok, by_key}
use tax_return_ai.Security.KeyCache.{get_session_key_by_hash}
use tax_return_ai.Security.KeyCache.View.{live, key_of}
use tax_return_ai.Security.KeyCache.Laws.{get_session_key_by_hash-live}
use tax_return_ai.Security.Capability.{token_hash, validate_unlock_capability}
use tax_return_ai.Security.Capability.Laws.{Unlocks, validate_unlock_capability-ok_true}

get_session_key_by_hash-live_example :
    ((get_session_key_by_hash 4 60 test_cache).0 ≡ key_of (live 60 test_cache 4))
    × ((t j : ℕ)
        → 60 ≤ t
        → live t (get_session_key_by_hash 4 60 test_cache).1 j ≡ live t test_cache j)
get_session_key_by_hash-live_example = get_session_key_by_hash-live 4 60 test_cache (omega arith)

validate_unlock_capability-ok_true_example :
    ((validate_unlock_capability test_settings 200 ann (session_of 2 7) 8 true test_world).0
      ≡ ok true)
    ↔ Unlocks 200 ann (session_of 2 7) (by_key token_hash 8 test_world.db.capabilities)
validate_unlock_capability-ok_true_example =
    validate_unlock_capability-ok_true test_settings 200 ann (session_of 2 7) 8 true test_world
      test_world-IsUnique

-- Every number is decoded as the one text in use.
