-- ===== src/Auth/Routes.antt =====
-- app/routers/auth.py: the routes, each a transaction on the session's database. The memory of the
-- process keeps what the services wrote to it when the database is rolled back.
pub mod Laws
use tax_return_ai.Base.{
  ℕ, ◌==◌, Bool, not, String, Option, none, some, ltb, is_some, count, if◌then◌else◌, Exn,
  value_error, permission_error, http, ok, err, ◌>>=◌, ◌>>◌, modify, pure, gets, ◌&&◌,
}
use tax_return_ai.Config.{Settings}
use tax_return_ai.Models.Account.{User, AuthSession, UnlockCapability}
use tax_return_ai.Models.World.{Metrics, Service, commit, rollback}
use tax_return_ai.Text.{Text}
use tax_return_ai.Auth.Crypto.{Crypto}
use tax_return_ai.Auth.Sessions.{
  Request, active_user, resolve_session, revoke_session, lock_session, is_unlock_capability_active,
}
use tax_return_ai.Auth.Account.{Entropy, setup_user, verify_unlock, recovery_reset_password}
use tax_return_ai.Auth.Guards.{get_current_user}

-- The status codes that a route gives to `ValueError` and `PermissionError`. Any other exception
-- leaves the route, and what was not committed is dropped with the session.
pub record Codes : Type 0 where
  pub on_value : ℕ
  pub on_permission : Option ℕ

with_code : Option ℕ → String → Exn → Exn
with_code none message e = e
with_code (some code) message e = http code message

failed : Codes → Exn → Exn
unfolding with_code
failed k (value_error message) = http k.on_value message
failed k (permission_error message) = with_code k.on_permission message (permission_error message)
failed k e = e

-- `try: …; await db.commit()` with `except …: await db.rollback(); raise HTTPException(…)`
unfoldable pub transaction : {A : Type 0} → Codes → Service A → Service A
unfolding failed
transaction k body w =
    let (r, w') = body w in
    elim r [ ok a ↦ (ok a, commit w') | err e ↦ (err (failed k e), rollback w') ]

pub data AppState : Type 0 where
  locked unlocked session_expired : AppState

module _ (c : Crypto) (s : Settings) where
  unfoldable pub setup_status : Service Bool
  setup_status = gets (λ w. is_some (active_user w))

  unfoldable pub setup_auth :
      ℕ → Text → Option String → Option String → Request → Entropy → Service (User × Text × ℕ × ℕ)
  setup_auth now password name email request r =
      transaction (record { on_value = 409; on_permission = none })
        (setup_user c s now password name email request r)

  unfoldable pub unlock_auth : ℕ → Text → Request → Entropy → Service (User × ℕ × ℕ)
  unlock_auth now password request r =
      transaction (record { on_value = 400; on_permission = some 401 })
        (verify_unlock c s now password request r)

  unfoldable pub recover_reset_auth : ℕ → Text → Text → Request → Entropy → Service (User × ℕ × ℕ)
  recover_reset_auth now recovery_key password request r =
      transaction (record { on_value = 400; on_permission = some 401 })
        (recovery_reset_password c s now recovery_key password request r)

  unfoldable pub logout_auth : ℕ → ℕ → Service (Unit {0})
  logout_auth now token = do revoke_session c s now token; modify commit

  session_state : ℕ → ℕ → Option User → Option AuthSession → Service AppState
  session_state now token none session = pure (if token == 0 then locked else session_expired)
  session_state now token (some user) none = pure (if token == 0 then locked else locked)
  session_state now token (some user) (some session) = do
    active ← is_unlock_capability_active c s now user session token
    pure (if token == 0 then locked else if active then unlocked else locked)

  -- The state that the session route reports, after the commit of what the lookup found.
  unfoldable pub session_status : ℕ → ℕ → ℕ → Service AppState
  unfolding session_state
  session_status t₁ t₂ token = do
    found ← resolve_session c s t₁ token
    modify commit
    session_state t₂ token found.0 found.1

  unfoldable pub lock_auth : ℕ → ℕ → Service (Unit {0})
  lock_auth now token = do lock_session c s now token; modify commit

  -- The number of capabilities in force, and the counters.
  unfoldable pub capability_health : ℕ → ℕ → ℕ → Service (ℕ × Metrics)
  capability_health t₁ t₂ token = do
    user ← get_current_user c s t₁ token
    n ← gets (λ w.
        count
          (λ (x : UnlockCapability).
            x.user_id == user.id && not (is_some x.revoked_at) && ltb t₂ x.expires_at)
          w.db.capabilities)
    m ← gets (λ w. w.metrics)
    pure (n, m)
