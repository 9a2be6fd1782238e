-- ===== src/Auth/Account/Closed.antt =====
-- A revoked session stays revoked through the calls that open another one
-- (app/services/auth/service.py).
use tax_return_ai.Models.Leads.{Leads, bind-Keeps}
use tax_return_ai.Base.{
  ℕ, ◌≡◌, refl, sym, subst, true, Option, none, some, is_some, pure, arith, DistinctBy, by_key,
  scalar-select, String,
}
use tax_return_ai.Config.{Settings}
use tax_return_ai.Models.Account.{User, AuthSession}
use tax_return_ai.Models.Audit.{Details}
use tax_return_ai.Models.World.{World}
use tax_return_ai.Audit.{write_audit}
use tax_return_ai.Security.Capability.{token_hash, issue_unlock_capability}
use tax_return_ai.Security.Capability.Laws.{issue_unlock_capability-IsUnique}
use tax_return_ai.Auth.Crypto.{Crypto}
use tax_return_ai.Auth.Sessions.{user_key, session_hash, get_session_by_hash, resolve_session}
use tax_return_ai.Auth.Sessions.Resolve.{IsWellFormed, user_of, resolve_session-user}
use tax_return_ai.Auth.Account.{open_key, open_capability, issue_for}

-- The row of the hash is revoked.
pub record IsClosed (h : ℕ) (w : World) : Type 0 where
  pub well_formed : IsWellFormed w
  pub row : AuthSession
  pub is_row : by_key session_hash h w.db.auth_sessions ≡ some row
  pub is_revoked : is_some row.revoked_at ≡ true

module _ (c : Crypto) (s : Settings) (h : ℕ) where
  pub IsClosed-resolve :
      (t token : ℕ) (w : World)
      → c.sha256_hex token ≡ h
      → IsClosed h w
      → user_of (resolve_session c s t token w).0 ≡ none
  IsClosed-resolve t token w e i =
      ground (arith, resolve_session-user c s t token w i.well_formed, e, i.is_row, i.is_revoked)

  pub write_audit-IsClosed :
      (now entity_id : ℕ) (entity_type action : String) (details : Details)
      → Leads (IsClosed h) (IsClosed h) (write_audit now entity_type entity_id action details)
  unfolding write_audit
  write_audit-IsClosed now entity_id entity_type action details w i = record {
    well_formed = record {
      users_distinct = i.well_formed.users_distinct;
      sessions_distinct = i.well_formed.sessions_distinct;
      capabilities_distinct = i.well_formed.capabilities_distinct;
    };
    row = i.row;
    is_row = i.is_row;
    is_revoked = i.is_revoked;
  }

  -- What the table of users and of sessions keeps is kept.
  IsClosed-same :
      (v w : World)
      → v.db.users ≡ w.db.users
      → v.db.auth_sessions ≡ w.db.auth_sessions
      → DistinctBy token_hash v.db.capabilities
      → IsClosed h w
      → IsClosed h v
  IsClosed-same v w eu ea d i = record {
    well_formed = record {
      users_distinct = subst (DistinctBy user_key) (sym eu) i.well_formed.users_distinct;
      sessions_distinct = subst (DistinctBy session_hash) (sym ea) i.well_formed.sessions_distinct;
      capabilities_distinct = d;
    };
    row = i.row;
    is_row = subst (λ rows. by_key session_hash h rows ≡ some i.row) (sym ea) i.is_row;
    is_revoked = i.is_revoked;
  }

  issue-IsClosed :
      (now : ℕ) (user : User) (a : AuthSession) (n : ℕ)
      → Leads (IsClosed h) (IsClosed h) (issue_unlock_capability s now user a n)
  unfolding issue_unlock_capability
  issue-IsClosed now user a n w i =
      IsClosed-same (issue_unlock_capability s now user a n w).1 w
        (ground
          (arith, scalar-select token_hash n w.db.capabilities i.well_formed.capabilities_distinct))
        (ground
          (arith, scalar-select token_hash n w.db.capabilities i.well_formed.capabilities_distinct))
        (issue_unlock_capability-IsUnique s now user a n w i.well_formed.capabilities_distinct) i

  issue_for-IsClosed :
      (now : ℕ) (user : User) (n : ℕ) (o : Option AuthSession)
      → Leads (IsClosed h) (IsClosed h) (issue_for c s now user n o)
  unfolding issue_for
  issue_for-IsClosed now user n none w i = i
  issue_for-IsClosed now user n (some a) w i =
      bind-Keeps (IsClosed h) (issue_unlock_capability s now user a n) (λ x. pure tt)
        (issue-IsClosed now user a n) (λ x v j. j) w i

  pub open_capability-IsClosed :
      (now : ℕ) (user : User) (token : ℕ)
      → Leads (IsClosed h) (IsClosed h) (open_capability c s now user token)
  unfolding open_capability get_session_by_hash
  open_capability-IsClosed now user token =
      bind-Keeps (IsClosed h) (get_session_by_hash (c.sha256_hex token))
        (issue_for c s now user (c.sha256_hex token)) (λ w i. i)
        (issue_for-IsClosed now user (c.sha256_hex token))

  pub open_key-IsClosed :
      (now : ℕ) (user : User) (token dek expires_at : ℕ)
      → Leads (IsClosed h) (IsClosed h) (open_key c s now user token dek expires_at)
  unfolding open_key
  open_key-IsClosed now user token dek expires_at w i =
      IsClosed-same (open_key c s now user token dek expires_at w).1 w refl refl
        i.well_formed.capabilities_distinct i
