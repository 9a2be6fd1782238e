-- ===== src/Auth/Sessions/Live.antt =====
-- Who `resolve_session` of app/services/auth/service.py answers with, in terms of the rows and the
-- three deadlines of a session.
use tax_return_ai.Base.{
  ℕ, ◌+◌, ◌*◌, ◌<◌, ◌≡◌, ◌≢◌, ◌↔◌, inl, inr, true, none, some, List, ◌==◌, arith, by_key,
  Option-cases, Bool-cases,
}
use tax_return_ai.Config.{
  Settings, effective_session_idle_timeout_seconds, effective_session_absolute_timeout_seconds,
}
use tax_return_ai.Models.Account.{User, AuthSession}
use tax_return_ai.Models.World.{World}
use tax_return_ai.Auth.Crypto.{Crypto}
use tax_return_ai.Auth.Sessions.{user_key, session_hash, has_expired, idle_expired, resolve_session}
use tax_return_ai.Auth.Sessions.Resolve.{IsWellFormed, user_of, live_user, resolve_session-user}

-- The session row is not revoked, none of its three deadlines has come, in microseconds, and its
-- user is active and in the epoch in which the session began.
pub record IsLiveRow (s : Settings) (now : ℕ) (users : List User) (a : AuthSession) (u : User)
    : Type 0 where
  pub not_revoked : a.revoked_at ≡ none
  pub not_over : now < a.expires_at
  pub not_idle : now < a.last_seen_at + effective_session_idle_timeout_seconds s * 1000000
  pub not_old : now < a.created_at + effective_session_absolute_timeout_seconds s * 1000000
  pub has_user : by_key user_key a.user_id users ≡ some u
  pub is_active : u.is_active ≡ true
  pub same_epoch : u.unlock_epoch ≡ a.key_epoch

pub record IsLive (c : Crypto) (s : Settings) (now token : ℕ) (w : World) (u : User) : Type 0 where
  pub has_token : token ≢ 0
  pub session : AuthSession
  pub has_row : by_key session_hash (c.sha256_hex token) w.db.auth_sessions ≡ some session
  pub is_live : IsLiveRow s now w.db.users session u

module _ (c : Crypto) (s : Settings) where
  live_user-IsLiveRow :
      (now : ℕ) (users : List User) (a : AuthSession) (u : User)
      → live_user c s now users (some a) ≡ some u
      → IsLiveRow s now users a u
  unfolding has_expired idle_expired
  live_user-IsLiveRow now users a u e = record {
    not_revoked = ground (arith, e);
    not_over = ground (arith, e);
    not_idle = ground (arith, e);
    not_old = ground (arith, e);
    has_user = ground (arith, e);
    is_active = ground (arith, e);
    same_epoch = ground (arith, e);
  }

  IsLiveRow-live_user :
      (now : ℕ) (users : List User) (a : AuthSession) (u : User)
      → IsLiveRow s now users a u
      → live_user c s now users (some a) ≡ some u
  unfolding has_expired idle_expired
  IsLiveRow-live_user now users a u l = ground (
    arith, l.not_revoked, l.not_over, l.not_idle, l.not_old, l.has_user, l.is_active, l.same_epoch,
  )

  -- In a world whose users, sessions and capabilities have unique keys, a token resolves to a
  -- user exactly when it is not empty, its hash has a session row that is not revoked, none of
  -- the three deadlines of the row has come (its own expiry, the idle timeout after it was last
  -- seen, the absolute timeout after it was created), and the user of the row is active and in
  -- the epoch in which the session began.
  pub resolve_session-IsLive :
      (now token : ℕ) (w : World) (u : User)
      → IsWellFormed w
      → (user_of (resolve_session c s now token w).0 ≡ some u) ↔ IsLive c s now token w u
  resolve_session-IsLive now token w u wf =
      let rows = w.db.auth_sessions in
      let resolved = resolve_session-user c s now token w wf in
      (
        λ e. elim (Bool-cases (token == 0)) [
          | inl z ↦ absurd (ground (arith, e, z, resolved))
          | inr n ↦ elim (Option-cases (by_key session_hash (c.sha256_hex token) rows)) [
            | inl f ↦ absurd (ground (arith, e, n, f, resolved))
            | inr (a, f) ↦ record {
              has_token = ground (arith, n);
              session = a;
              has_row = f;
              is_live = live_user-IsLiveRow now w.db.users a u (ground (arith, e, n, f, resolved));
            }
          ]
        ],
        λ l.
            let live = IsLiveRow-live_user now w.db.users l.session u l.is_live in
            ground (arith, l.has_token, l.has_row, live, resolved),
      )
