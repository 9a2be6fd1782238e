-- ===== src/Auth/Sessions/Resolve.antt =====
-- `resolve_session` of app/services/auth/service.py against a description of the live sessions.
use tax_return_ai.Base.{
  ℕ, ◌≡◌, inl, inr, refl, true, false, ◌&&◌, ◌||◌, not, Option, none, some, List, [], ◌∷◌, ◌==◌,
  is_some, if◌then◌else◌, update_where, ok, err, arith, DistinctBy, by_key, scalar-select,
  scalar-select_and, keep_if, by_key-update_key, >>=-ok, ◌>>=◌, ◌>>◌, pure, Bool-cases, Result,
  ==_iff,
}
use tax_return_ai.Config.{Settings}
use tax_return_ai.Models.Account.{User, AuthSession}
use tax_return_ai.Models.Audit.{text}
use tax_return_ai.Models.World.{World}
use tax_return_ai.Audit.{write_audit}
use tax_return_ai.Security.KeyCache.{clear_session_key, clear_session_key_by_hash}
use tax_return_ai.Security.Capability.{
  token_hash, set_capabilities, has_hash, revoke_at, revoke_capability_for_session,
}
use tax_return_ai.Security.Capability.Revocation.{revoke_capability_for_session_lem}
use tax_return_ai.Auth.Crypto.{Crypto}
use tax_return_ai.Auth.Sessions.{
  user_key, session_hash, set_cache, set_sessions, has_token_hash, has_expired, revoked_row,
  seen_row, check_session, reject_session, check_user, reject_stale, mark_expired, forget_key,
  resolve_session,
}

-- The unique columns of the tables: the primary key of the users, the hashes of the tokens.
pub record IsWellFormed (w : World) : Type 0 where
  pub users_distinct : DistinctBy user_key w.db.users
  pub sessions_distinct : DistinctBy session_hash w.db.auth_sessions
  pub capabilities_distinct : DistinctBy token_hash w.db.capabilities

abbrev pub user_of : Result (Option User × Option AuthSession) → Option User
user_of (ok r) = r.0
user_of (err e) = none

module _ (c : Crypto) (s : Settings) where
  -- The user of a session row: the row is not revoked and has not expired, and its user is active
  -- and still in the epoch in which the session began.
  abbrev pub live_user : ℕ → List User → Option AuthSession → Option User
  live_user now users none = none
  live_user now users (some a) =
      if is_some a.revoked_at || has_expired s now a
      then none
      else keep_if (λ u. u.is_active && u.unlock_epoch == a.key_epoch)
          (by_key user_key a.user_id users)

  check_session-user :
      (now token : ℕ) (o : Option AuthSession) (w : World)
      → IsWellFormed w
      → user_of (check_session c s now token o w).0 ≡ live_user now w.db.users o
  unfolding check_session write_audit
  check_session-user now token none w wf = refl
  check_session-user now token (some a) w wf = ground (
    arith,
    scalar-select_and user_key (λ (u : User). u.is_active) a.user_id w.db.users wf.users_distinct,
    revoke_capability_for_session_lem now a.session_token_hash (some now) w
        wf.capabilities_distinct,
  )

  -- What a token resolves to, by its row.
  pub resolve_session-user :
      (now token : ℕ) (w : World)
      → IsWellFormed w
      → user_of (resolve_session c s now token w).0 ≡ (
          if token == 0
          then none
          else live_user now w.db.users
              (by_key session_hash (c.sha256_hex token) w.db.auth_sessions))
  unfolding resolve_session
  resolve_session-user now token w wf = ground (
    arith,
    scalar-select session_hash (c.sha256_hex token) w.db.auth_sessions wf.sessions_distinct,
    check_session-user now token (by_key session_hash (c.sha256_hex token) w.db.auth_sessions) w wf,
  )

  -- What one call of `resolve_session` does to the row of a session.
  abbrev pub noted : ℕ → List User → AuthSession → AuthSession
  noted now users a =
      if is_some a.revoked_at
      then a
      else if has_expired s now a
      then revoked_row now a
      else elim (keep_if (λ u. u.is_active) (by_key user_key a.user_id users)) [
        | none ↦ a
        | some u ↦ if u.unlock_epoch == a.key_epoch then seen_row now a else revoked_row now a
      ]

  noted_same :
      (now : ℕ) (users : List User) (a : AuthSession)
      → (noted now users a).session_token_hash ≡ a.session_token_hash
  noted_same now users a = ground arith

  pub check_session_reject :
      (now token : ℕ) (a : AuthSession) (w : World)
      → (is_some a.revoked_at || has_expired s now a) ≡ true
      → check_session c s now token (some a) w ≡ reject_session c s now token a w
  unfolding check_session
  check_session_reject now token a w e = rw e

  pub check_session_accept :
      (now token : ℕ) (a : AuthSession) (w : World)
      → IsWellFormed w
      → (is_some a.revoked_at || has_expired s now a) ≡ false
      → check_session c s now token (some a) w
        ≡ check_user c s now token a
            (keep_if (λ u. u.is_active) (by_key user_key a.user_id w.db.users))
            w
  unfolding check_session
  check_session_accept now token a w wf e = rw e (
      rw
        (
          scalar-select_and user_key (λ (u : User). u.is_active) a.user_id w.db.users
              wf.users_distinct,
          ◌>>=◌,
        )
        refl)

  -- The world once the key of a session has been forgotten and its capability revoked.
  abbrev pub shut : ℕ → ℕ → ℕ → World → World
  shut now token h w = set_capabilities (update_where (has_hash h) (revoke_at now)) (
      set_cache (λ cache. clear_session_key_by_hash h (clear_session_key c.sha256_hex token cache))
        w)

  pub reject_session_lem :
      (now token : ℕ) (a : AuthSession) (w : World)
      → IsWellFormed w
      → reject_session c s now token a w
        ≡ (if has_expired s now a && not (is_some a.revoked_at)
              then mark_expired c s now a
              else pure (none, some a))
            (shut now token a.session_token_hash w)
  unfolding reject_session
  reject_session_lem now token a w wf =
      let w₁ =
        set_cache
          (λ cache.
            clear_session_key_by_hash a.session_token_hash
              (clear_session_key c.sha256_hex token cache))
          w in
      >>=-ok (revoke_capability_for_session now a.session_token_hash (some now))
        (λ _.
          if has_expired s now a && not (is_some a.revoked_at)
          then mark_expired c s now a
          else pure (none, some a))
        w₁
        (revoke_capability_for_session_lem now a.session_token_hash (some now) w₁
          wf.capabilities_distinct)

  -- Once the row of a stale session has been marked, its capability and its key follow.
  pub reject_stale_lem :
      (now token : ℕ) (u : User) (a : AuthSession) (w : World)
      → IsWellFormed w
      → reject_stale c s now token u a w
        ≡ (write_audit now "user" u.id "session_expired" (("reason", text "stale_key_epoch") ∷ [])
              >> pure (none, some (revoked_row now a)))
            (shut now token a.session_token_hash (
              set_sessions
                (update_where (has_token_hash a.session_token_hash) (revoked_row now))
                w))
  unfolding reject_stale
  reject_stale_lem now token u a w wf =
      let w₁ =
        set_sessions (update_where (has_token_hash a.session_token_hash) (revoked_row now)) w in
      >>=-ok (revoke_capability_for_session now a.session_token_hash (some now))
        (λ _.
          forget_key c token a.session_token_hash
          >> (write_audit now "user" u.id "session_expired"
                (("reason", text "stale_key_epoch") ∷ [])
              >> pure (none, some (revoked_row now a))))
        w₁
        (revoke_capability_for_session_lem now a.session_token_hash (some now) w₁
          wf.capabilities_distinct)

  reject_session-rows :
      (now token : ℕ) (a : AuthSession) (w : World)
      → IsWellFormed w
      → by_key session_hash a.session_token_hash w.db.auth_sessions ≡ some a
      → (is_some a.revoked_at || has_expired s now a) ≡ true
      → (j : ℕ)
      → by_key session_hash j (reject_session c s now token a w).1.db.auth_sessions ≡ (
          if a.session_token_hash == j
          then some (noted now w.db.users a)
          else by_key session_hash j w.db.auth_sessions)
  unfolding mark_expired write_audit
  reject_session-rows now token a w wf e t j = ground (
    arith,
    reject_session_lem now token a w wf,
    ==_iff a.session_token_hash j,
    by_key-update_key session_hash (revoked_row now) (λ x. refl) a.session_token_hash j
        w.db.auth_sessions,
  )

  check_user-rows :
      (now token : ℕ) (a : AuthSession) (w : World)
      → IsWellFormed w
      → by_key session_hash a.session_token_hash w.db.auth_sessions ≡ some a
      → (is_some a.revoked_at || has_expired s now a) ≡ false
      → (o : Option User) → keep_if (λ u. u.is_active) (by_key user_key a.user_id w.db.users) ≡ o
      → (j : ℕ)
      → by_key session_hash j (check_user c s now token a o w).1.db.auth_sessions ≡ (
          if a.session_token_hash == j
          then some (noted now w.db.users a)
          else by_key session_hash j w.db.auth_sessions)
  unfolding check_user write_audit
  check_user-rows now token a w wf e t none k j = ground (arith, ==_iff a.session_token_hash j)
  check_user-rows now token a w wf e t (some u) k j = ground (
    arith,
    reject_stale_lem now token u a w wf,
    ==_iff a.session_token_hash j,
    by_key-update_key session_hash (revoked_row now) (λ x. refl) a.session_token_hash j
        w.db.auth_sessions,
    by_key-update_key session_hash (seen_row now) (λ x. refl) a.session_token_hash j
        w.db.auth_sessions,
  )

  pub check_session-rows :
      (now token : ℕ) (a : AuthSession) (w : World)
      → IsWellFormed w
      → by_key session_hash a.session_token_hash w.db.auth_sessions ≡ some a
      → (j : ℕ)
      → by_key session_hash j (check_session c s now token (some a) w).1.db.auth_sessions ≡ (
          if a.session_token_hash == j
          then some (noted now w.db.users a)
          else by_key session_hash j w.db.auth_sessions)
  check_session-rows now token a w wf e j =
      elim (Bool-cases (is_some a.revoked_at || has_expired s now a)) [
        | inl t ↦
            rw (check_session_reject now token a w t) (reject_session-rows now token a w wf e t j)
        | inr t ↦
            rw (check_session_accept now token a w wf t)
              (check_user-rows now token a w wf e t _ refl j)
      ]
