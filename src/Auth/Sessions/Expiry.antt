-- ===== src/Auth/Sessions/Expiry.antt =====
-- What `resolve_session` of app/services/auth/service.py leaves behind: a session that it has
-- rejected stays rejected, with its capability and its key gone, and one that it has accepted
-- stays accepted until its time runs out.
use tax_return_ai.Base.{==_iff, find_sound}
use tax_return_ai.Base.{
  ℕ, String, ◌+◌, ◌<◌, ◌≡◌, ◌≢◌, inl, inr, refl, true, false, ◌&&◌, ◌||◌, not, Option, none, some,
  List, [], ◌∷◌, ◌==◌, is_some, update_where, scalar_one_or_none, ok, arith, by_key, scalar-select,
  ==_cases, keep_if, DistinctBy-update_where, Bool-cases, >>=-ok, sym, subst, Result, query, ap,
  ◌∙◌,
}
use tax_return_ai.Config.{
  Settings, timedelta, effective_session_idle_timeout_seconds,
  effective_session_absolute_timeout_seconds,
}
use tax_return_ai.Models.Account.{User, AuthSession}
use tax_return_ai.Models.Audit.{Details, text}
use tax_return_ai.Models.World.{World}
use tax_return_ai.Audit.{write_audit}
use tax_return_ai.Security.Capability.{token_hash, has_hash, revoke_at}
use tax_return_ai.Auth.Crypto.{Crypto}
use tax_return_ai.Auth.Sessions.{
  set_sessions, user_key, session_hash, session_rows, has_token_hash, has_expired, revoked_row,
  seen_row, check_session, reject_session, check_user, mark_expired, resolve_session,
}
use tax_return_ai.Auth.Sessions.Resolve.{
  IsWellFormed, user_of, live_user, resolve_session-user, noted, shut, check_session_reject,
  check_session_accept, reject_session_lem, reject_stale_lem, check_session-rows,
}

pub ne_test : (n : ℕ) → n ≢ 0 → (n == 0) ≡ false
ne_test n h = ground arith

module _ (c : Crypto) (s : Settings) where
  pub shut-IsWellFormed :
      (now token h : ℕ) (w : World) → IsWellFormed w → IsWellFormed (shut c s now token h w)
  shut-IsWellFormed now token h w wf = record {
    users_distinct = wf.users_distinct;
    sessions_distinct = wf.sessions_distinct;
    capabilities_distinct =
        DistinctBy-update_where token_hash (has_hash h) (revoke_at now) (λ x. refl)
          w.db.capabilities wf.capabilities_distinct;
  }

  -- An update of session rows that keeps their hashes.
  pub sessions-IsWellFormed :
      (h : ℕ) (f : AuthSession → AuthSession) (w : World)
      → ((a : AuthSession) → session_hash (f a) ≡ session_hash a)
      → IsWellFormed w
      → IsWellFormed (set_sessions (update_where (has_token_hash h) f) w)
  sessions-IsWellFormed h f w same wf = record {
    users_distinct = wf.users_distinct;
    sessions_distinct =
        DistinctBy-update_where session_hash (has_token_hash h) f same w.db.auth_sessions
          wf.sessions_distinct;
    capabilities_distinct = wf.capabilities_distinct;
  }

  pub write_audit-IsWellFormed :
      (now : ℕ) (e : String) (id : ℕ) (action : String) (d : Details) (w : World)
      → IsWellFormed w
      → IsWellFormed (write_audit now e id action d w).1
  unfolding write_audit
  write_audit-IsWellFormed now e id action d w wf = record {
    users_distinct = wf.users_distinct;
    sessions_distinct = wf.sessions_distinct;
    capabilities_distinct = wf.capabilities_distinct;
  }

  mark_expired-IsWellFormed :
      (now : ℕ) (a : AuthSession) (w : World)
      → IsWellFormed w
      → IsWellFormed (mark_expired c s now a w).1
  unfolding mark_expired write_audit
  mark_expired-IsWellFormed now a w wf = record {
    users_distinct = wf.users_distinct;
    sessions_distinct =
        DistinctBy-update_where session_hash (has_token_hash a.session_token_hash) (revoked_row now)
          (λ x. refl) w.db.auth_sessions wf.sessions_distinct;
    capabilities_distinct = wf.capabilities_distinct;
  }

  reject_session-IsWellFormed :
      (now token : ℕ) (a : AuthSession) (w : World)
      → IsWellFormed w
      → IsWellFormed (reject_session c s now token a w).1
  reject_session-IsWellFormed now token a w wf =
      rw (reject_session_lem c s now token a w wf)
        (elim (Bool-cases (has_expired s now a && not (is_some a.revoked_at))) [
          | inl e ↦ rw e (
              mark_expired-IsWellFormed now a (shut c s now token a.session_token_hash w)
                (shut-IsWellFormed now token a.session_token_hash w wf))
          | inr e ↦ rw e (shut-IsWellFormed now token a.session_token_hash w wf)
        ])

  check_user-IsWellFormed :
      (now token : ℕ) (a : AuthSession) (o : Option User) (w : World)
      → IsWellFormed w
      → IsWellFormed (check_user c s now token a o w).1
  unfolding check_user write_audit
  check_user-IsWellFormed now token a none w wf = wf
  check_user-IsWellFormed now token a (some u) w wf =
      elim (Bool-cases (u.unlock_epoch == a.key_epoch)) [
        | inl e ↦ rw e (sessions-IsWellFormed a.session_token_hash (seen_row now) w (λ x. refl) wf)
        | inr e ↦ rw e (
            rw (reject_stale_lem c s now token u a w wf) (
              write_audit-IsWellFormed now "user" u.id "session_expired"
                (("reason", text "stale_key_epoch") ∷ []) _
                (shut-IsWellFormed now token a.session_token_hash _
                  (sessions-IsWellFormed a.session_token_hash (revoked_row now) w (λ x. refl) wf))))
      ]

  check_session-IsWellFormed :
      (now token : ℕ) (o : Option AuthSession) (w : World)
      → IsWellFormed w
      → IsWellFormed (check_session c s now token o w).1
  unfolding check_session write_audit
  check_session-IsWellFormed now token none w wf = record {
    users_distinct = wf.users_distinct;
    sessions_distinct = wf.sessions_distinct;
    capabilities_distinct = wf.capabilities_distinct;
  }
  check_session-IsWellFormed now token (some a) w wf =
      elim (Bool-cases (is_some a.revoked_at || has_expired s now a)) [
        | inl t ↦
            rw (check_session_reject c s now token a w t)
              (reject_session-IsWellFormed now token a w wf)
        | inr t ↦
            rw (check_session_accept c s now token a w wf t)
              (check_user-IsWellFormed now token a _ w wf)
      ]

  -- The check that `resolve_session` makes of the row of a token.
  pub resolve_session_lem :
      (now token : ℕ) (w : World)
      → IsWellFormed w
      → token ≢ 0
      → resolve_session c s now token w
        ≡ check_session c s now token
            (by_key session_hash (c.sha256_hex token) w.db.auth_sessions)
            w
  unfolding resolve_session
  resolve_session_lem now token w wf ne = rw (ne_test token ne) (
      >>=-ok (query (λ v. scalar_one_or_none (session_rows (c.sha256_hex token) v)))
        (check_session c s now token) w
        (ap (λ (r : Result (Option AuthSession)). (r, w))
          (scalar-select session_hash (c.sha256_hex token) w.db.auth_sessions
            wf.sessions_distinct)))

  pub resolve_session-IsWellFormed :
      (now token : ℕ) (w : World)
      → IsWellFormed w
      → IsWellFormed (resolve_session c s now token w).1
  unfolding resolve_session
  resolve_session-IsWellFormed now token w wf = elim (==_cases token 0) [
    | inl e ↦ rw e wf
    | inr n ↦
        rw (resolve_session_lem now token w wf n) (check_session-IsWellFormed now token _ w wf)
  ]

  resolve_session-rows :
      (now token : ℕ) (a : AuthSession) (w : World)
      → IsWellFormed w
      → token ≢ 0
      → by_key session_hash (c.sha256_hex token) w.db.auth_sessions ≡ some a
      → by_key session_hash
          (c.sha256_hex token)
          (resolve_session c s now token w).1.db.auth_sessions
        ≡ some (noted c s now w.db.users a)
  resolve_session-rows now token a w wf ne e =
      let same : a.session_token_hash ≡ c.sha256_hex token =
        (==_iff _ _).0 (find_sound (has_token_hash (c.sha256_hex token)) w.db.auth_sessions a e) in
      rw (resolve_session_lem now token w wf ne) (
        rw e (
          rw
            (check_session-rows c s now token a w wf
              (subst (λ k. by_key session_hash k w.db.auth_sessions ≡ some a) (sym same) e)
              (c.sha256_hex token))
            (ground (arith, same))))

  noted-expired :
      (now t : ℕ) (us vs : List User) (a : AuthSession)
      → has_expired s now a ≡ true
      → live_user c s t vs (some (noted c s now us a)) ≡ none
  noted-expired now t us vs a x = ground (arith, x)

  -- In a world whose users, sessions and capabilities have unique keys, if the row of a non-empty
  -- token has expired when it is used, the token resolves to nobody then, and in the world that
  -- this leaves to nobody at any time, an earlier one included.
  pub resolve_session-expired :
      (now t token : ℕ) (a : AuthSession) (w : World)
      → IsWellFormed w
      → token ≢ 0
      → by_key session_hash (c.sha256_hex token) w.db.auth_sessions ≡ some a
      → has_expired s now a ≡ true
      → let (r, w') = resolve_session c s now token w in
        (user_of r ≡ none) × (user_of (resolve_session c s t token w').0 ≡ none)
  resolve_session-expired now t token a w wf ne e x = (
    ground (arith, ne, e, x, resolve_session-user c s now token w wf),
    ground (
      arith,
      ne,
      resolve_session-user c s t token (resolve_session c s now token w).1
          (resolve_session-IsWellFormed now token w wf),
      resolve_session-rows now token a w wf ne e,
      noted-expired now t w.db.users (resolve_session c s now token w).1.db.users a x,
    ),
  )

  reject_session-users :
      (now token : ℕ) (a : AuthSession) (w : World)
      → IsWellFormed w
      → (reject_session c s now token a w).1.db.users ≡ w.db.users
  unfolding mark_expired write_audit
  reject_session-users now token a w wf = ground (arith, reject_session_lem c s now token a w wf)

  check_user-users :
      (now token : ℕ) (a : AuthSession) (o : Option User) (w : World)
      → IsWellFormed w
      → (check_user c s now token a o w).1.db.users ≡ w.db.users
  unfolding check_user write_audit
  check_user-users now token a none w wf = refl
  check_user-users now token a (some u) w wf =
      ground (arith, reject_stale_lem c s now token u a w wf)

  pub resolve_session-users :
      (now token : ℕ) (a : AuthSession) (w : World)
      → IsWellFormed w
      → token ≢ 0
      → by_key session_hash (c.sha256_hex token) w.db.auth_sessions ≡ some a
      → (resolve_session c s now token w).1.db.users ≡ w.db.users
  resolve_session-users now token a w wf ne e = rw (resolve_session_lem now token w wf ne) (
      rw e (elim (Bool-cases (is_some a.revoked_at || has_expired s now a)) [
        | inl t ↦
            rw (check_session_reject c s now token a w t) (reject_session-users now token a w wf)
        | inr t ↦
            rw (check_session_accept c s now token a w wf t) (check_user-users now token a _ w wf)
      ]))

  -- In a world whose users, sessions and capabilities have unique keys, if a non-empty token
  -- resolves to a user, it resolves to the same user in the world that this leaves at any time
  -- before the idle timeout from then, the expiry of the row and the absolute timeout from its
  -- creation.
  pub resolve_session-slides :
      (now t token : ℕ) (a : AuthSession) (u : User) (w : World)
      → IsWellFormed w
      → token ≢ 0
      → by_key session_hash (c.sha256_hex token) w.db.auth_sessions ≡ some a
      → user_of (resolve_session c s now token w).0 ≡ some u
      → t < now + timedelta (effective_session_idle_timeout_seconds s)
      → t < a.expires_at
      → t < a.created_at + timedelta (effective_session_absolute_timeout_seconds s)
      → user_of (resolve_session c s t token (resolve_session c s now token w).1).0 ≡ some u
  unfolding has_expired
  resolve_session-slides now t token a u w wf ne e r i x b = ground (
    arith,
    ne,
    resolve_session-user c s now token w wf,
    resolve_session-user c s t token (resolve_session c s now token w).1
        (resolve_session-IsWellFormed now token w wf),
    resolve_session-rows now token a w wf ne e,
    resolve_session-users now token a w wf ne e,
  )

  -- The facts behind a live session.
  live_parts :
      (now : ℕ) (a : AuthSession) (u : User) (us : List User)
      → live_user c s now us (some a) ≡ some u
      → ((is_some a.revoked_at || has_expired s now a) ≡ false)
        × (keep_if (λ x. x.is_active) (by_key user_key a.user_id us) ≡ some u)
        × ((u.unlock_epoch == a.key_epoch) ≡ true)
  live_parts now a u us l = ground arith

  check_user-same_epoch :
      (now token : ℕ) (a : AuthSession) (u : User) (w : World)
      → (u.unlock_epoch == a.key_epoch) ≡ true
      → check_user c s now token a (some u) w ≡ (
        ok (some u, some (seen_row now a)),
        set_sessions (update_where (has_token_hash a.session_token_hash) (seen_row now)) w,
      )
  unfolding check_user
  check_user-same_epoch now token a u w e = rw e

  -- What `resolve_session` does with the token of a live session.
  pub resolve_session-live :
      (now token : ℕ) (a : AuthSession) (u : User) (w : World)
      → IsWellFormed w
      → token ≢ 0
      → by_key session_hash (c.sha256_hex token) w.db.auth_sessions ≡ some a
      → live_user c s now w.db.users (some a) ≡ some u
      → resolve_session c s now token w ≡ (
        ok (some u, some (seen_row now a)),
        set_sessions (update_where (has_token_hash a.session_token_hash) (seen_row now)) w,
      )
  resolve_session-live now token a u w wf ne e l =
      let (open', active, same) = live_parts now a u w.db.users l in
      resolve_session_lem now token w wf ne
      ∙ ap (λ o. check_session c s now token o w) e
      ∙ check_session_accept c s now token a w wf open'
      ∙ ap (λ o. check_user c s now token a o w) active
      ∙ check_user-same_epoch now token a u w same
