-- ===== src/Auth/Sessions/Closing.antt =====
-- `lock_session` and `revoke_session` of app/services/auth/service.py: what they close, and what
-- they leave open.
use tax_return_ai.Base.{
  ℕ, ◌≡◌, ◌≢◌, refl, true, Option, none, some, [], ◌∷◌, ◌==◌, if◌then◌else◌, update_where,
  scalar_one_or_none, ok, arith, by_key, scalar-select, by_key-update_key, map_some, >>=-ok, ◌>>◌,
  pure, query, sym, subst, Result, ap, ◌∙◌, find_sound, ==_iff,
}
use tax_return_ai.Base.Dict.{lookup, erase, lookup-erase}
use tax_return_ai.Config.{Settings}
use tax_return_ai.Models.Account.{User, AuthSession, UnlockCapability}
use tax_return_ai.Models.Audit.{text}
use tax_return_ai.Models.World.{World}
use tax_return_ai.Audit.{write_audit}
use tax_return_ai.Security.KeyCache.{clear_session_key, clear_session_key_by_hash}
use tax_return_ai.Security.Capability.{token_hash, revoke_at, revoke_capability_for_session}
use tax_return_ai.Security.Capability.Laws.{Unlocks}
use tax_return_ai.Security.Capability.Revocation.{revoke_capability_for_session_lem}
use tax_return_ai.Auth.Crypto.{Crypto, IsSound}
use tax_return_ai.Auth.Sessions.{
  session_hash, session_rows, has_token_hash, revoked_row, set_sessions, forget_key, lock_found,
  close_found, lock_session, revoke_session, resolve_session,
}
use tax_return_ai.Auth.Sessions.Resolve.{
  IsWellFormed, user_of, live_user, resolve_session-user, shut,
}
use tax_return_ai.Auth.Sessions.Expiry.{
  ne_test, shut-IsWellFormed, write_audit-IsWellFormed, sessions-IsWellFormed,
}
use tax_return_ai.Auth.Guards.{get_current_unlocked_user}
use tax_return_ai.Auth.Guards.Laws.{
  IsAdmitted, get_current_unlocked_user_sound, get_current_unlocked_user_complete,
}

module _ (c : Crypto) (s : Settings) where
  -- The world that a lock leaves.
  abbrev locked_world : ℕ → ℕ → AuthSession → World → World
  locked_world now token a w =
      (write_audit now "user" a.user_id "workspace_locked" (("reason", text "manual_lock") ∷ [])
        (shut c s now token a.session_token_hash w)).1

  lock_found_lem :
      (now token : ℕ) (a : AuthSession) (w : World)
      → IsWellFormed w
      → lock_found c s now token (some a) w ≡ (ok true, locked_world now token a w)
  unfolding lock_found write_audit
  lock_found_lem now token a w wf =
      >>=-ok (revoke_capability_for_session now a.session_token_hash none)
        (λ _.
          forget_key c token a.session_token_hash
          >> (write_audit now "user" a.user_id "workspace_locked"
                (("reason", text "manual_lock") ∷ [])
              >> pure true))
        w
        (revoke_capability_for_session_lem now a.session_token_hash none w wf.capabilities_distinct)

  lock_session_lem :
      (now token : ℕ) (a : AuthSession) (w : World)
      → IsWellFormed w
      → token ≢ 0
      → by_key session_hash (c.sha256_hex token) w.db.auth_sessions ≡ some a
      → lock_session c s now token w ≡ (ok true, locked_world now token a w)
  unfolding lock_session
  lock_session_lem now token a w wf ne e = rw (ne_test token ne) (
      >>=-ok (query (λ v. scalar_one_or_none (session_rows (c.sha256_hex token) v)))
        (lock_found c s now token) w
        (ap (λ (r : Result (Option AuthSession)). (r, w))
          (scalar-select session_hash (c.sha256_hex token) w.db.auth_sessions wf.sessions_distinct
            ∙ ap (λ o. ok o) e))
      ∙ lock_found_lem now token a w wf)

  found_hash :
      (token : ℕ) (a : AuthSession) (w : World)
      → by_key session_hash (c.sha256_hex token) w.db.auth_sessions ≡ some a
      → a.session_token_hash ≡ c.sha256_hex token
  found_hash token a w e =
      (==_iff _ _).0 (find_sound (has_token_hash (c.sha256_hex token)) w.db.auth_sessions a e)

  shut-capabilities :
      (now token h j : ℕ) (w : World)
      → by_key token_hash j (shut c s now token h w).db.capabilities ≡ (
          if h == j
          then map_some (revoke_at now) (by_key token_hash j w.db.capabilities)
          else by_key token_hash j w.db.capabilities)
  shut-capabilities now token h j w =
      by_key-update_key token_hash (revoke_at now) (λ x. refl) h j w.db.capabilities

  shut-keys :
      (now token h j : ℕ) (w : World)
      → token ≢ 0
      → h ≡ c.sha256_hex token
      → lookup j (shut c s now token h w).key_cache
        ≡ (if j == h then none else lookup j w.key_cache)
  unfolding clear_session_key clear_session_key_by_hash
  shut-keys now token h j w ne e = ground (
    arith,
    ne,
    e,
    lookup-erase j (c.sha256_hex token) w.key_cache,
    lookup-erase j h (erase (c.sha256_hex token) w.key_cache),
    lookup-erase j h w.key_cache,
  )

  locked_world-IsWellFormed :
      (now token : ℕ) (a : AuthSession) (w : World)
      → IsWellFormed w
      → IsWellFormed (locked_world now token a w)
  locked_world-IsWellFormed now token a w wf =
      write_audit-IsWellFormed c s now "user" a.user_id "workspace_locked"
        (("reason", text "manual_lock") ∷ []) _
        (shut-IsWellFormed c s now token a.session_token_hash w wf)

  -- A revoked capability unlocks nothing.
  not-Unlocks_revoked :
      (t now : ℕ) (u : User) (a : AuthSession) (o : Option UnlockCapability)
      → ¬ Unlocks t u a (map_some (revoke_at now) o)
  not-Unlocks_revoked t now u a none p = p
  not-Unlocks_revoked t now u a (some x) p = ground (arith, p)

  shut-guard :
      (now t₁ t₂ t₃ token h : ℕ) (v : User) (w w' : World)
      → h ≡ c.sha256_hex token
      → IsWellFormed w'
      → w'.db.capabilities ≡ (shut c s now token h w).db.capabilities
      → (get_current_unlocked_user c s t₁ t₂ t₃ token w').0 ≢ ok v
  shut-guard now t₁ t₂ t₃ token h v w w' same wf e r =
      let p = get_current_unlocked_user_sound c s t₁ t₂ t₃ token v w' wf r in
      let eq : by_key token_hash (c.sha256_hex token) w'.db.capabilities
          ≡ map_some (revoke_at now) (by_key token_hash (c.sha256_hex token) w.db.capabilities) =
        ap (by_key token_hash (c.sha256_hex token)) e
        ∙ ground (arith, same, shut-capabilities now token h (c.sha256_hex token) w) in
      not-Unlocks_revoked t₂ now v p.session
        (by_key token_hash (c.sha256_hex token) w.db.capabilities)
        (subst (Unlocks t₂ v p.session) eq p.unlocked)

  -- In a world whose users, sessions and capabilities have unique keys, after a non-empty token
  -- with a session row has been locked, it still resolves to the same user as before, at any
  -- time, but no request with it passes the guard of the sensitive routes, at any times.
  pub lock_session-guard :
      (now t t₁ t₂ t₃ token : ℕ) (a : AuthSession) (v : User) (w : World)
      → IsWellFormed w
      → token ≢ 0
      → by_key session_hash (c.sha256_hex token) w.db.auth_sessions ≡ some a
      → let w' = (lock_session c s now token w).1 in
        (user_of (resolve_session c s t token w').0 ≡ user_of (resolve_session c s t token w).0)
        × ((get_current_unlocked_user c s t₁ t₂ t₃ token w').0 ≢ ok v)
  unfolding write_audit
  lock_session-guard now t t₁ t₂ t₃ token a v w wf ne e =
      rw (lock_session_lem now token a w wf ne e) (
        let wf' = locked_world-IsWellFormed now token a w wf in
        (
          resolve_session-user c s t token (locked_world now token a w) wf'
              ∙ sym (resolve_session-user c s t token w wf),
          shut-guard now t₁ t₂ t₃ token a.session_token_hash v w (locked_world now token a w)
              (found_hash token a w e) wf' refl,
        ))

  IsAdmitted-same :
      (t₁ t₂ t₃ token : ℕ) (u : User) (w w' : World)
      → by_key session_hash (c.sha256_hex token) w'.db.auth_sessions
        ≡ by_key session_hash (c.sha256_hex token) w.db.auth_sessions
      → w'.db.users ≡ w.db.users
      → by_key token_hash (c.sha256_hex token) w'.db.capabilities
        ≡ by_key token_hash (c.sha256_hex token) w.db.capabilities
      → lookup (c.sha256_hex token) w'.key_cache ≡ lookup (c.sha256_hex token) w.key_cache
      → IsAdmitted c s t₁ t₂ t₃ token w u
      → IsAdmitted c s t₁ t₂ t₃ token w' u
  IsAdmitted-same t₁ t₂ t₃ token u w w' es eu ec ek p = record {
    session = p.session;
    has_token = p.has_token;
    found = es ∙ p.found;
    is_live = ap (λ us. live_user c s t₁ us (some p.session)) eu ∙ p.is_live;
    unlocked = subst (Unlocks t₂ u p.session) (sym ec) p.unlocked;
    has_key = ground (arith, ek, p.has_key);
  }

  -- With sound cryptographic functions, and in a world whose users, sessions and capabilities
  -- have unique keys, locking the session of a non-empty token does not lock another token: what
  -- passed the guard before it passes it after it.
  pub lock_session-others :
      (now t₁ t₂ t₃ token other : ℕ) (a : AuthSession) (v : User) (w : World)
      → IsSound c
      → IsWellFormed w
      → token ≢ 0
      → by_key session_hash (c.sha256_hex token) w.db.auth_sessions ≡ some a
      → other ≢ token
      → (get_current_unlocked_user c s t₁ t₂ t₃ other w).0 ≡ ok v
      → (get_current_unlocked_user c s t₁ t₂ t₃ other (lock_session c s now token w).1).0 ≡ ok v
  unfolding write_audit
  lock_session-others now t₁ t₂ t₃ token other a v w sound wf ne e differ r =
      let h : a.session_token_hash ≡ c.sha256_hex token = found_hash token a w e in
      let apart : a.session_token_hash ≢ c.sha256_hex other =
        λ q. differ (sym (sound.sha256_inj token other (sym h ∙ q))) in
      rw (lock_session_lem now token a w wf ne e) (
        get_current_unlocked_user_complete c s t₁ t₂ t₃ other v (locked_world now token a w)
          (locked_world-IsWellFormed now token a w wf)
          (IsAdmitted-same t₁ t₂ t₃ other v w (locked_world now token a w) refl refl
            (ground (
              arith,
              apart,
              shut-capabilities now token a.session_token_hash (c.sha256_hex other) w,
            ))
            (ground
              (arith, apart, shut-keys now token a.session_token_hash (c.sha256_hex other) w ne h))
            (get_current_unlocked_user_sound c s t₁ t₂ t₃ other v w wf r)))

  -- The world that a logout leaves.
  abbrev left_world : ℕ → ℕ → AuthSession → World → World
  left_world now token a w =
      shut c s now token a.session_token_hash
        (write_audit now "user" a.user_id "workspace_locked" (("reason", text "manual_logout") ∷ [])
          (set_sessions (update_where (has_token_hash a.session_token_hash) (revoked_row now)) w)).1

  close_found_lem :
      (now token : ℕ) (a : AuthSession) (w : World)
      → IsWellFormed w
      → close_found c s now token (some a) w ≡ (ok true, left_world now token a w)
  unfolding close_found write_audit
  close_found_lem now token a w wf =
      >>=-ok (revoke_capability_for_session now a.session_token_hash none)
        (λ _. forget_key c token a.session_token_hash >> pure true)
        (write_audit now "user" a.user_id "workspace_locked" (("reason", text "manual_logout") ∷ [])
          (set_sessions (update_where (has_token_hash a.session_token_hash) (revoked_row now)) w)).1
        (revoke_capability_for_session_lem now a.session_token_hash none _ wf.capabilities_distinct)

  revoke_session_lem :
      (now token : ℕ) (a : AuthSession) (w : World)
      → IsWellFormed w
      → token ≢ 0
      → by_key session_hash (c.sha256_hex token) w.db.auth_sessions ≡ some a
      → revoke_session c s now token w ≡ (ok true, left_world now token a w)
  unfolding revoke_session
  revoke_session_lem now token a w wf ne e = rw (ne_test token ne) (
      >>=-ok (query (λ v. scalar_one_or_none (session_rows (c.sha256_hex token) v)))
        (close_found c s now token) w
        (ap (λ (r : Result (Option AuthSession)). (r, w))
          (scalar-select session_hash (c.sha256_hex token) w.db.auth_sessions wf.sessions_distinct
            ∙ ap (λ o. ok o) e))
      ∙ close_found_lem now token a w wf)

  left_world-IsWellFormed :
      (now token : ℕ) (a : AuthSession) (w : World)
      → IsWellFormed w
      → IsWellFormed (left_world now token a w)
  left_world-IsWellFormed now token a w wf =
      shut-IsWellFormed c s now token a.session_token_hash _ (
        write_audit-IsWellFormed c s now "user" a.user_id "workspace_locked"
          (("reason", text "manual_logout") ∷ []) _
          (sessions-IsWellFormed c s a.session_token_hash (revoked_row now) w (λ x. refl) wf))

  -- In a world whose users, sessions and capabilities have unique keys, after the logout of a
  -- non-empty token with a session row the token resolves to nobody, at any time.
  pub revoke_session-user :
      (now t token : ℕ) (a : AuthSession) (w : World)
      → IsWellFormed w
      → token ≢ 0
      → by_key session_hash (c.sha256_hex token) w.db.auth_sessions ≡ some a
      → user_of (resolve_session c s t token (revoke_session c s now token w).1).0 ≡ none
  unfolding write_audit
  revoke_session-user now t token a w wf ne e = rw (revoke_session_lem now token a w wf ne e) (
      ground (
        arith,
        ne,
        e,
        found_hash token a w e,
        resolve_session-user c s t token (left_world now token a w)
            (left_world-IsWellFormed now token a w wf),
        by_key-update_key session_hash (revoked_row now) (λ x. refl) a.session_token_hash
            (c.sha256_hex token) w.db.auth_sessions,
      ))
