-- ===== src/Auth/Guards/Laws.antt =====
-- Who passes `get_current_unlocked_user` of app/db/auth_deps.py.
use tax_return_ai.Base.{or_raise}
use tax_return_ai.Base.{
  ℕ, ◌≡◌, ◌≢◌, inl, inr, Bool, true, false, Option, none, some, is_some, update_where, ok, arith,
  DistinctBy, by_key, Option-cases, >>=-ok, ◌>>=◌, sym, subst, Result, ap, ◌∙◌,
}
use tax_return_ai.Config.{Settings}
use tax_return_ai.Models.Account.{User, AuthSession, UnlockCapability}
use tax_return_ai.Models.World.{World}
use tax_return_ai.Security.KeyCache.View.{live, key_of}
use tax_return_ai.Security.KeyCache.Laws.{get_session_key-live}
use tax_return_ai.Security.Capability.{token_hash, validate_unlock_capability}
use tax_return_ai.Security.Capability.Laws.{
  Unlocks, validate_unlock_capability-ok_true, validate_unlock_capability-usable,
  refusals-validate_unlock_capability,
}
use tax_return_ai.Auth.Crypto.{Crypto}
use tax_return_ai.Auth.Sessions.{
  session_hash, has_token_hash, seen_row, set_sessions, is_unlock_capability_active,
  resolve_session,
}
use tax_return_ai.Auth.Sessions.Resolve.{IsWellFormed, user_of, live_user, resolve_session-user}
use tax_return_ai.Auth.Sessions.Expiry.{resolve_session-live}
use tax_return_ai.Auth.Guards.{check_unlocked, get_current_unlocked_user, unauthenticated}

module _ (c : Crypto) (s : Settings) where
  check_unlocked_complete :
      (t₂ t₃ token : ℕ) (user : User) (session : AuthSession) (w : World)
      → DistinctBy token_hash w.db.capabilities
      → token ≢ 0
      → Unlocks t₂ user session (by_key token_hash (c.sha256_hex token) w.db.capabilities)
      → is_some (key_of (live t₃ w.key_cache (c.sha256_hex token))) ≡ true
      → (check_unlocked c s t₂ t₃ token user session w).0 ≡ ok user
  unfolding check_unlocked is_unlock_capability_active
  check_unlocked_complete t₂ t₃ token user session w d ne u k = ground (
    arith,
    ne,
    k,
    validate_unlock_capability-usable s t₂ user session (c.sha256_hex token) w d u,
    get_session_key-live c.sha256_hex token t₃ w.key_cache ne,
  )

  -- The guard stops at a refused validation.
  check_unlocked-validated :
      (t₂ t₃ token : ℕ) (b : Bool) (user v : User) (session : AuthSession) (w : World)
      → (validate_unlock_capability s t₂ user session (c.sha256_hex token) true w).0 ≡ ok b
      → (check_unlocked c s t₂ t₃ token user session w).0 ≡ ok v
      → (validate_unlock_capability s t₂ user session (c.sha256_hex token) true w).0 ≡ ok true
  unfolding check_unlocked is_unlock_capability_active
  check_unlocked-validated t₂ t₃ token true user v session w e r = e
  check_unlocked-validated t₂ t₃ token false user v session w e r = absurd (ground (arith, e, r))

  check_unlocked-key :
      (t₂ t₃ token : ℕ) (user v : User) (session : AuthSession) (w : World)
      → DistinctBy token_hash w.db.capabilities
      → token ≢ 0
      → Unlocks t₂ user session (by_key token_hash (c.sha256_hex token) w.db.capabilities)
      → (check_unlocked c s t₂ t₃ token user session w).0 ≡ ok v
      → (v ≡ user) × (is_some (key_of (live t₃ w.key_cache (c.sha256_hex token))) ≡ true)
  unfolding check_unlocked is_unlock_capability_active
  check_unlocked-key t₂ t₃ token user v session w d ne u r = (
    ground (arith, validate_unlock_capability-usable s t₂ user session (c.sha256_hex token) w d u),
    ground (
      arith,
      validate_unlock_capability-usable s t₂ user session (c.sha256_hex token) w d u,
      get_session_key-live c.sha256_hex token t₃ w.key_cache ne,
    ),
  )

  check_unlocked_sound :
      (t₂ t₃ token : ℕ) (user v : User) (session : AuthSession) (w : World)
      → DistinctBy token_hash w.db.capabilities
      → token ≢ 0
      → (check_unlocked c s t₂ t₃ token user session w).0 ≡ ok v
      → (v ≡ user)
        × (is_some (key_of (live t₃ w.key_cache (c.sha256_hex token))) ≡ true)
        × Unlocks t₂ user session (by_key token_hash (c.sha256_hex token) w.db.capabilities)
  check_unlocked_sound t₂ t₃ token user v session w d ne r =
      let (b, e, _) =
        refusals-validate_unlock_capability s t₂ user session (c.sha256_hex token) true w d in
      let u =
        (validate_unlock_capability-ok_true s t₂ user session (c.sha256_hex token) true w d).0
          (check_unlocked-validated t₂ t₃ token b user v session w e r) in
      let (same, key) = check_unlocked-key t₂ t₃ token user v session w d ne u r in (same, key, u)

  -- Everything that the guard asks of a request, in the database and the process as it finds them.
  pub record IsAdmitted (t₁ t₂ t₃ token : ℕ) (w : World) (u : User) : Type 0 where
    pub session : AuthSession
    pub has_token : token ≢ 0
    pub found : by_key session_hash (c.sha256_hex token) w.db.auth_sessions ≡ some session
    pub is_live : live_user c s t₁ w.db.users (some session) ≡ some u
    pub unlocked : Unlocks t₂ u session (by_key token_hash (c.sha256_hex token) w.db.capabilities)
    pub has_key : is_some (key_of (live t₃ w.key_cache (c.sha256_hex token))) ≡ true

  -- For a live session the guard goes on to the capability and the key.
  get_current_unlocked_user-live :
      (t₁ t₂ t₃ token : ℕ) (a : AuthSession) (u : User) (w : World)
      → IsWellFormed w
      → token ≢ 0
      → by_key session_hash (c.sha256_hex token) w.db.auth_sessions ≡ some a
      → live_user c s t₁ w.db.users (some a) ≡ some u
      → get_current_unlocked_user c s t₁ t₂ t₃ token w
        ≡ check_unlocked c s t₂ t₃ token u
            (seen_row t₁ a)
            (set_sessions (update_where (has_token_hash a.session_token_hash) (seen_row t₁)) w)
  unfolding get_current_unlocked_user
  get_current_unlocked_user-live t₁ t₂ t₃ token a u w wf ne e l =
      >>=-ok (resolve_session c s t₁ token)
        (λ (found : Option User × Option AuthSession). or_raise found.0 unauthenticated >>= λ user.
          or_raise found.1 unauthenticated >>= λ session.
          check_unlocked c s t₂ t₃ token user session)
        w (resolve_session-live c s t₁ token a u w wf ne e l)

  Unlocks-seen :
      (t t' : ℕ) (u : User) (a : AuthSession) (o : Option UnlockCapability)
      → Unlocks t u a o
      → Unlocks t u (seen_row t' a) o
  Unlocks-seen t t' u a none p = p
  Unlocks-seen t t' u a (some x) p = ground (arith, p)

  Unlocks-unseen :
      (t t' : ℕ) (u : User) (a : AuthSession) (o : Option UnlockCapability)
      → Unlocks t u (seen_row t' a) o
      → Unlocks t u a o
  Unlocks-unseen t t' u a none p = p
  Unlocks-unseen t t' u a (some x) p = ground (arith, p)

  -- In a world whose users, sessions and capabilities have unique keys, the guard lets through
  -- every user who has a non-empty token with a live session, a usable capability and a live
  -- cached key: it answers with that user.
  pub get_current_unlocked_user_complete :
      (t₁ t₂ t₃ token : ℕ) (u : User) (w : World)
      → IsWellFormed w
      → IsAdmitted t₁ t₂ t₃ token w u
      → (get_current_unlocked_user c s t₁ t₂ t₃ token w).0 ≡ ok u
  get_current_unlocked_user_complete t₁ t₂ t₃ token u w wf p =
      rw
        (get_current_unlocked_user-live t₁ t₂ t₃ token p.session u w wf p.has_token p.found
          p.is_live)
        (check_unlocked_complete t₂ t₃ token u (seen_row t₁ p.session) _ wf.capabilities_distinct
          p.has_token
          (Unlocks-seen t₂ t₁ u p.session (by_key token_hash (c.sha256_hex token) w.db.capabilities)
            p.unlocked)
          p.has_key)

  get_current_unlocked_user-resolved :
      (t₁ t₂ t₃ token : ℕ) (u : User) (w : World)
      → (get_current_unlocked_user c s t₁ t₂ t₃ token w).0 ≡ ok u
      → is_some (user_of (resolve_session c s t₁ token w).0) ≡ true
  unfolding get_current_unlocked_user
  get_current_unlocked_user-resolved t₁ t₂ t₃ token u w r = ground arith

  live_of_resolved :
      (t token : ℕ) (w : World)
      → IsWellFormed w
      → is_some (user_of (resolve_session c s t token w).0) ≡ true
      → (token ≢ 0)
        × (a : AuthSession) × (by_key session_hash (c.sha256_hex token) w.db.auth_sessions ≡ some a)
        × (u : User) × (live_user c s t w.db.users (some a) ≡ some u)
  live_of_resolved t token w wf r =
      elim (Option-cases (by_key session_hash (c.sha256_hex token) w.db.auth_sessions)) [
        | inl n ↦ absurd (ground (arith, n, r, resolve_session-user c s t token w wf))
        | inr (a, e) ↦ elim (Option-cases (live_user c s t w.db.users (some a))) [
          | inl n ↦ absurd (ground (arith, e, n, r, resolve_session-user c s t token w wf))
          | inr (u, l) ↦
              (λ z. ground (arith, z, r, resolve_session-user c s t token w wf), a, e, u, l)
        ]
      ]

  -- In a world whose users, sessions and capabilities have unique keys, whoever passes the guard
  -- of the sensitive routes has a non-empty token with a live session of that user, a capability
  -- that is usable for the user and the session, and a live key in the cache, each at the time at
  -- which the guard reads it.
  pub get_current_unlocked_user_sound :
      (t₁ t₂ t₃ token : ℕ) (v : User) (w : World)
      → IsWellFormed w
      → (get_current_unlocked_user c s t₁ t₂ t₃ token w).0 ≡ ok v
      → IsAdmitted t₁ t₂ t₃ token w v
  get_current_unlocked_user_sound t₁ t₂ t₃ token v w wf r =
      let (ne, a, e, u, l) =
        live_of_resolved t₁ token w wf (get_current_unlocked_user-resolved t₁ t₂ t₃ token v w r) in
      let (same, key, unlocks) =
        check_unlocked_sound t₂ t₃ token u v (seen_row t₁ a)
          (set_sessions (update_where (has_token_hash a.session_token_hash) (seen_row t₁)) w)
          wf.capabilities_distinct ne
          (ap (λ (x : Result User × World). x.0)
              (sym (get_current_unlocked_user-live t₁ t₂ t₃ token a u w wf ne e l))
            ∙ r) in
      subst (IsAdmitted t₁ t₂ t₃ token w) (sym same) (record {
        session = a;
        has_token = ne;
        found = e;
        is_live = l;
        unlocked =
            Unlocks-unseen t₂ t₁ u a (by_key token_hash (c.sha256_hex token) w.db.capabilities)
              unlocks;
        has_key = key;
      })
