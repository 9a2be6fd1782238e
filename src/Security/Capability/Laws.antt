-- ===== src/Security/Capability/Laws.antt =====
-- unlock_capability.py: which sessions a capability unlocks, and for how long.
use tax_return_ai.Base.{
  ℕ, ◌+◌, ◌≤◌, ◌<◌, ◌≡◌, ◌↔◌, inl, inr, refl, Bool, true, false, Option, none, some, [], ◌∷◌, ◌++◌,
  ltb, ◌&&◌, not, ◌==◌, is_some, or_else, if◌then◌else◌, update_where, ok, arith, DistinctBy,
  by_key, scalar-select, by_key-update_key, ==_iff, DistinctBy-update_where, DistinctBy-append,
  find-append, Option-cases, sym, subst,
}
use tax_return_ai.Config.{
  Settings, timedelta, effective_session_idle_timeout_seconds,
  effective_session_idle_timeout_seconds-min,
}
use tax_return_ai.Models.Account.{User, AuthSession, UnlockCapability}
use tax_return_ai.Models.World.{World, Metrics}
use tax_return_ai.Security.Capability.{
  set_capabilities, capability_ttl_seconds, token_hash, has_hash, renew, issue_unlock_capability,
  check_capability, touched, validate_unlock_capability,
}

-- The lifetime of a capability is between one and fifteen minutes, and never longer than the idle
-- timeout.
pub capability_ttl_seconds_bounds :
    (s : Settings)
    → (60 ≤ capability_ttl_seconds s)
      × (capability_ttl_seconds s ≤ 900)
      × (capability_ttl_seconds s ≤ effective_session_idle_timeout_seconds s)
unfolding capability_ttl_seconds
capability_ttl_seconds_bounds s = omega (arith, effective_session_idle_timeout_seconds-min s)

-- What makes a capability unlock a session of a user.
pub record IsUsable (now : ℕ) (user : User) (session : AuthSession) (c : UnlockCapability)
    : Type 0 where
  pub same_user : c.user_id ≡ user.id
  pub same_session : c.auth_session_id ≡ session.id
  pub not_revoked : c.revoked_at ≡ none
  pub not_expired : now < c.expires_at
  pub user_epoch : user.unlock_epoch ≡ c.key_epoch
  pub session_epoch : session.key_epoch ≡ c.key_epoch

abbrev pub Unlocks : ℕ → User → AuthSession → Option UnlockCapability → Type 0
Unlocks now user session none = ⊥
Unlocks now user session (some c) = IsUsable now user session c

abbrev pub IsUnique : World → Type 0
IsUnique w = DistinctBy token_hash w.db.capabilities

check_capability-ok_true :
    (s : Settings) (now : ℕ) (user : User) (session : AuthSession) (h : ℕ) (touch : Bool)
    (o : Option UnlockCapability) (w : World)
    → ((check_capability s now user session h touch o w).0 ≡ ok true) ↔ Unlocks now user session o
unfolding check_capability
check_capability-ok_true s now user session h touch none w = ground arith
check_capability-ok_true s now user session h touch (some c) w = ground arith

-- If the token hashes of the capabilities are unique, a validation answers yes exactly when the
-- row of the hash belongs to the user and the session, is not revoked, has not expired and
-- carries the epoch of both.
pub validate_unlock_capability-ok_true :
    (s : Settings) (now : ℕ) (user : User) (session : AuthSession) (h : ℕ) (touch : Bool)
    (w : World)
    → IsUnique w
    → ((validate_unlock_capability s now user session h touch w).0 ≡ ok true)
      ↔ Unlocks now user session (by_key token_hash h w.db.capabilities)
unfolding validate_unlock_capability
validate_unlock_capability-ok_true s now user session h touch w d = ground (
  arith,
  scalar-select token_hash h w.db.capabilities d,
  check_capability-ok_true s now user session h touch (by_key token_hash h w.db.capabilities) w,
)

-- The tests of a validation, in one.
usable : ℕ → User → AuthSession → UnlockCapability → Bool
usable now user session c =
    c.user_id == user.id
    && c.auth_session_id == session.id
    && not (is_some c.revoked_at)
    && ltb now c.expires_at
    && user.unlock_epoch == c.key_epoch
    && session.key_epoch == c.key_epoch

-- How often a validation has been refused.
abbrev pub refusals : Metrics → ℕ
refusals m = m.locked_or_missing + m.stale_epoch + m.revoked + m.expired

-- If the token hashes of the capabilities are unique, a validation is never an exception, and it
-- adds one to the sum of the four counters if it answers no and nothing if it answers yes.
pub refusals-validate_unlock_capability :
    (s : Settings) (now : ℕ) (user : User) (session : AuthSession) (h : ℕ) (touch : Bool)
    (w : World)
    → IsUnique w
    → (b : Bool) × ((validate_unlock_capability s now user session h touch w).0 ≡ ok b)
      × (refusals (validate_unlock_capability s now user session h touch w).1.metrics
          ≡ refusals w.metrics + (if b then 0 else 1))
unfolding validate_unlock_capability usable
refusals-validate_unlock_capability s now user session h touch w d =
    elim (Option-cases (by_key token_hash h w.db.capabilities)) [
      | inl e ↦ (
        false,
        ground (arith, scalar-select token_hash h w.db.capabilities d),
        ground (arith, scalar-select token_hash h w.db.capabilities d),
      )
      | inr (c, e) ↦ (
        usable now user session c,
        ground (arith, scalar-select token_hash h w.db.capabilities d),
        ground (arith, scalar-select token_hash h w.db.capabilities d),
      )
    ]

-- The row that an issue leaves for its token hash.
abbrev pub issued_row : Settings → ℕ → User → AuthSession → ℕ → World → UnlockCapability
issued_row s now user session h w =
    renew now (now + timedelta (capability_ttl_seconds s)) user session (
      or_else (by_key token_hash h w.db.capabilities) (record {
        id = w.next_id;
        user_id = user.id;
        auth_session_id = session.id;
        session_token_hash = h;
        key_epoch = user.unlock_epoch;
        expires_at = now;
        last_seen_at = now;
        revoked_at = none;
      }))

module _ (s : Settings) (now : ℕ) (user : User) (session : AuthSession) (h : ℕ) (w : World)
    (d : IsUnique w) where
  issue_new :
      by_key token_hash h w.db.capabilities ≡ none
      → (issue_unlock_capability s now user session h w).1.db.capabilities
        ≡ w.db.capabilities ++ issued_row s now user session h w ∷ []
  unfolding issue_unlock_capability
  issue_new e = ground (arith, scalar-select token_hash h w.db.capabilities d)

  issue_old :
      (c : UnlockCapability)
      → by_key token_hash h w.db.capabilities ≡ some c
      → (issue_unlock_capability s now user session h w).1.db.capabilities
        ≡ update_where
            (has_hash h)
            (renew now (now + timedelta (capability_ttl_seconds s)) user session)
            w.db.capabilities
  unfolding issue_unlock_capability
  issue_old c e = ground (arith, scalar-select token_hash h w.db.capabilities d)

  pub issue_unlock_capability-IsUnique : IsUnique (issue_unlock_capability s now user session h w).1
  issue_unlock_capability-IsUnique = elim (Option-cases (by_key token_hash h w.db.capabilities)) [
    | inl e ↦ subst (DistinctBy token_hash) (sym (issue_new e)) (
        DistinctBy-append token_hash (issued_row s now user session h w) w.db.capabilities d
          (ground (arith, e)))
    | inr (c, e) ↦ subst (DistinctBy token_hash) (sym (issue_old c e)) (
        DistinctBy-update_where token_hash (has_hash h)
          (renew now (now + timedelta (capability_ttl_seconds s)) user session) (λ x. refl)
          w.db.capabilities d)
  ]

  -- After an issue the rows of all other token hashes are as before, and the row of this one is
  -- the renewed one.
  pub by_key-issue_unlock_capability :
      (j : ℕ)
      → by_key token_hash j (issue_unlock_capability s now user session h w).1.db.capabilities ≡ (
          if h == j
          then some (issued_row s now user session h w)
          else by_key token_hash j w.db.capabilities)
  by_key-issue_unlock_capability j = elim (Option-cases (by_key token_hash h w.db.capabilities)) [
    | inl e ↦ rw (issue_new e) (
        ground (
          arith,
          e,
          find-append (λ (x : UnlockCapability). token_hash x == j) w.db.capabilities
              (issued_row s now user session h w ∷ []),
        ))
    | inr (c, e) ↦ rw (issue_old c e) (
        ground (
          arith,
          e,
          by_key-update_key token_hash
              (renew now (now + timedelta (capability_ttl_seconds s)) user session) (λ x. refl) h j
              w.db.capabilities,
          ==_iff h j,
        ))
  ]

-- If the token hashes of the capabilities are unique and the session carries the epoch of the
-- user, a capability that is issued unlocks that session until its lifetime has passed.
issue-validate :
    (s : Settings) (now t : ℕ) (user : User) (session : AuthSession) (h : ℕ) (touch : Bool)
    (w : World)
    → IsUnique w
    → session.key_epoch ≡ user.unlock_epoch
    → t < now + timedelta (capability_ttl_seconds s)
    → (validate_unlock_capability s t user session h touch
        (issue_unlock_capability s now user session h w).1).0
      ≡ ok true
issue-validate s now t user session h touch w d same l =
    let w' = (issue_unlock_capability s now user session h w).1 in
    (validate_unlock_capability-ok_true s t user session h touch w'
        (issue_unlock_capability-IsUnique s now user session h w d)).1
      (subst (Unlocks t user session)
        (sym (by_key-issue_unlock_capability s now user session h w d h)) (ground (arith, l)))

-- The whole effect of a validation that answers yes: it moves the expiry of the capability.
pub validate_unlock_capability-usable :
    (s : Settings) (now : ℕ) (user : User) (session : AuthSession) (h : ℕ) (w : World)
    → IsUnique w
    → Unlocks now user session (by_key token_hash h w.db.capabilities)
    → validate_unlock_capability s now user session h true w ≡ (
      ok true,
      set_capabilities
          (update_where (has_hash h) (touched now (now + timedelta (capability_ttl_seconds s))))
          w,
    )
unfolding validate_unlock_capability
validate_unlock_capability-usable s now user session h w d u =
    elim (Option-cases (by_key token_hash h w.db.capabilities)) [
      | inl e ↦ absurd (subst (Unlocks now user session) e u)
      | inr (c, e) ↦
          let v : IsUsable now user session c = subst (Unlocks now user session) e u in
          ground (arith, e, v, scalar-select token_hash h w.db.capabilities d)
    ]
