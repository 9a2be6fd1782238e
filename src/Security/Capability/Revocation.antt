-- ===== src/Security/Capability/Revocation.antt =====
-- unlock_capability.py: what the two revocations do to the capabilities.
use tax_return_ai.Base.{
  ℕ, ◌≡◌, ◌≢◌, inl, inr, refl, Bool, true, Option, none, some, List, [], ◌∷◌, ◌==◌, or_else,
  if◌then◌else◌, update_where, ok, arith, DistinctBy, by_key, scalar-select, by_key-update_where,
  by_key-update_key, DistinctBy-update_where, map_some, Option-cases, sym, subst,
}
use tax_return_ai.Config.{Settings}
use tax_return_ai.Models.Account.{User, AuthSession, UnlockCapability}
use tax_return_ai.Models.World.{World}
use tax_return_ai.Security.Capability.{
  set_capabilities, token_hash, has_hash, validate_unlock_capability, revoke_at,
  revoke_capability_for_session, unrevoked_of, revoke_capabilities_for_user,
}
use tax_return_ai.Security.Capability.Laws.{Unlocks, IsUnique, validate_unlock_capability-ok_true}

-- A table without the key is not changed by an update of its rows.
update_absent :
    (f : UnlockCapability → UnlockCapability) (h : ℕ) (cs : List UnlockCapability)
    → by_key token_hash h cs ≡ none
    → update_where (has_hash h) f cs ≡ cs
update_absent f h [] e = refl
update_absent f h (c ∷ cs) e = ground (arith, update_absent f h cs)

-- Revoking writes the row of the token hash, if there is one.
pub capabilities-revoke :
    (now h : ℕ) (revoked_at : Option ℕ) (w : World)
    → IsUnique w
    → (revoke_capability_for_session now h revoked_at w).1.db.capabilities
      ≡ update_where (has_hash h) (revoke_at (or_else revoked_at now)) w.db.capabilities
unfolding revoke_capability_for_session
capabilities-revoke now h revoked_at w d =
    elim (Option-cases (by_key token_hash h w.db.capabilities)) [
      | inl e ↦ ground (
        arith,
        e,
        scalar-select token_hash h w.db.capabilities d,
        update_absent (revoke_at (or_else revoked_at now)) h w.db.capabilities,
      )
      | inr (c, e) ↦ ground (arith, e, scalar-select token_hash h w.db.capabilities d)
    ]

not-Unlocks_revoked :
    (t at : ℕ) (user : User) (session : AuthSession) (o : Option UnlockCapability)
    → ¬ Unlocks t user session (map_some (revoke_at at) o)
not-Unlocks_revoked t at user session none u = u
not-Unlocks_revoked t at user session (some c) u = ground (arith, u.not_revoked)

pub revoke_capability_for_session-IsUnique :
    (now h : ℕ) (revoked_at : Option ℕ) (w : World)
    → IsUnique w
    → IsUnique (revoke_capability_for_session now h revoked_at w).1
revoke_capability_for_session-IsUnique now h revoked_at w d =
    subst (DistinctBy token_hash) (sym (capabilities-revoke now h revoked_at w d)) (
      DistinctBy-update_where token_hash (has_hash h) (revoke_at (or_else revoked_at now))
        (λ x. refl) w.db.capabilities d)

pub by_key-revoke_capability_for_session :
    (now h j : ℕ) (revoked_at : Option ℕ) (w : World)
    → IsUnique w
    → by_key token_hash j (revoke_capability_for_session now h revoked_at w).1.db.capabilities ≡ (
        if h == j
        then map_some (revoke_at (or_else revoked_at now)) (by_key token_hash j w.db.capabilities)
        else by_key token_hash j w.db.capabilities)
by_key-revoke_capability_for_session now h j revoked_at w d =
    rw (capabilities-revoke now h revoked_at w d) (
      by_key-update_key token_hash (revoke_at (or_else revoked_at now)) (λ x. refl) h j
        w.db.capabilities)

-- If the token hashes of the capabilities are unique, a token hash whose capability has been
-- revoked unlocks nothing, for any user and session at any time.
pub revoke-validate :
    (s : Settings) (now t h : ℕ) (revoked_at : Option ℕ) (user : User) (session : AuthSession)
    (touch : Bool) (w : World)
    → IsUnique w
    → (validate_unlock_capability s t user session h touch
        (revoke_capability_for_session now h revoked_at w).1).0
      ≢ ok true
revoke-validate s now t h revoked_at user session touch w d valid =
    let w' = (revoke_capability_for_session now h revoked_at w).1 in
    not-Unlocks_revoked t (or_else revoked_at now) user session
      (by_key token_hash h w.db.capabilities)
      (subst (Unlocks t user session)
        (ground (arith, by_key-revoke_capability_for_session now h h revoked_at w d))
        ((validate_unlock_capability-ok_true s t user session h touch w'
            (revoke_capability_for_session-IsUnique now h revoked_at w d)).0
          valid))

pub by_key-revoke_capabilities_for_user :
    (now u j : ℕ) (revoked_at : Option ℕ) (w : World)
    → by_key token_hash j (revoke_capabilities_for_user now u revoked_at w).1.db.capabilities
      ≡ map_some
          (λ c. if unrevoked_of u c then revoke_at (or_else revoked_at now) c else c)
          (by_key token_hash j w.db.capabilities)
unfolding revoke_capabilities_for_user
by_key-revoke_capabilities_for_user now u j revoked_at w =
    by_key-update_where token_hash (unrevoked_of u) (revoke_at (or_else revoked_at now)) (λ x. refl)
      j w.db.capabilities

pub revoke_capabilities_for_user-IsUnique :
    (now u : ℕ) (revoked_at : Option ℕ) (w : World)
    → IsUnique w
    → IsUnique (revoke_capabilities_for_user now u revoked_at w).1
unfolding revoke_capabilities_for_user
revoke_capabilities_for_user-IsUnique now u revoked_at w d =
    DistinctBy-update_where token_hash (unrevoked_of u) (revoke_at (or_else revoked_at now))
      (λ x. refl) w.db.capabilities d

not-Unlocks_user :
    (t at u : ℕ) (user : User) (session : AuthSession) (o : Option UnlockCapability)
    → user.id ≡ u
    → ¬ Unlocks t user session (map_some (λ c. if unrevoked_of u c then revoke_at at c else c) o)
not-Unlocks_user t at u user session none same n = n
not-Unlocks_user t at u user session (some c) same n = ground (arith, n.same_user, n.not_revoked)

-- If the token hashes of the capabilities are unique, after the capabilities of a user have been
-- revoked no token hash unlocks anything for that user.
pub revoke_user-validate :
    (s : Settings) (now t h u : ℕ) (revoked_at : Option ℕ) (user : User) (session : AuthSession)
    (touch : Bool) (w : World)
    → IsUnique w
    → user.id ≡ u
    → (validate_unlock_capability s t user session h touch
        (revoke_capabilities_for_user now u revoked_at w).1).0
      ≢ ok true
revoke_user-validate s now t h u revoked_at user session touch w d same valid =
    let w' = (revoke_capabilities_for_user now u revoked_at w).1 in
    not-Unlocks_user t (or_else revoked_at now) u user session
      (by_key token_hash h w.db.capabilities) same
      (subst (Unlocks t user session) (by_key-revoke_capabilities_for_user now u h revoked_at w) (
        (validate_unlock_capability-ok_true s t user session h touch w'
            (revoke_capabilities_for_user-IsUnique now u revoked_at w d)).0
          valid))

-- The whole effect of a revocation: it answers, and writes the rows of the token hash.
pub revoke_capability_for_session_lem :
    (now h : ℕ) (revoked_at : Option ℕ) (w : World)
    → IsUnique w
    → revoke_capability_for_session now h revoked_at w
      ≡ (ok tt, set_capabilities (update_where (has_hash h) (revoke_at (or_else revoked_at now))) w)
unfolding revoke_capability_for_session
revoke_capability_for_session_lem now h revoked_at w d =
    elim (Option-cases (by_key token_hash h w.db.capabilities)) [
      | inl e ↦ ground (
        arith,
        e,
        scalar-select token_hash h w.db.capabilities d,
        update_absent (revoke_at (or_else revoked_at now)) h w.db.capabilities,
      )
      | inr (c, e) ↦ ground (arith, e, scalar-select token_hash h w.db.capabilities d)
    ]
