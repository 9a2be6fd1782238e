-- ===== src/Auth/Account/Recovery.antt =====
-- What `recovery_reset_password` of app/services/auth/service.py does to the sessions that were
-- open before it.
use tax_return_ai.Models.Leads.{Result-cases, Leads, bind-Leads, bind-Keeps}
use tax_return_ai.Base.{
  ℕ, ◌+◌, query, scalar_one_or_none, select, ◌≡◌, refl, sym, ap, ◌∙◌, subst, Option, none, some, [],
  ◌∷◌, ◌++◌, ◌==◌, if◌then◌else◌, Result, ok, ◌>>=◌, ◌>>◌, pure, modify, arith, by_key, map_some,
  by_key-update_where, DistinctBy-update_where, DistinctBy-append, find-append, Option-cases,
  Bool-cases, inl, inr,
}
use tax_return_ai.Config.{Settings, timedelta, effective_session_absolute_timeout_seconds}
use tax_return_ai.Models.Account.{User, AuthSession}
use tax_return_ai.Models.Audit.{text}
use tax_return_ai.Models.World.{World, Service, uuid4}
use tax_return_ai.Audit.{write_audit}
use tax_return_ai.Text.{Text}
use tax_return_ai.Security.Capability.{
  token_hash, revoke_capabilities_for_user, unrevoked_of, revoke_at,
}
use tax_return_ai.Auth.Password.{validate_master_password}
use tax_return_ai.Auth.Crypto.{Crypto, verify_hash_any_kdf, unwrap_dek, derive_kek}
use tax_return_ai.Auth.Sessions.{
  Request, epoch_of, active_user, user_key, session_hash, set_sessions, create_session, is_user,
  resolve_session,
}
use tax_return_ai.Auth.Sessions.Resolve.{IsWellFormed, user_of}
use tax_return_ai.Auth.Account.{
  Entropy, reset_row, open_session_of, close_at, reset_account, recovery_reset_password, open_key,
  open_capability,
}
use tax_return_ai.Auth.Account.Closed.{
  IsClosed, IsClosed-resolve, write_audit-IsClosed, open_capability-IsClosed, open_key-IsClosed,
}

-- The row of the hash is revoked, and the hash of the new token is not yet in the table.
record IsReady (h n : ℕ) (w : World) : Type 0 where
  closed : IsClosed h w
  is_new : by_key session_hash n w.db.auth_sessions ≡ none

module _ (c : Crypto) (s : Settings) (h : ℕ) where
  abbrev new_session : ℕ → ℕ → ℕ → Request → Option User → ℕ → AuthSession
  new_session now user_id token request user id = record {
    id = id;
    user_id = user_id;
    session_token_hash = c.sha256_hex token;
    created_at = now;
    expires_at = now + timedelta (effective_session_absolute_timeout_seconds s);
    revoked_at = none;
    last_seen_at = now;
    user_agent = request.user_agent;
    ip_hash = if request.client_ip == 0 then none else some (c.sha256_hex request.client_ip);
    key_epoch = epoch_of user;
  }

  -- The steps of `create_session` after its query, and those of the reset after the first four.
  abbrev add_session : ℕ → ℕ → ℕ → Request → Option User → Service (ℕ × ℕ)
  add_session now user_id token request user = do
    id ← uuid4
    modify (set_sessions (λ rows. rows ++ new_session now user_id token request user id ∷ []))
    pure (token, now + timedelta (effective_session_absolute_timeout_seconds s))

  abbrev unlocked_note : ℕ → User → User → ℕ × ℕ → Service (User × ℕ × ℕ)
  unlocked_note now user v made = do
    write_audit now "user" user.id "workspace_unlocked" (("reason", text "recovery_reset") ∷ [])
    pure (v, made.0, made.1)

  abbrev noted : ℕ → User → User → ℕ × ℕ → Service (User × ℕ × ℕ)
  noted now user v made = do
    write_audit now "user" user.id "recovery_reset_completed" []
    unlocked_note now user v made

  abbrev reopened_key : ℕ → ℕ → User → User → ℕ × ℕ → Service (User × ℕ × ℕ)
  reopened_key now dek user v made = do open_key c s now v made.0 dek made.1; noted now user v made

  abbrev reopened : ℕ → ℕ → User → User → ℕ × ℕ → Service (User × ℕ × ℕ)
  reopened now dek user v made = do
    open_capability c s now v made.0
    reopened_key now dek user v made

  abbrev reopen : ℕ → ℕ → User → User → ℕ → Request → Service (User × ℕ × ℕ)
  reopen now dek user v token request = do
    made ← create_session c s now user.id request token
    reopened now dek user v made

  -- The new session is added to the table, under another hash.
  create_session-IsClosed :
      (now user_id token : ℕ) (request : Request)
      → Leads
          (IsReady h (c.sha256_hex token))
          (IsClosed h)
          (create_session c s now user_id request token)
  unfolding create_session
  create_session-IsClosed now user_id token request =
      bind-Leads (IsReady h (c.sha256_hex token)) (IsReady h (c.sha256_hex token)) (IsClosed h)
        (query (λ w. scalar_one_or_none (select (is_user user_id) w.db.users)))
        (add_session now user_id token request) (λ w i. i.closed) (λ w i. i)
        (λ user w i. record {
          well_formed = record {
            users_distinct = i.closed.well_formed.users_distinct;
            sessions_distinct =
                DistinctBy-append session_hash
                  (new_session now user_id token request user w.next_id) w.db.auth_sessions
                  i.closed.well_formed.sessions_distinct i.is_new;
            capabilities_distinct = i.closed.well_formed.capabilities_distinct;
          };
          row = i.closed.row;
          is_row = ground (
            arith,
            i.closed.is_row,
            find-append (λ a. session_hash a == h) w.db.auth_sessions
                (new_session now user_id token request user w.next_id ∷ []),
          );
          is_revoked = i.closed.is_revoked;
        })

  rest-IsClosed :
      (now dek : ℕ) (user v : User) (token : ℕ) (request : Request)
      → Leads (IsReady h (c.sha256_hex token)) (IsClosed h) (reopen now dek user v token request)
  rest-IsClosed now dek user v token request =
      bind-Leads (IsReady h (c.sha256_hex token)) (IsClosed h) (IsClosed h)
        (create_session c s now user.id request token) (reopened now dek user v) (λ w i. i)
        (create_session-IsClosed now user.id token request)
        (λ made.
          bind-Keeps (IsClosed h) (open_capability c s now v made.0)
            (λ x. reopened_key now dek user v made) (open_capability-IsClosed c s h now v made.0)
            (λ x.
              bind-Keeps (IsClosed h) (open_key c s now v made.0 dek made.1)
                (λ y. noted now user v made) (open_key-IsClosed c s h now v made.0 dek made.1)
                (λ y.
                  bind-Keeps (IsClosed h)
                    (write_audit now "user" user.id "recovery_reset_completed" [])
                    (λ z. unlocked_note now user v made)
                    (write_audit-IsClosed c s h now user.id "user" "recovery_reset_completed" [])
                    (λ z.
                      bind-Keeps (IsClosed h)
                        (write_audit now "user" user.id "workspace_unlocked"
                          (("reason", text "recovery_reset") ∷ []))
                        (λ x. pure (v, made.0, made.1))
                        (write_audit-IsClosed c s h now user.id "user" "workspace_unlocked"
                          (("reason", text "recovery_reset") ∷ []))
                        (λ x w i. i)))))

  reset_account-IsClosed :
      (now : ℕ) (password : Text) (request : Request) (r : Entropy) (user : User) (dek : ℕ)
      (a : AuthSession) (w : World)
      → IsWellFormed w
      → by_key session_hash h w.db.auth_sessions ≡ some a
      → a.user_id ≡ user.id
      → by_key session_hash (c.sha256_hex r.token) w.db.auth_sessions ≡ none
      → IsClosed h (reset_account c s now password request r user dek w).1
  unfolding reset_account revoke_capabilities_for_user
  reset_account-IsClosed now password request r user dek a w wf e own fresh =
      let q = open_session_of c s user.id in
      let close = close_at c s now in
      let found =
        λ (k : ℕ). by_key-update_where session_hash q close (λ x. refl) k w.db.auth_sessions in
      rest-IsClosed now dek user (reset_row c s now password dek r user) r.token request _ (record {
        closed = record {
          well_formed = record {
            users_distinct =
                DistinctBy-update_where user_key (λ u. u.id == user.id)
                  (reset_row c s now password dek r) (λ x. refl) w.db.users wf.users_distinct;
            sessions_distinct =
                DistinctBy-update_where session_hash q close (λ x. refl) w.db.auth_sessions
                  wf.sessions_distinct;
            capabilities_distinct =
                DistinctBy-update_where token_hash (unrevoked_of user.id) (revoke_at now)
                  (λ x. refl) w.db.capabilities wf.capabilities_distinct;
          };
          row = if q a then close a else a;
          is_row = found h ∙ ap (map_some (λ x. if q x then close x else x)) e;
          is_revoked = ground (arith, own);
        };
        is_new =
            found (c.sha256_hex r.token) ∙ ap (map_some (λ x. if q x then close x else x)) fresh;
      })

module _ (c : Crypto) (s : Settings) where
  -- A successful reset is the reset of the active user's account.
  recovery_reset_password_lem :
      (now : ℕ) (recovery_key password : Text) (request : Request) (r : Entropy) (user : User)
      (v : User × ℕ × ℕ) (w : World)
      → active_user w ≡ some user
      → (recovery_reset_password c s now recovery_key password request r w).0 ≡ ok v
      → (dek : ℕ) × (recovery_reset_password c s now recovery_key password request r w
          ≡ reset_account c s now password request r user dek w)
  unfolding recovery_reset_password
  recovery_reset_password_lem now recovery_key password request r user v w e f =
      elim (Option-cases (validate_master_password password)) [
        | inr (m, p) ↦ absurd (ground (arith, p, f))
        | inl p ↦
            elim (Bool-cases
              (verify_hash_any_kdf c recovery_key user.recovery_key_salt
                user.recovery_key_hash).0) [
                  | inr b ↦ absurd (ground (arith, p, e, b, f))
                  | inl b ↦ elim (Option-cases user.encrypted_dek_by_recovery) [
                    | inl n ↦ absurd (ground (arith, p, e, b, n, f))
                    | inr (wrapped, n) ↦
                        elim (Result-cases (
                          unwrap_dek c wrapped (
                            derive_kek c recovery_key user.recovery_key_salt
                              (verify_hash_any_kdf c recovery_key user.recovery_key_salt
                                user.recovery_key_hash).1))) [
                                  | inl (dek, o) ↦ (dek, ground (arith, p, e, b, n, o))
                                  | inr (x, o) ↦ absurd (ground (arith, p, e, b, n, o, f))
                                ]
                  ]
                ]
      ]

  -- In a world whose users, sessions and capabilities have unique keys, after a reset with the
  -- recovery key that succeeds, the token of any session row of the active user resolves to
  -- nobody, at any time; the hash of the token that the reset draws is assumed to be new.
  pub recovery_reset_password-resolve :
      (now t token : ℕ) (recovery_key password : Text) (request : Request) (r : Entropy)
      (a : AuthSession) (user : User) (v : User × ℕ × ℕ) (w : World)
      → IsWellFormed w
      → active_user w ≡ some user
      → by_key session_hash (c.sha256_hex token) w.db.auth_sessions ≡ some a
      → a.user_id ≡ user.id
      → by_key session_hash (c.sha256_hex r.token) w.db.auth_sessions ≡ none
      → (recovery_reset_password c s now recovery_key password request r w).0 ≡ ok v
      → user_of
          (resolve_session c s t token
            (recovery_reset_password c s now recovery_key password request r w).1).0
        ≡ none
  recovery_reset_password-resolve now t token recovery_key password request r a user v w wf e row
        own fresh f =
      let (dek, same) =
        recovery_reset_password_lem now recovery_key password request r user v w e f in
      IsClosed-resolve c s (c.sha256_hex token) t token
        (recovery_reset_password c s now recovery_key password request r w).1 refl
        (subst (λ (p : Result (User × ℕ × ℕ) × World). IsClosed (c.sha256_hex token) p.1) (sym same)
          (reset_account-IsClosed c s (c.sha256_hex token) now password request r user dek a w wf
            row own fresh))
