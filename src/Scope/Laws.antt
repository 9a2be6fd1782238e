-- ===== src/Scope/Laws.antt =====
-- The isolation of users that app/db/workspace_scope.py gives.
use tax_return_ai.Base.{
  ℕ, ◌≡◌, ◌≢◌, inl, inr, refl, sym, ap, ◌∙◌, subst, true, String, Option, none, some, List, [], ◌∷◌,
  leb, ◌==◌, select, All, find, http, ok, err, arith, DistinctBy, by_key, keep_if, scalar-select,
  scalar-select_and, by_key-update_key, DistinctBy-update_where, IsIn-by_key, key_eq,
  keep_if-by_key, All-of_IsIn, All-select, first-All, find-All, find_sound, Bool-cases,
  Option-cases, Result,
}
use tax_return_ai.Models.Account.{User, TaxWorkspace}
use tax_return_ai.Models.Tax.{TaxSession, TaxItem}
use tax_return_ai.Models.World.{World}
use tax_return_ai.Scope.{
  workspace_key, session_key, item_key, owned_by, get_workspace_for_user, insert_oldest,
  oldest_first, mapped_workspace, same_year, moved_to, adopt, check_scope, has_session_id,
  require_owned_session, require_owned_item,
}

-- The primary keys of the two tables are unique.
pub record IsKeyed (w : World) : Type 0 where
  pub workspaces_distinct : DistinctBy workspace_key w.db.workspaces
  pub sessions_distinct : DistinctBy session_key w.db.tax_sessions

-- The session belongs to a workspace of the user.
pub record IsOwned (user_id : ℕ) (w : World) (s : TaxSession) : Type 0 where
  pub workspace : TaxWorkspace
  pub is_row : by_key workspace_key workspace.id w.db.workspaces ≡ some workspace
  pub same_user : workspace.user_id ≡ user_id
  pub in_workspace : s.workspace_id ≡ some workspace.id

module _ (P : TaxWorkspace → Type 0) where
  All-insert_oldest :
      (a : TaxWorkspace) (bs : List TaxWorkspace) → P a → All P bs → All P (insert_oldest a bs)
  All-insert_oldest a [] p all = (p, tt)
  All-insert_oldest a (b ∷ bs) p all = elim (Bool-cases (leb a.created_at b.created_at)) [
    | inl e ↦ rw e (p, (all.0, all.1))
    | inr e ↦ rw e (all.0, All-insert_oldest a bs p all.1)
  ]

  All-oldest_first : (as' : List TaxWorkspace) → All P as' → All P (oldest_first as')
  All-oldest_first [] all = tt
  All-oldest_first (a ∷ rest) all =
      All-insert_oldest a (oldest_first rest) all.0 (All-oldest_first rest all.1)

get_workspace-owned :
    (user : User) (workspace_id : ℕ) (w : World)
    → IsKeyed w
    → get_workspace_for_user user workspace_id w ≡ (
      (elim (keep_if (owned_by user.id) (by_key workspace_key workspace_id w.db.workspaces)) [
        | none ↦ err (http 404 "Workspace not found")
        | some ws ↦ ok ws
      ]),
      w,
    )
unfolding get_workspace_for_user
get_workspace-owned user workspace_id w k = ground (
  arith,
  scalar-select_and workspace_key (owned_by user.id) workspace_id w.db.workspaces
      k.workspaces_distinct,
)

module _ (financial_year_of : String → String) where
  -- A workspace that a session without one is mapped to is one of the user's own.
  mapped_workspace-owned :
      (user : User) (s : TaxSession) (ws : TaxWorkspace) (w : World)
      → IsKeyed w
      → mapped_workspace financial_year_of s
          (oldest_first (select (owned_by user.id) w.db.workspaces))
        ≡ some ws
      → (by_key workspace_key ws.id w.db.workspaces ≡ some ws) × (owned_by user.id ws ≡ true)
  mapped_workspace-owned user s ws w k e =
      let P = λ (x : TaxWorkspace).
        (by_key workspace_key x.id w.db.workspaces ≡ some x) × (owned_by user.id x ≡ true) in
      let rows = oldest_first (select (owned_by user.id) w.db.workspaces) in
      let all : All P rows = All-oldest_first P (select (owned_by user.id) w.db.workspaces) (
        All-select (λ x. by_key workspace_key x.id w.db.workspaces ≡ some x) (owned_by user.id)
          w.db.workspaces
          (All-of_IsIn (λ x. by_key workspace_key x.id w.db.workspaces ≡ some x) w.db.workspaces
            (λ x i. IsIn-by_key workspace_key x w.db.workspaces k.workspaces_distinct i))) in
      elim (Option-cases (find (same_year financial_year_of s) rows)) [
        | inl n ↦ first-All P rows ws all (rw n at e)
        | inr (x, f) ↦ find-All P (same_year financial_year_of s) rows ws all (f ∙ (rw f at e))
      ]

  pub check_scope-some :
      (user : User) (s : TaxSession) (i : ℕ) (ws : TaxWorkspace) (w : World)
      → IsKeyed w
      → keep_if (owned_by user.id) (by_key workspace_key i w.db.workspaces) ≡ some ws
      → check_scope financial_year_of user s (some i) w ≡ (ok s, w)
  unfolding check_scope
  check_scope-some user s i ws w k e = ground (arith, e, get_workspace-owned user i w k)

  pub check_scope-refused :
      (user : User) (s : TaxSession) (i : ℕ) (w : World)
      → IsKeyed w
      → keep_if (owned_by user.id) (by_key workspace_key i w.db.workspaces) ≡ none
      → check_scope financial_year_of user s (some i) w ≡ (err (http 404 "Workspace not found"), w)
  unfolding check_scope
  check_scope-refused user s i w k e = ground (arith, e, get_workspace-owned user i w k)

  check_scope-none :
      (user : User) (s : TaxSession) (w : World)
      → check_scope financial_year_of user s none w
        ≡ adopt financial_year_of s
            (mapped_workspace financial_year_of s
              (oldest_first (select (owned_by user.id) w.db.workspaces)))
            w
  unfolding check_scope
  check_scope-none user s w = refl

  -- The answer of a check, and the world that it leaves.
  abbrev pub IsScoped : User → ℕ → List TaxWorkspace → World → TaxSession → Type 0
  IsScoped user session_id workspaces w t =
      IsOwned user.id w t
      × (by_key session_key session_id w.db.tax_sessions ≡ some t)
      × (w.db.workspaces ≡ workspaces)
      × IsKeyed w

  IsScoped-answer :
      (user : User) (session_id : ℕ) (workspaces : List TaxWorkspace) (s t : TaxSession)
      (p : Result TaxSession × World) (w : World)
      → p ≡ (ok s, w)
      → p.0 ≡ ok t
      → IsScoped user session_id workspaces w s
      → IsScoped user session_id workspaces p.1 t
  IsScoped-answer user session_id workspaces s t p w e f scoped =
      subst (λ (q : World). IsScoped user session_id workspaces q t) (sym (ap (λ q. q.1) e))
        (subst (IsScoped user session_id workspaces w) (ground (arith, e, f)) scoped)

  IsScoped-adopt :
      (user : User) (s t : TaxSession) (o : Option TaxWorkspace) (w : World)
      → IsKeyed w
      → by_key session_key s.id w.db.tax_sessions ≡ some s
      → ((ws : TaxWorkspace)
          → o ≡ some ws
          → (by_key workspace_key ws.id w.db.workspaces ≡ some ws) × (owned_by user.id ws ≡ true))
      → (adopt financial_year_of s o w).0 ≡ ok t
      → IsScoped user s.id w.db.workspaces (adopt financial_year_of s o w).1 t
  unfolding adopt
  IsScoped-adopt user s t none w k row owned e = absurd (ground (arith, e))
  IsScoped-adopt user s t (some ws) w k row owned e =
      subst (IsScoped user s.id w.db.workspaces (adopt financial_year_of s (some ws) w).1)
        {x = moved_to financial_year_of ws.id s} (ground (arith, e))
        (
          record {
            workspace = ws;
            is_row = (owned ws refl).0;
            same_user = ground (arith, owned ws refl);
            in_workspace = refl;
          },
          ground (
            arith,
            row,
            by_key-update_key session_key (moved_to financial_year_of ws.id) (λ x. refl) s.id s.id
                w.db.tax_sessions,
          ),
          refl,
          record {
            workspaces_distinct = k.workspaces_distinct;
            sessions_distinct =
                DistinctBy-update_where session_key (has_session_id financial_year_of s.id)
                  (moved_to financial_year_of ws.id) (λ x. refl) w.db.tax_sessions
                  k.sessions_distinct;
          },
        )

  check_scope-IsScoped :
      (user : User) (s t : TaxSession) (o : Option ℕ) (w : World)
      → IsKeyed w
      → s.workspace_id ≡ o
      → by_key session_key s.id w.db.tax_sessions ≡ some s
      → (check_scope financial_year_of user s o w).0 ≡ ok t
      → IsScoped user s.id w.db.workspaces (check_scope financial_year_of user s o w).1 t
  unfolding check_scope
  check_scope-IsScoped user s t none w k o row e =
      IsScoped-adopt user s t _ w k row (λ ws f. mapped_workspace-owned user s ws w k f) e
  check_scope-IsScoped user s t (some i) w k o row e =
      elim (Option-cases (keep_if (owned_by user.id) (by_key workspace_key i w.db.workspaces))) [
        | inl n ↦ absurd (ground (arith, check_scope-refused user s i w k n, e))
        | inr (ws, f) ↦
            let (found, same, own) =
              keep_if-by_key workspace_key (owned_by user.id) i ws w.db.workspaces f in
            IsScoped-answer user s.id w.db.workspaces s t _ w (check_scope-some user s i ws w k f) e
              (
                record {
                  workspace = ws;
                  is_row = found;
                  same_user = ground (arith, own);
                  in_workspace = o ∙ ap some (sym same);
                },
                row,
                refl,
                k,
              )
      ]

  pub require_owned_session-row :
      (user : User) (s : TaxSession) (session_id : ℕ) (w : World)
      → IsKeyed w
      → by_key session_key session_id w.db.tax_sessions ≡ some s
      → require_owned_session financial_year_of user session_id w
        ≡ check_scope financial_year_of user s s.workspace_id w
  unfolding require_owned_session
  require_owned_session-row user s session_id w k e =
      ground (arith, e, scalar-select session_key session_id w.db.tax_sessions k.sessions_distinct)

  require_owned_session-no_row :
      (user : User) (session_id : ℕ) (w : World)
      → IsKeyed w
      → by_key session_key session_id w.db.tax_sessions ≡ none
      → require_owned_session financial_year_of user session_id w
        ≡ (err (http 404 "Session not found"), w)
  unfolding require_owned_session
  require_owned_session-no_row user session_id w k e =
      ground (arith, e, scalar-select session_key session_id w.db.tax_sessions k.sessions_distinct)

  -- If the keys of the workspaces and the sessions are unique, a user who passes the check for a
  -- session gets one that belongs to a workspace of theirs; the table holds the session as it was
  -- answered, the workspaces are unchanged, and the keys are still unique.
  pub require_owned_session-IsOwned :
      (user : User) (t : TaxSession) (session_id : ℕ) (w : World)
      → IsKeyed w
      → (require_owned_session financial_year_of user session_id w).0 ≡ ok t
      → IsScoped user session_id w.db.workspaces
          (require_owned_session financial_year_of user session_id w).1
          t
  require_owned_session-IsOwned user t session_id w k e =
      elim (Option-cases (by_key session_key session_id w.db.tax_sessions)) [
        | inl n ↦ absurd (ground (arith, require_owned_session-no_row user session_id w k n, e))
        | inr (s, f) ↦
            let same =
              key_eq session_key session_id s
                (find_sound (λ x. session_key x == session_id) w.db.tax_sessions s f) in
            let checked = require_owned_session-row user s session_id w k f in
            let row = subst (λ i. by_key session_key i w.db.tax_sessions ≡ some s) (sym same) f in
            let scoped =
              check_scope-IsScoped user s t s.workspace_id w k refl row
                (ap (λ p. p.0) (sym checked) ∙ e) in
            subst
              (λ i.
                IsScoped user i w.db.workspaces
                  (require_owned_session financial_year_of user session_id w).1 t)
              same
              (subst (λ p. IsScoped user s.id w.db.workspaces p t) (ap (λ p. p.1) (sym checked))
                scoped)
      ]

  pub require_owned_session-foreign :
      (v : User) (owner session_id : ℕ) (t : TaxSession) (w : World)
      → IsKeyed w
      → by_key session_key session_id w.db.tax_sessions ≡ some t
      → IsOwned owner w t
      → v.id ≢ owner
      → require_owned_session financial_year_of v session_id w
        ≡ (err (http 404 "Workspace not found"), w)
  require_owned_session-foreign v owner session_id t w k row o differ =
      require_owned_session-row v t session_id w k row
      ∙ ap (λ i. check_scope financial_year_of v t i w) o.in_workspace
      ∙ check_scope-refused v t o.workspace.id w k (ground (arith, o.is_row, o.same_user, differ))

  -- If the keys of the workspaces and the sessions are unique and one user has passed the check
  -- for a session, another user who asks for it in the world that this leaves gets 404 and
  -- changes nothing.
  pub require_owned_session-exclusive :
      (user v : User) (t : TaxSession) (session_id : ℕ) (w : World)
      → IsKeyed w
      → (require_owned_session financial_year_of user session_id w).0 ≡ ok t
      → v.id ≢ user.id
      → let w' = (require_owned_session financial_year_of user session_id w).1 in
        require_owned_session financial_year_of v session_id w'
        ≡ (err (http 404 "Workspace not found"), w')
  require_owned_session-exclusive user v t session_id w k e differ =
      let (owned, row, _, k') = require_owned_session-IsOwned user t session_id w k e in
      require_owned_session-foreign v user.id session_id t
        (require_owned_session financial_year_of user session_id w).1 k' row owned differ

  -- If the keys of the workspaces, the sessions and the items are unique, an item whose session
  -- belongs to a workspace of another user is answered with 404, and nothing changes.
  require_owned_item-foreign :
      (v : User) (owner : ℕ) (item : TaxItem) (t : TaxSession) (w : World)
      → IsKeyed w
      → DistinctBy item_key w.db.items
      → by_key item_key item.id w.db.items ≡ some item
      → by_key session_key item.session_id w.db.tax_sessions ≡ some t
      → IsOwned owner w t
      → v.id ≢ owner
      → require_owned_item financial_year_of v item.id w ≡ (err (http 404 "Workspace not found"), w)
  unfolding require_owned_item
  require_owned_item-foreign v owner item t w k d e row o differ = ground (
    arith,
    e,
    scalar-select item_key item.id w.db.items d,
    require_owned_session-foreign v owner item.session_id t w k row o differ,
  )
