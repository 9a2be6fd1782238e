-- ===== src/Documents/Listing.antt =====
-- The list of app/routers/documents.py when no session is given: a loop over the sessions that have
-- a workspace, which catches the answer of the guard.
use tax_return_ai.Base.{
  ℕ, Bool, false, ◌≡◌, inl, inr, refl, ap, ◌∙◌, String, Option, none, some, List, [], ◌∷◌, ok,
  is_some, if◌then◌else◌, select, map, All, arith, by_key, keep_if, Option-cases, All-of_IsIn,
  IsIn-by_key,
}
use tax_return_ai.Models.Account.{User}
use tax_return_ai.Models.Tax.{TaxSession}
use tax_return_ai.Models.World.{World}
use tax_return_ai.Scope.{workspace_key, session_key, owned_by, check_scope}
use tax_return_ai.Scope.Laws.{
  IsKeyed, require_owned_session-row, check_scope-some, check_scope-refused,
}
use tax_return_ai.Documents.Routes.{try_session, accessible_ids, page_of_sessions, list_documents}

abbrev owns_workspace : User → World → Option ℕ → Bool
owns_workspace user w none = false
owns_workspace user w (some i) =
    is_some (keep_if (owned_by user.id) (by_key workspace_key i w.db.workspaces))

-- Whether a workspace of the user has the session.
abbrev pub owns_session : User → World → TaxSession → Bool
owns_session user w s = owns_workspace user w s.workspace_id

abbrev pub owned_ids : User → World → List TaxSession → List ℕ
owned_ids user w sessions = map (λ s. s.id) (select (owns_session user w) sessions)

pub rows_of :
    (w : World)
    → IsKeyed w
    → All (λ s. by_key session_key s.id w.db.tax_sessions ≡ some s) w.db.tax_sessions
rows_of w k =
    All-of_IsIn (λ s. by_key session_key s.id w.db.tax_sessions ≡ some s) w.db.tax_sessions
      (λ s i. IsIn-by_key session_key s w.db.tax_sessions k.sessions_distinct i)

module _ (financial_year_of : String → String) where
  try_session-owned :
      (user : User) (s : TaxSession) (i : ℕ) (w : World)
      → IsKeyed w
      → by_key session_key s.id w.db.tax_sessions ≡ some s
      → s.workspace_id ≡ some i
      → try_session financial_year_of user s.id w
        ≡ (ok (if owns_session user w s then some s else none), w)
  unfolding try_session
  try_session-owned user s i w k row e =
      let checked =
        require_owned_session-row financial_year_of user s s.id w k row
        ∙ ap (λ o. check_scope financial_year_of user s o w) e in
      elim (Option-cases (keep_if (owned_by user.id) (by_key workspace_key i w.db.workspaces))) [
        | inl n ↦
            ground (arith, e, n, checked ∙ check_scope-refused financial_year_of user s i w k n)
        | inr (ws, f) ↦
            ground (arith, e, f, checked ∙ check_scope-some financial_year_of user s i ws w k f)
      ]

  accessible_ids-owned :
      (user : User) (sessions : List TaxSession) (w : World)
      → IsKeyed w
      → All (λ s. by_key session_key s.id w.db.tax_sessions ≡ some s) sessions
      → accessible_ids financial_year_of user (select (λ s. is_some s.workspace_id) sessions) w
        ≡ (ok (owned_ids user w sessions), w)
  unfolding accessible_ids
  accessible_ids-owned user [] w k rows = refl
  accessible_ids-owned user (s ∷ sessions) w k rows = elim (Option-cases s.workspace_id) [
    | inl n ↦ ground (arith, n, accessible_ids-owned user sessions w k rows.1)
    | inr (i, e) ↦ ground (
      arith,
      e,
      try_session-owned user s i w k rows.0 e,
      accessible_ids-owned user sessions w k rows.1,
    )
  ]

  pub list_documents-owned :
      (user : User) (offset limit : ℕ) (w : World)
      → IsKeyed w
      → list_documents financial_year_of user 0 offset limit w ≡ (
        ok (page_of_sessions financial_year_of offset limit (owned_ids user w w.db.tax_sessions) w),
        w,
      )
  unfolding list_documents
  list_documents-owned user offset limit w k =
      ground (arith, accessible_ids-owned user w.db.tax_sessions w k (rows_of w k))
