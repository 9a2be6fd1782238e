-- ===== src/Workspaces/Entry.antt =====
-- The routes of app/routers/workspaces.py that list and create workspaces, and those that pass a call
-- on to another part: the upload, the compliance review and the route that is switched off.
pub mod Years
pub mod Steps
use tax_return_ai.Base.{
  ℕ, Bool, true, false, ◌&&◌, String, Option, none, some, List, [], ◌∷◌, ◌++◌, ltb, leb, ◌==◌,
  is_some, or_else, select, if◌then◌else◌, scalar_one_or_none, http, ◌>>=◌, ◌>>◌, pure, raise,
  raise_if, modify, query, gets,
}
use tax_return_ai.Config.{Settings}
use tax_return_ai.Models.Account.{User, AuthSession, TaxWorkspace}
use tax_return_ai.Models.JobRow.{Job}
use tax_return_ai.Models.Tax.{Document}
use tax_return_ai.Models.World.{Service, commit, uuid4}
use tax_return_ai.Auth.Account.{seed_default_workspaces}
use tax_return_ai.Auth.Crypto.{Crypto}
use tax_return_ai.Auth.Sessions.{resolve_session}
use tax_return_ai.Documents.{UploadFile, upload_document}
use tax_return_ai.Review.Compliance.{Report, run_compliance_review}
use tax_return_ai.Scope.Bridge.{open_workspace, set_workspaces}
use tax_return_ai.Security.FieldEncryption.{is_empty}
use tax_return_ai.Review.Format.{Format}
use tax_return_ai.Text.{Text, codes, eq_text}

-- The order of texts by their characters.
abbrev pub le_text : Text → Text → Bool
le_text [] t = true
le_text (c ∷ s) [] = false
le_text (c ∷ s) (d ∷ t) = let rest = le_text s t in if c == d then rest else ltb c d

-- `order_by(TaxWorkspace.tax_year.desc(), TaxWorkspace.created_at.desc())`
abbrev pub is_before : TaxWorkspace → TaxWorkspace → Bool
is_before a b =
    if eq_text (codes a.tax_year) (codes b.tax_year)
    then leb b.created_at a.created_at
    else le_text (codes b.tax_year) (codes a.tax_year)

abbrev pub insert_year : TaxWorkspace → List TaxWorkspace → List TaxWorkspace
insert_year a [] = a ∷ []
insert_year a (b ∷ bs) =
    let rest = insert_year a bs in if is_before a b then a ∷ b ∷ bs else b ∷ rest

abbrev pub by_year : List TaxWorkspace → List TaxWorkspace
by_year [] = []
by_year (a ∷ rest) = insert_year a (by_year rest)

unfoldable pub list_workspaces : ℕ → User → Service (List TaxWorkspace)
list_workspaces now user = do
  seed_default_workspaces now user.id
  workspaces ← gets (λ w. by_year (select (λ ws. ws.user_id == user.id) w.db.workspaces))
  modify commit
  pure workspaces

-- The arguments of the request.
pub record WorkspaceCreate : Type 0 where
  pub tax_year : String
  pub label : String

abbrev pub has_year : ℕ → String → TaxWorkspace → Bool
has_year user_id tax_year ws = ws.user_id == user_id && eq_text (codes ws.tax_year) (codes tax_year)

abbrev pub created_workspace : ℕ → ℕ → ℕ → WorkspaceCreate → TaxWorkspace
created_workspace now id user_id payload = record {
  id = id;
  user_id = user_id;
  tax_year = payload.tax_year;
  label = payload.label;
  status = "active";
  created_at = now;
  last_opened_at = some now;
}

unfoldable pub create_workspace : ℕ → User → WorkspaceCreate → Service TaxWorkspace
create_workspace now user payload = do
  existing ←
      query (λ w. scalar_one_or_none (select (has_year user.id payload.tax_year) w.db.workspaces))
  raise_if (is_some existing) (http 409 "Workspace for tax year already exists")
  id ← uuid4
  modify (set_workspaces (λ rows. rows ++ created_workspace now id user.id payload ∷ []))
  modify commit
  pure (created_workspace now id user.id payload)

abbrev pub expiry_of_session : Option AuthSession → Option ℕ
expiry_of_session none = none
expiry_of_session (some s) = some s.expires_at

module _ (financial_year_of : String → String) where
  unfoldable pub upload_workspace_document :
      Crypto
      → Settings
      → ℕ
      → User
      → ℕ
      → ℕ
      → Option String
      → Option String
      → UploadFile
      → Service (Document × Job)
  upload_workspace_document c s now user token workspace_id category financial_year f = do
    opened ← open_workspace financial_year_of now user workspace_id
    found ← resolve_session c s now token
    let year = or_else financial_year ""
    upload_document c.sha256_hex s now
        (record {
          session_id = (opened.1).id;
          category = category;
          financial_year = some (if is_empty year then (opened.1).financial_year else year);
          workspace_id = some workspace_id;
          owner_user_id = some user.id;
          capability_token = token;
          capability_expires_at = expiry_of_session found.1;
        })
        f

  unfoldable pub list_workspace_issues : Format → ℕ → User → ℕ → Service Report
  list_workspace_issues p now user workspace_id = do
    opened ← open_workspace financial_year_of now user workspace_id
    run_compliance_review p (opened.1).id

abbrev pub generate_workspace_review_pack : Service (Unit {0})
generate_workspace_review_pack = raise (
    http 410
      "Legacy workspace review-pack route disabled. Use /api/workspaces/{workspace_id}/review-pack/generate.")
