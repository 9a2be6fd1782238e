-- ===== src/Scope/Bridge.antt =====
-- The end of app/db/workspace_scope.py: the one session that stands for a workspace, and the time at
-- which the workspace was opened.
use tax_return_ai.Base.{
  ℕ, String, ◌<>◌, Option, none, some, List, [], ◌∷◌, ◌++◌, ◌==◌, holds_id, select, update_where,
  scalar_one_or_none, ◌>>=◌, ◌>>◌, pure, modify, query,
}
use tax_return_ai.Models.Account.{User, TaxWorkspace}
use tax_return_ai.Models.Tax.{TaxSession}
use tax_return_ai.Models.World.{World, Service, uuid4}
use tax_return_ai.Scope.{set_tax_sessions, get_workspace_for_user}

abbrev pub set_workspaces : (List TaxWorkspace → List TaxWorkspace) → World → World
set_workspaces f w = record w { db = record (w.db) { workspaces = f w.db.workspaces } }

abbrev pub opened_at : ℕ → TaxWorkspace → TaxWorkspace
opened_at now ws = record ws { last_opened_at = some now }

unfoldable pub touch_workspace_opened : ℕ → TaxWorkspace → Service (Unit {0})
touch_workspace_opened now workspace =
    modify (set_workspaces (update_where (λ ws. ws.id == workspace.id) (opened_at now)))

module _ (financial_year_of : String → String) where
  abbrev pub bridge_session : ℕ → ℕ → TaxWorkspace → TaxSession
  bridge_session now id workspace = record {
    id = id;
    workspace_id = some workspace.id;
    title = some (workspace.label <> " Session");
    financial_year = financial_year_of workspace.tax_year;
    status = "draft";
    notes = some "Auto-created bridge session for workspace-scoped API.";
    created_at = now;
  }

  unfoldable pub session_or_new : ℕ → TaxWorkspace → Option TaxSession → Service TaxSession
  session_or_new now workspace (some s) = pure s
  session_or_new now workspace none = do
    id ← uuid4
    modify (set_tax_sessions (λ rows. rows ++ bridge_session now id workspace ∷ []))
    pure (bridge_session now id workspace)

  -- The order of the query does not matter, as more than one row is an exception.
  unfoldable pub get_or_create_workspace_session : ℕ → TaxWorkspace → Service TaxSession
  unfolding session_or_new
  get_or_create_workspace_session now workspace = do
    existing ← query (λ w.
        scalar_one_or_none (select (λ s. holds_id s.workspace_id workspace.id) w.db.tax_sessions))
    session_or_new now workspace existing

  -- How nearly every route of app/routers/workspaces.py begins.
  unfoldable pub open_workspace : ℕ → User → ℕ → Service (TaxWorkspace × TaxSession)
  open_workspace now user workspace_id = do
    workspace ← get_workspace_for_user user workspace_id
    session ← get_or_create_workspace_session now workspace
    touch_workspace_opened now workspace
    pure (workspace, session)
