-- ===== src/Scope.antt =====
-- app/db/workspace_scope.py: which workspaces, sessions, documents and items a user may touch.
-- `_fy_to_financial_year` is the argument `financial_year_of`.
pub mod Laws
pub mod Bridge
use tax_return_ai.Base.{
  ℕ, ◌≡◌, Bool, true, false, ◌&&◌, not, String, Option, none, some, List, [], ◌∷◌, ◌++◌, ◌<>◌, leb,
  ◌==◌, if◌then◌else◌, select, first, find, first_some, update_where, scalar_one_or_none, http, ok,
  ◌>>=◌, ◌>>◌, pure, raise, modify, query, gets,
}
use tax_return_ai.Models.Account.{User, TaxWorkspace}
use tax_return_ai.Models.Tax.{TaxSession, Document, TaxItem}
use tax_return_ai.Models.World.{Db, World, Service, uuid4}
use tax_return_ai.Text.{Text, codes, eq_text, all_some, is_digit}

abbrev pub workspace_key : TaxWorkspace → ℕ
workspace_key ws = ws.id

abbrev pub session_key : TaxSession → ℕ
session_key s = s.id

abbrev pub document_key : Document → ℕ
document_key d = d.id

abbrev pub item_key : TaxItem → ℕ
item_key i = i.id

abbrev pub set_tax_sessions : (List TaxSession → List TaxSession) → World → World
set_tax_sessions f w = record w { db = record (w.db) { tax_sessions = f w.db.tax_sessions } }

abbrev pub not_found : {A : Type 0} → String → Service A
not_found what = raise (http 404 what)

-- `if not row: raise HTTPException(404, …)`
abbrev pub found_or_404 : {A : Type 0} → String → Option A → Service A
found_or_404 what none = not_found what
found_or_404 what (some x) = pure x

abbrev pub owned_by : ℕ → TaxWorkspace → Bool
owned_by user_id ws = ws.user_id == user_id

unfoldable pub get_workspace_for_user : User → ℕ → Service TaxWorkspace
get_workspace_for_user user workspace_id = do
  ws ← query (λ w.
      scalar_one_or_none
        (select (λ ws. ws.id == workspace_id && owned_by user.id ws) w.db.workspaces))
  found_or_404 "Workspace not found" ws

-- `order_by(TaxWorkspace.created_at.asc())`
abbrev pub insert_oldest : TaxWorkspace → List TaxWorkspace → List TaxWorkspace
insert_oldest a [] = a ∷ []
insert_oldest a (b ∷ bs) =
    let rest = insert_oldest a bs in if leb a.created_at b.created_at then a ∷ b ∷ bs else b ∷ rest

abbrev pub oldest_first : List TaxWorkspace → List TaxWorkspace
oldest_first [] = []
oldest_first (a ∷ rest) = insert_oldest a (oldest_first rest)

module _ (financial_year_of : String → String) where
  abbrev pub same_year : TaxSession → TaxWorkspace → Bool
  same_year s ws = eq_text (codes (financial_year_of ws.tax_year)) (codes s.financial_year)

  -- The first workspace of the session's year, or else the first of all.
  abbrev pub mapped_workspace : TaxSession → List TaxWorkspace → Option TaxWorkspace
  mapped_workspace s workspaces = first_some (find (same_year s) workspaces) (first workspaces)

  abbrev pub moved_to : ℕ → TaxSession → TaxSession
  moved_to workspace_id s = record s { workspace_id = some workspace_id }

  abbrev pub has_session_id : ℕ → TaxSession → Bool
  has_session_id session_id s = s.id == session_id

  unfoldable pub adopt : TaxSession → Option TaxWorkspace → Service TaxSession
  adopt s none = not_found "Session not found"
  adopt s (some ws) = do
    modify (set_tax_sessions (update_where (has_session_id s.id) (moved_to ws.id)))
    pure (moved_to ws.id s)

  unfoldable pub check_scope : User → TaxSession → Option ℕ → Service TaxSession
  unfolding adopt
  check_scope user s (some workspace_id) = do get_workspace_for_user user workspace_id; pure s
  check_scope user s none = do
    workspaces ← gets (λ w. oldest_first (select (owned_by user.id) w.db.workspaces))
    adopt s (mapped_workspace s workspaces)

  unfoldable pub require_owned_session : User → ℕ → Service TaxSession
  unfolding check_scope
  require_owned_session user session_id = do
    row ← query (λ w. scalar_one_or_none (select (has_session_id session_id) w.db.tax_sessions))
    s ← found_or_404 "Session not found" row
    check_scope user s s.workspace_id

  unfoldable pub require_owned_document : User → ℕ → Service Document
  require_owned_document user document_id = do
    row ← query (λ w. scalar_one_or_none (select (λ d. d.id == document_id) w.db.documents))
    d ← found_or_404 "Document not found" row
    require_owned_session user d.session_id
    pure d

  unfoldable pub require_owned_item : User → ℕ → Service TaxItem
  require_owned_item user item_id = do
    row ← query (λ w. scalar_one_or_none (select (λ i. i.id == item_id) w.db.items))
    i ← found_or_404 "Item not found" row
    require_owned_session user i.session_id
    pure i
