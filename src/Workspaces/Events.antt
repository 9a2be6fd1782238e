-- ===== src/Workspaces/Events.antt =====
-- The audit events of app/routers/workspaces.py.
pub mod Laws
use tax_return_ai.Base.{
  ℕ, Bool, true, false, ◌&&◌, ◌||◌, String, Option, none, some, List, [], ◌∷◌, ◌==◌, any, map,
  select, take, drop, if◌then◌else◌, holds_id, ◌>>=◌, ◌>>◌, pure, gets,
}
use tax_return_ai.Models.Account.{User}
use tax_return_ai.Models.Audit.{AuditLog, Details, Value, text}
use tax_return_ai.Models.World.{World, Service}
use tax_return_ai.Providers.Hosted.{occurs_in}
use tax_return_ai.Scope.Bridge.{open_workspace}
use tax_return_ai.Text.{codes, lower, eq_text}
use tax_return_ai.Workspaces.Status.{latest_first}

abbrev pub is_sensitive : String → Bool
is_sensitive key =
    any (λ word. occurs_in (codes word) (lower (codes key))) ("text" ∷ "ocr" ∷ "content" ∷ [])

abbrev pub redacted : List (String × Value) → List (String × Value)
redacted [] = []
redacted ((key, value) ∷ details) =
    (key, if is_sensitive key then text "[redacted]" else value) ∷ redacted details

-- The details are the object that the JSON text stands for.
unfoldable pub safe_audit_details : Option Details → Option Details
safe_audit_details none = none
safe_audit_details (some details) = some (redacted details)

abbrev pub is_of : String → List ℕ → AuditLog → Bool
is_of entity_type ids a =
    eq_text (codes a.entity_type) (codes entity_type) && any (λ i. a.entity_id == i) ids

abbrev pub document_ids : ℕ → World → List ℕ
document_ids session_id w =
    map (λ d. d.id) (select (λ d. d.session_id == session_id) w.db.documents)

abbrev pub item_ids : ℕ → World → List ℕ
item_ids session_id w = map (λ i. i.id) (select (λ i. i.session_id == session_id) w.db.items)

abbrev pub export_ids : ℕ → World → List ℕ
export_ids workspace_id w =
    map (λ e. e.id) (select (λ e. holds_id e.workspace_id workspace_id) w.db.exports)

-- `or_(*filters)`: a filter without ids finds nothing, and is left out there.
unfoldable pub is_workspace_event : ℕ → ℕ → World → AuditLog → Bool
is_workspace_event workspace_id session_id w a =
    is_of "workspace" (workspace_id ∷ []) a
    || is_of "tax_session" (session_id ∷ []) a
    || is_of "document" (document_ids session_id w) a
    || is_of "tax_item" (item_ids session_id w) a
    || is_of "export_package" (export_ids workspace_id w) a

abbrev pub safe_event : AuditLog → AuditLog
safe_event a = record a { details = safe_audit_details a.details }

module _ (financial_year_of : String → String) where
  unfoldable pub list_workspace_audit_events : ℕ → User → ℕ → ℕ → ℕ → Service (List AuditLog)
  unfolding is_workspace_event safe_audit_details
  list_workspace_audit_events now user workspace_id limit offset = do
    opened ← open_workspace financial_year_of now user workspace_id
    gets (λ w. map safe_event (
        take limit (
          drop offset
            (latest_first (select (is_workspace_event workspace_id (opened.1).id w) w.db.audit)))))
