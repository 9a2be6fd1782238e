-- ===== src/Tests/Documents.antt =====
-- The documents of two users: one of a session of the second, one of a session without a workspace.
use tax_return_ai.Base.{ℕ, ◌≡◌, refl, none, [], ◌∷◌, ◌==◌, select, not, ok, ◌+◌}
use tax_return_ai.Models.Tax.{Document}
use tax_return_ai.Models.World.{World}
use tax_return_ai.Documents.Routes.{
  created_document, new_category, list_documents, delete_document, remove_document,
}
use tax_return_ai.Documents.Paging.{IsPage, list_documents-IsPage}
use tax_return_ai.Documents.Isolation.{IsRefused, delete_document-gone}
use tax_return_ai.Scope.Laws.{IsKeyed}
use tax_return_ai.Scope.{require_owned_session, require_owned_document, get_workspace_for_user}
use tax_return_ai.Audit.{write_audit}
use tax_return_ai.Tests.Scope.{bob, same, scope_world, scope_world-IsKeyed}

abbrev pub receipt : ℕ → ℕ → Document
receipt id session_id = created_document (60 + id) id (record {
  session_id = session_id;
  original_filename = "receipt.pdf";
  mime_type = "application/pdf";
  file_size_bytes = 300;
  file_hash = none;
  category = none;
  financial_year = none;
})

abbrev document_world : World
document_world = record scope_world {
  db = record (scope_world.db) { documents = receipt 61 42 ∷ receipt 62 41 ∷ receipt 63 42 ∷ [] };
}

listed : (list_documents same bob 0 0 1 document_world).0 ≡ ok (receipt 63 42 ∷ [])
unfolding list_documents require_owned_session get_workspace_for_user
listed = refl

document_world-IsKeyed : IsKeyed document_world
document_world-IsKeyed = record {
  workspaces_distinct = scope_world-IsKeyed.workspaces_distinct;
  sessions_distinct = scope_world-IsKeyed.sessions_distinct;
}

list_documents-IsPage_example :
    IsPage 2 1 (list_documents same bob 0 0 1 document_world).1 (receipt 63 42 ∷ [])
list_documents-IsPage_example =
    list_documents-IsPage same bob 0 0 1 document_world (receipt 63 42 ∷ []) document_world-IsKeyed
      listed

deleted : (delete_document same 90 bob 61 document_world).0 ≡ ok tt
unfolding delete_document require_owned_document require_owned_session get_workspace_for_user
    remove_document write_audit
deleted = refl

delete_document-gone_example :
    let w' = (delete_document same 90 bob 61 document_world).1 in
    IsRefused same "Document not found" 91 bob 61 (new_category none ∷ []) w'
    × (w'.db.documents ≡ select (λ d. not (d.id == 61)) document_world.db.documents)
delete_document-gone_example =
    delete_document-gone same 90 91 bob bob 61 (new_category none ∷ []) document_world deleted
