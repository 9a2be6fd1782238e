-- ===== src/Workspaces/Pages.antt =====
-- The route of app/routers/workspaces.py on the pages of a document. As for the items of a workspace,
-- what is decrypted is written to the rows.
pub mod Order
pub mod Exposed
pub mod Answers
pub mod Readback
use tax_return_ai.Base.{
  ℕ, ◌+◌, Bool, true, false, ◌&&◌, ◌||◌, not, String, Option, List, [], ◌∷◌, ltb, ◌==◌, any, select,
  if◌then◌else◌, update_where, Result, ok, scalar_one_or_none, ◌>>=◌, ◌>>◌, pure, modify, query,
  gets,
}
use tax_return_ai.Models.Account.{User}
use tax_return_ai.Models.Tax.{FieldText, Document, DocumentPage}
use tax_return_ai.Models.World.{World, Service, commit}
use tax_return_ai.Auth.Crypto.{Crypto}
use tax_return_ai.Documents.Routes.{by_page}
use tax_return_ai.Scope.{found_or_404}
use tax_return_ai.Scope.Bridge.{open_workspace}
use tax_return_ai.Security.FieldEncryption.{TextCodec, decrypt_text, is_encrypted}
use tax_return_ai.Workspaces.{has_text, unsealed, require_session_field_key}
use tax_return_ai.Workspaces.Items.{audit_legacy}

abbrev pub page_key : DocumentPage → ℕ
page_key p = p.id

abbrev pub with_page_text : Option FieldText → DocumentPage → DocumentPage
with_page_text t p = record p { text = t }

-- `page.text = …`
abbrev pub write_text : ℕ → Option FieldText → World → World
write_text page_id t w = record w {
  db = record (w.db) { pages = update_where (λ p. p.id == page_id) (with_page_text t) w.db.pages };
}

abbrev pub has_sealed_text : DocumentPage → Bool
has_sealed_text p = has_text p.text_enc || is_encrypted p.text

-- The loop that counts `legacy_plaintext_reads`.
abbrev pub plain_reads : List DocumentPage → ℕ
plain_reads [] = 0
plain_reads (p ∷ ps) =
    (if not (has_text p.text_enc) && has_text p.text then 1 else 0) + plain_reads ps

abbrev pub has_document_id : ℕ → ℕ → Document → Bool
has_document_id document_id session_id d = d.id == document_id && d.session_id == session_id

module _ (c : Crypto) (u : TextCodec) where
  unfoldable pub text_of_page : DocumentPage → ℕ → Result (Option FieldText)
  text_of_page p key =
      if has_text p.text_enc then decrypt_text c u p.text_enc key else unsealed c u p.text key

  unfoldable pub decrypt_pages : List DocumentPage → ℕ → Service (List DocumentPage)
  unfolding text_of_page
  decrypt_pages [] key = pure []
  decrypt_pages (p ∷ ps) key = do
    t ← query (λ w. text_of_page p key)
    modify (write_text p.id t)
    rest ← decrypt_pages ps key
    pure (with_page_text t p ∷ rest)

  unfoldable pub decrypt_sealed : Bool → ℕ → ℕ → List DocumentPage → Service (List DocumentPage)
  unfolding decrypt_pages
  decrypt_sealed false now token pages = pure pages
  decrypt_sealed true now token pages = do
    key ← require_session_field_key c now token
    decrypt_pages pages key

module _ (financial_year_of : String → String) (c : Crypto) (u : TextCodec) where
  -- What follows the rows of the pages.
  unfoldable pub answer_pages : ℕ → ℕ → ℕ → List DocumentPage → Service (List DocumentPage)
  unfolding decrypt_sealed audit_legacy
  answer_pages now token workspace_id rows = do
    pages ← decrypt_sealed c u (any has_sealed_text rows) now token rows
    audit_legacy (ltb 0 (plain_reads pages)) now workspace_id "document_page" (plain_reads pages)
    modify commit
    pure pages

  unfoldable pub list_workspace_document_pages : ℕ → User → ℕ → ℕ → ℕ → Service (List DocumentPage)
  unfolding answer_pages
  list_workspace_document_pages now user token workspace_id document_id = do
    opened ← open_workspace financial_year_of now user workspace_id
    row ← query (λ w.
        scalar_one_or_none (select (has_document_id document_id (opened.1).id) w.db.documents))
    found_or_404 "Document not found" row
    rows ← gets (λ w. by_page (select (λ p. p.document_id == document_id) w.db.pages))
    answer_pages now token workspace_id rows
