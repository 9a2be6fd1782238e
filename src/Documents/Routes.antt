-- ===== src/Documents/Routes.antt =====
-- The other routes of app/routers/documents.py. 0 is a query parameter that is absent or empty; a
-- status that is null or outside the enum of app/constants/risk.py is left out.
use tax_return_ai.Base.{
  ℕ, not, String, Option, none, some, List, [], ◌∷◌, ◌==◌, leb, is_some, or_else, if◌then◌else◌,
  select, any, map, take, drop, http, Exn, ◌>>=◌, ◌>>◌, pure, raise, modify, gets,
}
use tax_return_ai.Config.{Settings}
use tax_return_ai.Models.Account.{User}
use tax_return_ai.Models.Audit.{text, texts}
use tax_return_ai.Models.JobRow.{Job}
use tax_return_ai.Models.Tax.{Document, DocumentPage, DocumentStatus, TaxSession, uploaded}
use tax_return_ai.Models.World.{World, Service, commit, uuid4}
use tax_return_ai.Audit.{write_audit}
use tax_return_ai.Documents.{UploadFile, add_document, upload_document}
use tax_return_ai.Jobs.Runner.{catch}
use tax_return_ai.Scope.{require_owned_session, require_owned_document}
use tax_return_ai.Scope.Bridge.{open_workspace}
use tax_return_ai.Security.FieldEncryption.{is_empty}
use tax_return_ai.Workspaces.{set_documents}
use tax_return_ai.Workspaces.Manual.{newest_first, update_document}

pub record DocumentCreate : Type 0 where
  pub session_id : ℕ
  pub original_filename : String
  pub mime_type : String
  pub file_size_bytes : ℕ
  pub file_hash : Option ℕ
  pub category : Option String
  pub financial_year : Option String

-- A field of a `DocumentUpdate` that is set.
pub data DocumentChange : Type 0 where
  new_status : DocumentStatus → DocumentChange
  new_reason new_category new_year : Option String → DocumentChange
  new_hash new_text_hash : Option ℕ → DocumentChange

unfoldable pub change_document : DocumentChange → Document → Document
change_document (new_status s) d = record d { status = s }
change_document (new_reason r) d = record d { status_reason = r }
change_document (new_category c) d = record d { category = c }
change_document (new_year y) d = record d { financial_year = y }
change_document (new_hash h) d = record d { file_hash = h }
change_document (new_text_hash h) d = record d { extracted_text_hash = h }

abbrev pub change_all : List DocumentChange → Document → Document
change_all [] d = d
change_all (x ∷ changes) d = change_all changes (change_document x d)

abbrev pub changed_field : DocumentChange → String
changed_field (new_status s) = "status"
changed_field (new_reason r) = "status_reason"
changed_field (new_category c) = "category"
changed_field (new_year y) = "financial_year"
changed_field (new_hash h) = "file_hash"
changed_field (new_text_hash h) = "extracted_text_hash"

-- A row with the defaults of its columns.
abbrev pub created_document : ℕ → ℕ → DocumentCreate → Document
created_document now id c = record {
  id = id;
  session_id = c.session_id;
  original_filename = c.original_filename;
  mime_type = c.mime_type;
  file_size_bytes = c.file_size_bytes;
  file_hash = c.file_hash;
  storage_path = none;
  extracted_text_hash = none;
  extraction_status = none;
  extraction_text_length = none;
  classification_status = none;
  classification_provider = none;
  classification_error = none;
  status = uploaded;
  status_reason = none;
  category = c.category;
  financial_year = c.financial_year;
  created_at = now;
}

-- `order_by(DocumentPage.page_number)`
abbrev pub insert_page : DocumentPage → List DocumentPage → List DocumentPage
insert_page p [] = p ∷ []
insert_page p (q ∷ qs) =
    let rest = insert_page p qs in if leb p.page_number q.page_number then p ∷ q ∷ qs else q ∷ rest

abbrev pub by_page : List DocumentPage → List DocumentPage
by_page [] = []
by_page (p ∷ ps) = insert_page p (by_page ps)

-- `except HTTPException: continue`
abbrev pub none_if_http : Exn → Service (Option TaxSession)
none_if_http (http status message) = pure none
none_if_http e = raise e

module _ (financial_year_of : String → String) where
  unfoldable pub create_document : ℕ → User → DocumentCreate → Service Document
  create_document now user c = do
    require_owned_session financial_year_of user c.session_id
    id ← uuid4
    modify (add_document (created_document now id c))
    write_audit now "document" id "created" []
    modify commit
    pure (created_document now id c)

  unfoldable pub try_session : User → ℕ → Service (Option TaxSession)
  try_session user session_id =
      catch (do s ← require_owned_session financial_year_of user session_id; pure (some s))
        none_if_http

  -- The loop over the sessions that have a workspace.
  unfoldable pub accessible_ids : User → List TaxSession → Service (List ℕ)
  unfolding try_session
  accessible_ids user [] = pure []
  accessible_ids user (s ∷ sessions) = do
    owned ← try_session user s.id
    ids ← accessible_ids user sessions
    pure (if is_some owned then s.id ∷ ids else ids)

  -- `order_by(…).offset(offset).limit(limit)` on the documents of some sessions
  unfoldable pub page_of_sessions : ℕ → ℕ → List ℕ → World → List Document
  page_of_sessions offset limit ids w =
      take limit
        (drop offset (newest_first (select (λ d. any (λ i. d.session_id == i) ids) w.db.documents)))

  unfoldable pub list_documents : User → ℕ → ℕ → ℕ → Service (List Document)
  unfolding accessible_ids page_of_sessions
  list_documents user session_id offset limit =
      if session_id == 0
      then (do
        sessions ← gets (λ w. select (λ s. is_some s.workspace_id) w.db.tax_sessions)
        ids ← accessible_ids user sessions
        gets (page_of_sessions offset limit ids))
      else (do
        require_owned_session financial_year_of user session_id
        gets (page_of_sessions offset limit (session_id ∷ [])))

  abbrev pub get_document : User → ℕ → Service Document
  get_document = require_owned_document financial_year_of

  unfoldable pub patch_document : ℕ → User → ℕ → List DocumentChange → Service Document
  unfolding change_document
  patch_document now user document_id changes = do
    doc ← require_owned_document financial_year_of user document_id
    modify (update_document document_id (change_all changes))
    write_audit now "document" document_id "updated"
        (("fields", texts (map changed_field changes)) ∷ [])
    modify commit
    pure (change_all changes doc)

  unfoldable pub remove_document : ℕ → ℕ → Service (Unit {0})
  remove_document now document_id = do
    modify (set_documents (select (λ d. not (d.id == document_id))))
    write_audit now "document" document_id "deleted" (("event", text "document_deleted") ∷ [])
    modify commit

  unfoldable pub delete_document : ℕ → User → ℕ → Service (Unit {0})
  delete_document now user document_id = do
    require_owned_document financial_year_of user document_id
    remove_document now document_id

  unfoldable pub get_document_pages : User → ℕ → Service (List DocumentPage)
  get_document_pages user document_id = do
    require_owned_document financial_year_of user document_id
    gets (λ w. by_page (select (λ p. p.document_id == document_id) w.db.pages))

  unfoldable pub list_documents_by_workspace : ℕ → User → ℕ → Service (List Document)
  list_documents_by_workspace now user workspace_id = do
    opened ← open_workspace financial_year_of now user workspace_id
    documents ←
        gets (λ w. newest_first (select (λ d. d.session_id == (opened.1).id) w.db.documents))
    modify commit
    pure documents

  unfoldable pub upload_document_by_workspace :
      (ℕ → ℕ)
      → Settings
      → ℕ
      → User
      → ℕ
      → Option String
      → Option String
      → UploadFile
      → Service (Document × Job)
  upload_document_by_workspace sha256_hex s now user workspace_id category financial_year f = do
    opened ← open_workspace financial_year_of now user workspace_id
    let year = or_else financial_year ""
    upload_document sha256_hex s now
        (record {
          session_id = (opened.1).id;
          category = category;
          financial_year = some (if is_empty year then (opened.1).financial_year else year);
          workspace_id = none;
          owner_user_id = none;
          capability_token = 0;
          capability_expires_at = none;
        })
        f
