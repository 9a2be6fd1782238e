-- ===== src/Documents/Isolation.antt =====
-- The routes of app/routers/documents.py for one document: other users, and what a deletion leaves.
use tax_return_ai.Base.{
  Option, List, [], ◌∷◌, select, not, ◌==◌, refl, ok, ℕ, ◌≡◌, ◌≢◌, inl, inr, scalar_one_or_none,
  String, some, none, err, http, arith, DistinctBy, by_key, scalar-select, ◌∙◌, ap,
}
use tax_return_ai.Models.Account.{User, TaxWorkspace}
use tax_return_ai.Models.Tax.{Document, TaxSession}
use tax_return_ai.Models.Leads.{Result-cases}
use tax_return_ai.Models.World.{World}
use tax_return_ai.Audit.{write_audit}
use tax_return_ai.Scope.{
  has_session_id, document_key, session_key, adopt, check_scope, get_workspace_for_user,
  require_owned_session, require_owned_document,
}
use tax_return_ai.Scope.Laws.{IsKeyed, IsOwned, require_owned_session-foreign}
use tax_return_ai.Documents.Routes.{
  remove_document, DocumentChange, get_document, patch_document, delete_document,
  get_document_pages,
}

module _ (financial_year_of : String → String) where
  require_owned_document-foreign :
      (v : User) (owner : ℕ) (d : Document) (t : TaxSession) (w : World)
      → IsKeyed w
      → DistinctBy document_key w.db.documents
      → by_key document_key d.id w.db.documents ≡ some d
      → by_key session_key d.session_id w.db.tax_sessions ≡ some t
      → IsOwned owner w t
      → v.id ≢ owner
      → require_owned_document financial_year_of v d.id w
        ≡ (err (http 404 "Workspace not found"), w)
  unfolding require_owned_document
  require_owned_document-foreign v owner d t w k distinct e row o differ = ground (
    arith,
    e,
    scalar-select document_key d.id w.db.documents distinct,
    require_owned_session-foreign financial_year_of v owner d.session_id t w k row o differ,
  )

  -- The four routes of a document answer with 404 and change nothing.
  abbrev pub IsRefused : String → ℕ → User → ℕ → List DocumentChange → World → Type 0
  IsRefused message now v document_id changes w =
      (get_document financial_year_of v document_id w ≡ (err (http 404 message), w))
      × (get_document_pages financial_year_of v document_id w ≡ (err (http 404 message), w))
      × (patch_document financial_year_of now v document_id changes w ≡ (err (http 404 message), w))
      × (delete_document financial_year_of now v document_id w ≡ (err (http 404 message), w))

  guard-IsRefused :
      (message : String) (now : ℕ) (v : User) (document_id : ℕ) (changes : List DocumentChange)
      (w : World)
      → require_owned_document financial_year_of v document_id w ≡ (err (http 404 message), w)
      → IsRefused message now v document_id changes w
  unfolding get_document_pages patch_document delete_document
  guard-IsRefused message now v document_id changes w e =
      (e, ground (arith, e), ground (arith, e), ground (arith, e))

  pub document_routes-foreign :
      (now : ℕ) (v : User) (owner : ℕ) (d : Document) (changes : List DocumentChange)
      (t : TaxSession) (w : World)
      → IsKeyed w
      → DistinctBy document_key w.db.documents
      → by_key document_key d.id w.db.documents ≡ some d
      → by_key session_key d.session_id w.db.tax_sessions ≡ some t
      → IsOwned owner w t
      → v.id ≢ owner
      → IsRefused "Workspace not found" now v d.id changes w
  document_routes-foreign now v owner d changes t w k distinct e row o differ =
      guard-IsRefused "Workspace not found" now v d.id changes w
        (require_owned_document-foreign v owner d t w k distinct e row o differ)

  -- The guards leave the documents.
  adopt-documents :
      (s : TaxSession) (o : Option TaxWorkspace) (w : World)
      → ((adopt financial_year_of s o w).1).db.documents ≡ w.db.documents
  unfolding adopt
  adopt-documents s none w = refl
  adopt-documents s (some ws) w = refl

  get_workspace-documents :
      (user : User) (i : ℕ) (w : World)
      → ((get_workspace_for_user user i w).1).db.documents ≡ w.db.documents
  unfolding get_workspace_for_user
  get_workspace-documents user i w = ground arith

  check_scope-documents :
      (user : User) (s : TaxSession) (o : Option ℕ) (w : World)
      → ((check_scope financial_year_of user s o w).1).db.documents ≡ w.db.documents
  unfolding check_scope
  check_scope-documents user s none w = adopt-documents s _ w
  check_scope-documents user s (some i) w = ground (arith, get_workspace-documents user i w)

  require_owned_session-documents :
      (user : User) (session_id : ℕ) (w : World)
      → ((require_owned_session financial_year_of user session_id w).1).db.documents
        ≡ w.db.documents
  unfolding require_owned_session
  require_owned_session-documents user session_id w =
      elim (Result-cases (
        scalar_one_or_none
          (select (has_session_id financial_year_of session_id) w.db.tax_sessions))) [
            | inl (none, e) ↦ ground (arith, e)
            | inl (some s, e) ↦ ground (arith, e, check_scope-documents user s s.workspace_id w)
            | inr (x, e) ↦ ground (arith, e)
          ]

  require_owned_document-documents :
      (user : User) (document_id : ℕ) (w : World)
      → ((require_owned_document financial_year_of user document_id w).1).db.documents
        ≡ w.db.documents
  unfolding require_owned_document
  require_owned_document-documents user document_id w =
      elim (Result-cases (scalar_one_or_none (select (λ d. d.id == document_id) w.db.documents))) [
        | inl (none, e) ↦ ground (arith, e)
        | inl (some d, e) ↦ ground (arith, e, require_owned_session-documents user d.session_id w)
        | inr (x, e) ↦ ground (arith, e)
      ]

  remove_document-documents :
      (now document_id : ℕ) (w : World)
      → ((remove_document financial_year_of now document_id w).1).db.documents
        ≡ select (λ d. not (d.id == document_id)) w.db.documents
  unfolding remove_document write_audit
  remove_document-documents now document_id w = refl

  delete_document-removed :
      (now : ℕ) (user : User) (document_id : ℕ) (w : World)
      → (delete_document financial_year_of now user document_id w).0 ≡ ok tt
      → ((delete_document financial_year_of now user document_id w).1).db.documents
        ≡ select (λ d. not (d.id == document_id)) w.db.documents
  unfolding delete_document
  delete_document-removed now user document_id w e =
      let w' = (require_owned_document financial_year_of user document_id w).1 in
      ground (
        arith,
        e,
        require_owned_document-documents user document_id w,
        remove_document-documents now document_id w',
      )

  select-without :
      (k : ℕ) (ds : List Document) → select (λ d. d.id == k) (select (λ d. not (d.id == k)) ds) ≡ []
  select-without k [] = refl
  select-without k (d ∷ ds) = ground (arith, select-without k ds)

  require_owned_document-gone :
      (v : User) (document_id : ℕ) (w : World)
      → select (λ d. d.id == document_id) w.db.documents ≡ []
      → require_owned_document financial_year_of v document_id w
        ≡ (err (http 404 "Document not found"), w)
  unfolding require_owned_document
  require_owned_document-gone v document_id w e = ground (arith, e)

  -- If a document has been deleted, the four routes of one document answer any user with 404 for
  -- it in the world that this leaves, and change nothing, and the other documents are in the
  -- table as before.
  pub delete_document-gone :
      (now₁ now₂ : ℕ) (user v : User) (document_id : ℕ) (changes : List DocumentChange) (w : World)
      → (delete_document financial_year_of now₁ user document_id w).0 ≡ ok tt
      → let w' = (delete_document financial_year_of now₁ user document_id w).1 in
        IsRefused "Document not found" now₂ v document_id changes w'
        × (w'.db.documents ≡ select (λ d. not (d.id == document_id)) w.db.documents)
  delete_document-gone now₁ now₂ user v document_id changes w e =
      let w' = (delete_document financial_year_of now₁ user document_id w).1 in
      let removed = delete_document-removed now₁ user document_id w e in
      (
        guard-IsRefused "Document not found" now₂ v document_id changes w' (
            require_owned_document-gone v document_id w' (
              ap (select (λ (d : Document). d.id == document_id)) removed
              ∙ select-without document_id w.db.documents)),
        removed,
      )
