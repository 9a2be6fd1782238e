-- ===== src/Workspaces/Pages/Answers.antt =====
-- What the route on the pages of a document answers, and what it commits.
use tax_return_ai.Base.{
  ℕ, ◌≡◌, ◌∙◌, >>=-ok, some, none, Bool, true, false, List, [], ◌∷◌, All, any, ltb, ok, arith,
  DistinctBy, by_key, inl, inr, refl, sym, ap, subst, String, ◌>>◌, modify, pure,
  scalar_one_or_none, select, ◌==◌, DistinctBy-select, All-of_select, All-of_IsIn, IsIn-by_key,
}
use tax_return_ai.Models.Account.{User}
use tax_return_ai.Models.Leads.{Result-cases}
use tax_return_ai.Models.Tax.{DocumentPage}
use tax_return_ai.Models.World.{World, Db, commit}
use tax_return_ai.Auth.Crypto.{Crypto}
use tax_return_ai.Security.FieldEncryption.{TextCodec}
use tax_return_ai.Workspaces.{require_session_field_key, write_audit}
use tax_return_ai.Workspaces.Items.{audit_legacy}
use tax_return_ai.Workspaces.Pages.{
  page_key, has_sealed_text, decrypt_pages, decrypt_sealed, answer_pages,
  list_workspace_document_pages, plain_reads, by_page, open_workspace, has_document_id,
}
use tax_return_ai.Workspaces.Pages.Order.{All-by_page, DistinctBy-by_page}
use tax_return_ai.Audit.{write_audit}
use tax_return_ai.Documents.Routes.{by_page}
use tax_return_ai.Scope.Bridge.{
  open_workspace, get_or_create_workspace_session, touch_workspace_opened, session_or_new,
}
use tax_return_ai.Scope.{get_workspace_for_user}
use tax_return_ai.Workspaces.Pages.Exposed.{
  IsStored, IsPlain, is_encrypted_envelope, decrypt_pages-IsStored, decrypt_pages-IsPlain,
}

any-IsPlain : (ps : List DocumentPage) → any has_sealed_text ps ≡ false → All IsPlain ps
any-IsPlain [] e = tt
any-IsPlain (p ∷ ps) e =
    (is_encrypted_envelope p.text (ground (arith, e)), any-IsPlain ps (ground (arith, e)))

-- The pages that a step answers with are in the clear, and the table has them so.
abbrev AreShown : World → List DocumentPage → Type 0
AreShown w ps = All (IsStored w) ps × All IsPlain ps

module _ (c : Crypto) (u : TextCodec) where
  require_session_field_key-db :
      (now token : ℕ) (w : World) → (require_session_field_key c now token w).1.db ≡ w.db
  unfolding require_session_field_key
  require_session_field_key-db now token w = ground arith

  decrypt_sealed-AreShown :
      (b : Bool) (now token : ℕ) (ps qs : List DocumentPage) (w : World)
      → any has_sealed_text ps ≡ b
      → DistinctBy page_key ps
      → All (IsStored w) ps
      → (decrypt_sealed c u b now token ps w).0 ≡ ok qs
      → AreShown (decrypt_sealed c u b now token ps w).1 qs
  unfolding decrypt_sealed
  decrypt_sealed-AreShown false now token ps qs w b distinct stored e =
      subst (AreShown w) {x = ps} (ground (arith, e)) (stored, any-IsPlain ps b)
  decrypt_sealed-AreShown true now token ps qs w b distinct stored e =
      let m = require_session_field_key c now token in
      let w' = (m w).1 in
      elim (Result-cases (m w).0) [
        | inr (x, f) ↦ absurd (ground (arith, e, f))
        | inl (key, f) ↦
            let step : decrypt_sealed c u true now token ps w ≡ decrypt_pages c u ps key w' =
              >>=-ok m (λ k. decrypt_pages c u ps k) w (ap (λ r. (r, w')) f) in
            let stored' =
              subst (λ (d : Db). All (λ p. by_key page_key p.id d.pages ≡ some p) ps)
                (sym (require_session_field_key-db now token w)) stored in
            let e' = ap (λ z. z.0) (sym step) ∙ e in
            subst (λ z. AreShown z qs) (sym (ap (λ z. z.1) step))
              (
                decrypt_pages-IsStored c u ps qs key w' distinct stored' e',
                decrypt_pages-IsPlain c u ps qs key w' e',
              )
      ]

  audit_legacy-pages :
      (b : Bool) (now workspace_id reads : ℕ) (entity : String) (w : World)
      → ((audit_legacy b now workspace_id entity reads w).0 ≡ ok tt)
        × ((audit_legacy b now workspace_id entity reads w).1.db.pages ≡ w.db.pages)
  unfolding audit_legacy write_audit
  audit_legacy-pages false now workspace_id reads entity w = (refl, refl)
  audit_legacy-pages true now workspace_id reads entity w = (refl, refl)

  -- The rest of the route.
  committed-step :
      (b : Bool) (now workspace_id reads : ℕ) (entity : String) (ps : List DocumentPage) (w : World)
      → (audit_legacy b now workspace_id entity reads >> (modify commit >> pure ps)) w
        ≡ (ok ps, commit (audit_legacy b now workspace_id entity reads w).1)
  unfolding audit_legacy write_audit
  committed-step false now workspace_id reads entity ps w = refl
  committed-step true now workspace_id reads entity ps w = refl

-- The pages that a route answers with are committed, and in the clear.
abbrev pub AreExposed : World → List DocumentPage → Type 0
AreExposed w ps = All (λ p. by_key page_key p.id w.committed.pages ≡ some p) ps × All IsPlain ps

module _ (financial_year_of : String → String) (c : Crypto) (u : TextCodec) where
  answer_pages-AreExposed :
      (now token workspace_id : ℕ) (ps qs : List DocumentPage) (w : World)
      → DistinctBy page_key ps
      → All (IsStored w) ps
      → (answer_pages financial_year_of c u now token workspace_id ps w).0 ≡ ok qs
      → AreExposed (answer_pages financial_year_of c u now token workspace_id ps w).1 qs
  unfolding answer_pages
  answer_pages-AreExposed now token workspace_id ps qs w distinct stored e =
      let m = decrypt_sealed c u (any has_sealed_text ps) now token ps in
      let w' = (m w).1 in
      elim (Result-cases (m w).0) [
        | inr (x, f) ↦ absurd (ground (arith, e, f))
        | inl (rs, f) ↦
            let legacy = ltb 0 (plain_reads rs) in
            let reads = plain_reads rs in
            let (all, shown) =
              decrypt_sealed-AreShown c u (any has_sealed_text ps) now token ps rs w refl distinct
                stored f in
            let audited = audit_legacy legacy now workspace_id "document_page" reads w' in
            let step : answer_pages financial_year_of c u now token workspace_id ps w
                ≡ (ok rs, commit audited.1) =
              >>=-ok m
                (λ pages.
                  audit_legacy (ltb 0 (plain_reads pages)) now workspace_id "document_page"
                    (plain_reads pages)
                  >> (modify commit >> pure pages))
                w (ap (λ r. (r, w')) f)
              ∙ committed-step c u legacy now workspace_id reads "document_page" rs w' in
            subst (λ z. AreExposed z qs) (sym (ap (λ z. z.1) step))
              (subst (AreExposed (commit audited.1)) {x = rs} (ground (arith, e, step)) (
                subst (λ table. All (λ p. by_key page_key p.id table ≡ some p) rs)
                    (sym
                      (audit_legacy-pages c u legacy now workspace_id reads "document_page" w').1)
                    all,
                shown,
              ))
      ]

  -- The two queries before leave the pages.
  open_workspace-pages :
      (now : ℕ) (user : User) (i : ℕ) (w : World)
      → (open_workspace financial_year_of now user i w).1.db.pages ≡ w.db.pages
  unfolding open_workspace get_or_create_workspace_session touch_workspace_opened
      get_workspace_for_user session_or_new
  open_workspace-pages now user i w = ground arith

  answer_rows :
      (now token workspace_id document_id : ℕ) (qs : List DocumentPage) (w : World)
      → DistinctBy page_key w.db.pages
      → let rows = by_page (select (λ p. p.document_id == document_id) w.db.pages) in
        (answer_pages financial_year_of c u now token workspace_id rows w).0 ≡ ok qs
        → AreExposed (answer_pages financial_year_of c u now token workspace_id rows w).1 qs
  answer_rows now token workspace_id document_id qs w distinct e =
      let is_of = λ (p : DocumentPage). p.document_id == document_id in
      let rows = select is_of w.db.pages in
      let P = λ (p : DocumentPage). by_key page_key p.id w.db.pages ≡ some p in
      answer_pages-AreExposed now token workspace_id (by_page rows) qs w
        (DistinctBy-by_page rows (DistinctBy-select page_key is_of w.db.pages distinct))
        (All-by_page P rows (
          All-of_select P is_of w.db.pages
            (All-of_IsIn P w.db.pages (λ p i. IsIn-by_key page_key p w.db.pages distinct i))))
        e

  -- If the ids of the pages are unique and the pages of a document are answered, none of them has
  -- a sealed text, and the committed table has each of them as it was answered: what the route
  -- has decrypted stays in the database in the clear.
  pub list_workspace_document_pages-AreExposed :
      (now : ℕ) (user : User) (token workspace_id document_id : ℕ) (pages : List DocumentPage)
      (w : World)
      → DistinctBy page_key w.db.pages
      → (list_workspace_document_pages financial_year_of c u now user token workspace_id document_id
          w).0
        ≡ ok pages
      → AreExposed
          (list_workspace_document_pages financial_year_of c u now user token workspace_id
            document_id w).1
          pages
  unfolding list_workspace_document_pages
  list_workspace_document_pages-AreExposed now user token workspace_id document_id pages w distinct
        e =
      let m = open_workspace financial_year_of now user workspace_id in
      let w' = (m w).1 in
      let distinct' =
        subst (DistinctBy page_key) (sym (open_workspace-pages now user workspace_id w)) distinct in
      elim (Result-cases (m w).0) [
        | inr (x, f) ↦ absurd (ground (arith, e, f))
        | inl (opened, f) ↦
            elim (Result-cases (
              scalar_one_or_none
                (select (has_document_id document_id (opened.1).id) w'.db.documents))) [
                  | inr (x, g) ↦ absurd (ground (arith, e, f, g))
                  | inl (none, g) ↦ absurd (ground (arith, e, f, g))
                  | inl (some d, g) ↦
                      let rows = by_page (select (λ p. p.document_id == document_id) w'.db.pages) in
                      let step : list_workspace_document_pages financial_year_of c u now user token
                            workspace_id document_id w
                          ≡ answer_pages financial_year_of c u now token workspace_id rows w' =
                        ground (arith, f, g) in
                      subst (λ z. AreExposed z pages) (sym (ap (λ z. z.1) step))
                        (answer_rows now token workspace_id document_id pages w' distinct'
                          (ap (λ z. z.0) (sym step) ∙ e))
                ]
      ]
