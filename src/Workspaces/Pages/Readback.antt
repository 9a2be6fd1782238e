-- ===== src/Workspaces/Pages/Readback.antt =====
-- What the ingestion stores of a document, as the route on its pages reads it.
use tax_return_ai.Base.{
  ℕ, suc, ◌+◌, ◌≡◌, ◌∙◌, false, String, Option, none, some, List, [], ◌∷◌, ◌++◌, All, map, arith,
  inl, inr, refl, sym, ap, if◌then◌else◌, Bool-cases, append-nil, append_snoc, ok,
}
use tax_return_ai.Config.{Settings}
use tax_return_ai.Models.Tax.{FieldText, plain, DocumentPage}
use tax_return_ai.Models.World.{World}
use tax_return_ai.Auth.Crypto.{Crypto, IsSound}
use tax_return_ai.Classification.{Providers, ClassificationFormat}
use tax_return_ai.Ingestion.{OcrPage, IngestionFormat}
use tax_return_ai.Ingestion.Ocr.{OcrProviders}
use tax_return_ai.Ingestion.Steps.{page_of, store_pages}
use tax_return_ai.Security.FieldEncryption.{
  is_encrypted, TextCodec, is_empty, has_prefix, encrypt_text, decrypt_text-encrypt_text,
}
use tax_return_ai.Workspaces.Items.{default_key_version}
use tax_return_ai.Workspaces.Pages.{text_of_page, decrypt_pages, write_text, with_page_text}

-- What the route answers for a text: an empty one was not stored.
abbrev pub shown_text : String → Option FieldText
shown_text s = if is_empty s then none else some (plain s)

-- A text that decoding gives back, and that does not look like an envelope.
abbrev pub IsReadable : TextCodec → OcrPage → Type 0
IsReadable u page = (u.decode (u.encode page.text) ≡ page.text) × (has_prefix page.text ≡ false)

module _ (c : Crypto) (u : TextCodec) (p : ClassificationFormat) (g : IngestionFormat)
    (o : OcrProviders) (providers : String → String → Providers) (s : Settings) (now : ℕ)
    (nonces : ℕ → ℕ) (processing_time_ms : ℕ) where
  text_of_page-page_of :
      IsSound c
      → (id document_id n : ℕ) (method : String) (key : ℕ) (page : OcrPage) → IsReadable u page
      → text_of_page c u
          (page_of c u p g o providers s now nonces processing_time_ms id document_id n method key
            page)
          key
        ≡ ok (shown_text page.text)
  unfolding text_of_page page_of encrypt_text is_encrypted
  text_of_page-page_of sound id document_id n method key page (utf8, plain_text) =
      elim (Bool-cases (is_empty page.text)) [
        | inl e ↦ ground (arith, e)
        | inr e ↦ ground (
          arith,
          e,
          plain_text,
          decrypt_text-encrypt_text c u sound (nonces n) key default_key_version page.text utf8
              plain_text,
        )
      ]

  -- The rows of the pages, and how they are read.
  abbrev pub AreReadBack : ℕ → List OcrPage → World → World → World → Type 0
  AreReadBack key pages w w' v =
      (rows : List DocumentPage) × (w'.db.pages ≡ w.db.pages ++ rows)
      × (read : List DocumentPage) × ((decrypt_pages c u rows key v).0 ≡ ok read)
      × (map (λ r. r.text) read ≡ map (λ page. shown_text page.text) pages)

  -- With sound cryptographic functions, if each text of the pages is given back by decoding and
  -- does not begin with the envelope prefix, the rows that the ingestion adds for the pages are
  -- read by the route on pages with the same key, in whatever world, as the same texts in the
  -- same order, except that an empty text is read as none.
  pub decrypt_pages-store_pages :
      IsSound c
      → (document_id : ℕ) (method : String) (key n : ℕ) (pages : List OcrPage) (w v : World)
      → All (IsReadable u) pages
      → AreReadBack key pages w
          (store_pages c u p g o providers s now nonces processing_time_ms document_id method key n
            pages w).1
          v
  unfolding store_pages decrypt_pages
  decrypt_pages-store_pages sound document_id method key n [] w v all =
      ([], sym (append-nil w.db.pages), [], refl, refl)
  decrypt_pages-store_pages sound document_id method key n (page ∷ pages) w v all =
      let row =
        page_of c u p g o providers s now nonces processing_time_ms w.next_id document_id n method
          key page in
      let w' : World = record w {
        db = record (w.db) { pages = w.db.pages ++ row ∷ [] };
        next_id = w.next_id + 1;
      } in
      let t = shown_text page.text in
      let opened = text_of_page-page_of sound w.next_id document_id n method key page all.0 in
      let (rows, added, read, answer, same) =
        decrypt_pages-store_pages sound document_id method key (suc n) pages w'
          (write_text row.id t v) all.1 in
      (
        row ∷ rows,
        added ∙ append_snoc w.db.pages row rows,
        with_page_text t row ∷ read,
        ground (arith, opened, answer),
        ap (λ ts. t ∷ ts) same,
      )
