-- ===== src/Ingestion/Steps.antt =====
-- The steps of app/services/ingestion/pipeline.py, from `process_upload` to the stored text. The
-- nonces are those that `encrypt_text` draws, in order.
use tax_return_ai.Base.{
  ℕ, suc, String, ◌<>◌, Option, none, some, List, [], ◌∷◌, ◌==◌, if◌then◌else◌, select, length,
  value_error, key_unavailable, ◌>>=◌, ◌>>◌, pure, raise, modify, query, is_some,
  scalar_one_or_none,
}
use tax_return_ai.Config.{Settings}
use tax_return_ai.Models.Audit.{text, ident, number, flag}
use tax_return_ai.Models.JobRow.{running, succeeded, failed}
use tax_return_ai.Models.Tax.{Document, DocumentPage, plain, text_extracted, items_detected}
use tax_return_ai.Models.World.{Service, commit, uuid4}
use tax_return_ai.Audit.{write_audit}
use tax_return_ai.Auth.Crypto.{Crypto}
use tax_return_ai.Classification.{Providers, ClassificationFormat, get_session_field_key}
use tax_return_ai.Jobs.{update_status}
use tax_return_ai.Jobs.Runner.{ident_or_null}
use tax_return_ai.Security.FieldEncryption.{TextCodec, encrypt_text}
use tax_return_ai.Workspaces.Items.{encryption_version, default_key_version}
use tax_return_ai.Workspaces.Manual.{update_document}
use tax_return_ai.Ingestion.{
  OcrPage, OcrResult, IngestionFormat, IngestionCall, full_text, is_blank, started, progress_at,
  done, gave_up, check_hash_duplicate, id_of, add_page, unless_empty, checked, with_status,
  extracted, textless, codes,
}
use tax_return_ai.Text.{codes}
use tax_return_ai.Ingestion.Classifying.{run_classification}
use tax_return_ai.Ingestion.Ocr.{OcrProviders, extract_text}

-- `if duplicate: …`
abbrev pub duplicate_reason : (ℕ → String) → Option Document → Option String
duplicate_reason show_id none = none
duplicate_reason show_id (some d) = some (
    "Duplicate detected — file hash matches existing document "
    <> show_id d.id
    <> " ("
    <> d.original_filename
    <> ")")

module _ (c : Crypto) (u : TextCodec) (p : ClassificationFormat) (g : IngestionFormat)
    (o : OcrProviders) (providers : String → String → Providers) (s : Settings) (now : ℕ)
    (nonces : ℕ → ℕ) (processing_time_ms : ℕ) where
  unfoldable pub page_of : ℕ → ℕ → ℕ → String → ℕ → OcrPage → DocumentPage
  page_of id document_id n method key page = record {
    id = id;
    document_id = document_id;
    page_number = page.page_number;
    text = none;
    text_enc = encrypt_text c u (nonces n) (some (plain page.text)) key default_key_version;
    encryption_version = unless_empty page.text encryption_version;
    key_version = unless_empty page.text default_key_version;
    confidence = page.confidence;
    ocr_method = some method;
    created_at = now;
  }

  unfoldable pub store_pages : ℕ → String → ℕ → ℕ → List OcrPage → Service (Unit {0})
  unfolding page_of
  store_pages document_id method key n [] = pure tt
  store_pages document_id method key n (page ∷ pages) = do
    id ← uuid4
    modify (add_page (page_of id document_id n method key page))
    store_pages document_id method key (suc n) pages

  -- What a missing key leaves: the job is failed, and nothing is stored.
  unfoldable pub write_blocked : Document → ℕ → Service (Unit {0})
  write_blocked doc job_id = do
    write_audit now "document" doc.id "encryption_key_missing"
        (("stage", text "ocr_write") ∷ ("session_id", ident doc.session_id) ∷ [])
    write_audit now "document" doc.id "encrypted_write_blocked"
        (("field", text "document_pages.text") ∷ ("reason", text "missing_key") ∷ [])
    update_status now job_id failed (
        gave_up "Workspace encryption key unavailable. Unlock and retry."
          "{\"status\":\"failed\",\"reason\":\"encryption_key_unavailable\"}")
    raise (key_unavailable "Workspace encryption key unavailable")

  unfoldable pub without_text : Document → ℕ → Service (Unit {0})
  without_text doc job_id = do
    modify (update_document doc.id textless)
    write_audit now "document" doc.id "needs_review"
        (("reason", text "OCR returned empty text") ∷ [])
    update_status now job_id succeeded (
        done "OCR returned no text — needs review"
          "{\"status\": \"needs_review\", \"reason\": \"empty_ocr\"}")
    pure tt

  unfoldable pub with_text : Document → ℕ → ℕ → String → Service (Unit {0})
  unfolding run_classification
  with_text doc job_id n t = do
    modify (update_document doc.id (with_status items_detected))
    write_audit now "document" doc.id "items_detected"
        (("extracted_text_hash", ident_or_null (unless_empty t (g.sha256_text t))) ∷ [])
    update_status now job_id running (progress_at 80 "Text extracted — running classification...")
    run_classification c u p g o providers s now nonces processing_time_ms doc job_id n t

  unfoldable pub store_text : Document → ℕ → OcrResult → Option ℕ → Service (Unit {0})
  unfolding store_pages write_blocked without_text with_text
  store_text doc job_id r none = write_blocked doc job_id
  store_text doc job_id r (some key) = do
    store_pages doc.id r.method key 0 r.pages
    write_audit now "document" doc.id "text_extracted" (
        ("method", text r.method)
        ∷ ("pages", number (length r.pages))
        ∷ ("total_chars", number (length (codes (full_text r))))
        ∷ [])
    update_status now job_id running
        (progress_at 60 ("OCR complete: " <> g.show_number (length r.pages) <> " pages"))
    if is_blank (full_text r)
        then without_text doc job_id
        else with_text doc job_id (length r.pages) (full_text r)

  unfoldable pub run_ocr_pipeline : Document → ℕ → String → ℕ → Service (Unit {0})
  unfolding store_text
  run_ocr_pipeline doc file_data mime_type job_id = do
    modify (update_document doc.id (with_status text_extracted))
    update_status now job_id running (progress_at 40 "Extracting text...")
    r ← query (λ w. extract_text o file_data mime_type)
    modify (update_document doc.id (extracted g.sha256_text (full_text r)))
    key ← get_session_field_key now doc.session_id
    store_text doc job_id r key

  -- What follows the duplicate check.
  unfoldable pub process_checked : IngestionCall → Document → Option Document → Service (Unit {0})
  unfolding run_ocr_pipeline
  process_checked k doc none = run_ocr_pipeline doc k.file_data k.mime_type k.job_id
  process_checked k doc (some d) = do
    update_status now k.job_id succeeded
        (done "Duplicate detected — no processing needed" ("Duplicate of " <> g.show_id d.id))
    pure tt

  -- The writes of the check itself: the document and its audit row.
  unfoldable pub record_check : IngestionCall → Document → ℕ → Option Document → Service (Unit {0})
  record_check k doc file_hash duplicate = do
    modify (update_document doc.id (checked file_hash (duplicate_reason g.show_id duplicate)))
    write_audit now "document" doc.id "uploaded" (
        ("filename", text k.original_filename)
        ∷ ("size", number k.file_size)
        ∷ ("hash", ident file_hash)
        ∷ ("duplicate", flag (is_some duplicate))
        ∷ ("duplicate_of", ident_or_null (id_of duplicate))
        ∷ [])

  unfoldable pub process_document : IngestionCall → Document → Service (Option ℕ)
  unfolding process_checked record_check
  process_document k doc = do
    update_status now k.job_id running started
    duplicate ← check_hash_duplicate k.session_id (g.sha256_bytes k.file_data) k.document_id
    record_check k doc (g.sha256_bytes k.file_data) duplicate
    update_status now k.job_id running (progress_at 20 "Hash check complete")
    process_checked k doc duplicate
    modify commit
    pure (id_of duplicate)

  unfoldable pub found_document : IngestionCall → Option Document → Service (Option ℕ)
  found_document k none =
      raise (value_error ("Document " <> g.show_id k.document_id <> " not found"))
  found_document k (some doc) = process_document k doc

  -- The answer is the id of the document that this one is a duplicate of, if there is one.
  unfoldable pub process_upload : IngestionCall → Service (Option ℕ)
  unfolding found_document process_document
  process_upload k = do
    doc ←
        query (λ w.
          scalar_one_or_none (select (λ (d : Document). d.id == k.document_id) w.db.documents))
    found_document k doc
