-- ===== src/Tests/Uploads.antt =====
-- An upload of an invoice to an unlocked workspace, its ingestion, and a second upload of the same
-- file.
use tax_return_ai.Base.{
  ℕ, ◌+◌, ◌≡◌, refl, arith, true, none, some, [], ◌∷◌, ok, length, Result, Option, by_key,
}
use tax_return_ai.Models.Tax.{Document, DocumentStatus}
use tax_return_ai.Models.World.{World}
use tax_return_ai.Documents.{UploadFile, UploadCall, new_document, upload_document, is_supported}
use tax_return_ai.Documents.Upload.{
  upload_document-IsReceived, is_free, oldest_copy, IsUploadable, IsReceived,
}
use tax_return_ai.Ingestion.{
  IngestionFormat, IngestionCall, OcrPage, check_hash_duplicate, is_blank, full_text,
}
use tax_return_ai.Ingestion.Ocr.{OcrProviders, extract_text}
use tax_return_ai.Ingestion.Steps.{process_upload}
use tax_return_ai.Ingestion.Pages.{process_upload-AllHidden}
use tax_return_ai.Ingestion.Pages.{AllHidden}
use tax_return_ai.Tests.{test_crypto, test_settings}
use tax_return_ai.Tests.Items.{test_utf8}
use tax_return_ai.Tests.Jobs.{waiting_job}
use tax_return_ai.Tests.Packs.{ready_world}
use tax_return_ai.Models.JobRow.{Job, running}
use tax_return_ai.Jobs.{update_status, job_key}
use tax_return_ai.Audit.{write_audit}
use tax_return_ai.Classification.{get_session_field_key, get_provider, call_provider}
use tax_return_ai.Security.KeyCache.{get_user_active_key}
use tax_return_ai.Classification.Classify.{
  classify_document, classify_with, record_results, create_items,
}
use tax_return_ai.Ingestion.Copies.{HasSameRows, process_upload-HasSameRows}
use tax_return_ai.Ingestion.Background.{
  run_ingestion_pipeline, HasJob, ending, pipeline_fn, run_ingestion_pipeline-ending,
}
use tax_return_ai.Jobs.Runner.{update_job_status, starting}
use tax_return_ai.Tests.Classification.{test_classification_format, test_providers}

abbrev digest : ℕ → ℕ
digest n = n + 1

abbrev invoice : UploadFile
invoice = record {
  filename = some "invoice.pdf";
  content_type = some "application/pdf; version=1";
  size = 1200;
  contents = 8;
}

abbrev upload_call : UploadCall
upload_call = record {
  session_id = 41;
  category = none;
  financial_year = none;
  workspace_id = some 31;
  owner_user_id = some 1;
  capability_token = 0;
  capability_expires_at = none;
}

abbrev uploaded_invoice : Document
uploaded_invoice = new_document 90 71 upload_call invoice 9

abbrev uploaded_world : World
uploaded_world = record ready_world {
  db = record (ready_world.db) {
    documents = uploaded_invoice ∷ [];
    jobs = waiting_job 21 90 none ∷ [];
  };
}

invoice-IsUploadable : IsUploadable digest test_settings invoice
unfolding is_supported
invoice-IsUploadable = (ground arith, refl, ground arith)

upload_document-IsReceived_example :
    ((r : Document × Job)
      → (upload_document digest test_settings 100 upload_call invoice ready_world).0 ≡ ok r
      → IsUploadable digest test_settings invoice
        × (is_free (oldest_copy digest test_settings upload_call invoice ready_world) ≡ true))
    × (IsUploadable digest test_settings invoice
          × (is_free (oldest_copy digest test_settings upload_call invoice ready_world) ≡ true)
        → (r : Document × Job) × (v : World) × (upload_document digest test_settings 100 upload_call
              invoice ready_world
            ≡ (ok r, v))
          × IsReceived digest test_settings 100 upload_call invoice r ready_world v)
upload_document-IsReceived_example =
    upload_document-IsReceived digest test_settings 100 upload_call invoice ready_world

abbrev blank_page : OcrPage
blank_page = record { page_number = 1; text = " "; confidence = some 0 }

abbrev read_page : OcrPage
read_page = record { page_number = 1; text = "Invoice 12.00"; confidence = some 80 }

-- The PDF is a scan.
abbrev pub test_ocr : OcrProviders
test_ocr = record {
  pdfplumber = λ bytes mime. ok (record { pages = blank_page ∷ []; method = "pdfplumber" });
  tesseract = λ bytes mime. ok (record { pages = read_page ∷ []; method = "tesseract" });
  decode = λ bytes. "";
}

abbrev pub test_ingestion_format : IngestionFormat
test_ingestion_format = record {
  provider_class = λ provider. provider.name;
  lower_text = λ s. s;
  show_id = λ n. "id";
  show_number = λ n. "1";
  show = λ e. "error";
  type_name = λ e. "Error";
  sha256_bytes = digest;
  sha256_text = λ s. 33;
}

abbrev ingestion_call : IngestionCall
ingestion_call = record {
  document_id = 71;
  job_id = 21;
  session_id = 41;
  original_filename = "invoice.pdf";
  mime_type = "application/pdf";
  file_data = 8;
  file_size = 1200;
}

abbrev ingested : Result (Option ℕ) × World
ingested =
    process_upload test_crypto test_utf8 test_classification_format test_ingestion_format test_ocr
      (λ t fy. test_providers) test_settings 100 (λ n. n) 30 ingestion_call uploaded_world

-- The scan is read by the fallback, and one item is classified.
ingested_scan :
    (ingested.0 ≡ ok none) × (length ingested.1.db.pages ≡ 1) × (length ingested.1.db.items ≡ 2)
unfolding process_upload update_status check_hash_duplicate write_audit extract_text is_blank
    full_text get_session_field_key get_user_active_key classify_document get_provider classify_with
    call_provider record_results create_items
ingested_scan = (refl, refl, refl)

uploaded_world-HasJob : HasJob 21 uploaded_world
uploaded_world-HasJob = ground arith

run_ingestion_pipeline-ending_example :
    let v =
      (run_ingestion_pipeline test_crypto test_utf8 test_classification_format test_ingestion_format
        test_ocr
        (λ t fy. test_providers)
        test_settings
        100
        (λ n. n)
        30
        (λ a. "{}")
        (λ e. "error")
        ingestion_call
        uploaded_world).1 in
    (j : Job) × (by_key job_key 21 v.db.jobs ≡ some j)
    × (j.status
        ≡ ending
            (pipeline_fn test_crypto test_utf8 test_classification_format test_ingestion_format
              test_ocr
              (λ t fy. test_providers)
              test_settings
              100
              (λ n. n)
              30
              (λ a. "{}")
              (λ e. "error")
              ingestion_call
              (update_job_status 100 21 running starting uploaded_world).1).0)
    × (v.committed ≡ v.db)
run_ingestion_pipeline-ending_example =
    run_ingestion_pipeline-ending test_crypto test_utf8 test_classification_format
      test_ingestion_format test_ocr (λ t fy. test_providers) test_settings 100 (λ n. n) 30
      (λ a. "{}") (λ e. "error") ingestion_call uploaded_world uploaded_world-HasJob

process_upload-AllHidden_example : AllHidden ingested.1
process_upload-AllHidden_example =
    process_upload-AllHidden test_crypto test_utf8 test_classification_format test_ingestion_format
      test_ocr (λ t fy. test_providers) test_settings 100 (λ n. n) 30 ingestion_call uploaded_world
      tt

-- The file was uploaded before, and its first copy has failed.
abbrev failed_copy : Document
failed_copy = record (new_document 80 70 upload_call invoice 9) { status = DocumentStatus.failed }

abbrev recovery_world : World
recovery_world = record uploaded_world {
  db = record (uploaded_world.db) { documents = failed_copy ∷ uploaded_invoice ∷ [] };
}

process_upload-HasSameRows_example :
    HasSameRows recovery_world
      (process_upload test_crypto test_utf8 test_classification_format test_ingestion_format
        test_ocr
        (λ t fy. test_providers)
        test_settings
        100
        (λ n. n)
        30
        ingestion_call
        recovery_world).1
process_upload-HasSameRows_example =
    process_upload-HasSameRows test_crypto test_utf8 test_classification_format
      test_ingestion_format test_ocr (λ t fy. test_providers) test_settings 100 (λ n. n) 30
      ingestion_call failed_copy recovery_world refl
