-- ===== src/Tests/Pages.antt =====
-- A document of one sealed page, and two audit events.
use tax_return_ai.Base.{
  err, invalid_tag, if◌then◌else◌, ◌==◌, String, List, All, length, ◌≤◌, ℕ, ◌≡◌, refl, arith, none,
  some, [], ◌∷◌, ok,
}
use tax_return_ai.Models.Tax.{DocumentPage, plain, sealed}
use tax_return_ai.Models.Audit.{AuditLog, text, number}
use tax_return_ai.Models.World.{World}
use tax_return_ai.Security.FieldEncryption.{
  TextCodec, is_empty, has_prefix, envelope_of, decrypt_text,
}
use tax_return_ai.Workspaces.Events.{list_workspace_audit_events}
use tax_return_ai.Workspaces.Events.Laws.{IsShown, list_workspace_audit_events-IsShown}
use tax_return_ai.Workspaces.Pages.{list_workspace_document_pages}
use tax_return_ai.Workspaces.Pages.Answers.{AreExposed, list_workspace_document_pages-AreExposed}
use tax_return_ai.Tests.{ann, test_crypto, test_crypto-IsSound, test_settings}
use tax_return_ai.Tests.Items.{test_utf8}
use tax_return_ai.Tests.Scope.{same, scope_world, session_in}
use tax_return_ai.Scope.Bridge.{
  open_workspace, get_or_create_workspace_session, touch_workspace_opened,
}
use tax_return_ai.Scope.{get_workspace_for_user}
use tax_return_ai.Workspaces.{require_session_field_key}
use tax_return_ai.Security.KeyCache.{get_session_key}
use tax_return_ai.Workspaces.Pages.Readback.{AreReadBack, IsReadable, decrypt_pages-store_pages}
use tax_return_ai.Ingestion.{OcrPage}
use tax_return_ai.Tests.Classification.{test_classification_format, test_providers}
use tax_return_ai.Tests.Uploads.{test_ingestion_format, test_ocr}
use tax_return_ai.Ingestion.Steps.{store_pages}
use tax_return_ai.Tests.Documents.{receipt}

abbrev page : DocumentPage
page = record {
  id = 71;
  document_id = 61;
  page_number = 1;
  text = none;
  text_enc = some (sealed (envelope_of test_crypto test_utf8 9 77 "local-kdf-v1" "a text"));
  encryption_version = some "v1";
  key_version = some "local-kdf-v1";
  confidence = none;
  ocr_method = none;
  created_at = 70;
}

abbrev read_page : DocumentPage
read_page = record page { text = some (plain "a text") }

abbrev page_world : World
page_world = record scope_world {
  db = record (scope_world.db) {
    tax_sessions = session_in 41 (some 31) ∷ [];
    documents = receipt 61 41 ∷ [];
    pages = page ∷ [];
  };
}

page_read :
    (list_workspace_document_pages same test_crypto test_utf8 200 ann 7 31 61 page_world).0
    ≡ ok (read_page ∷ [])
unfolding list_workspace_document_pages open_workspace get_workspace_for_user
    get_or_create_workspace_session touch_workspace_opened require_session_field_key get_session_key
    decrypt_text
page_read = refl

list_workspace_document_pages-AreExposed_example :
    AreExposed
      (list_workspace_document_pages same test_crypto test_utf8 200 ann 7 31 61 page_world).1
      (read_page ∷ [])
list_workspace_document_pages-AreExposed_example =
    list_workspace_document_pages-AreExposed same test_crypto test_utf8 200 ann 7 31 61
      (read_page ∷ []) page_world (ground arith) page_read

-- An event of the session, and the legacy read of the workspace.
abbrev event_of : ℕ → String → ℕ → AuditLog
event_of id entity_type entity_id = record {
  id = id;
  entity_type = entity_type;
  entity_id = entity_id;
  action = "note";
  changed_by = "system";
  details = some (("ocr_text", text "secret") ∷ ("pages", number 2) ∷ []);
  created_at = 80;
}

abbrev event_world : World
event_world = record page_world {
  db = record (page_world.db) {
    audit = event_of 81 "tax_session" 41 ∷ event_of 82 "tax_workspace" 31 ∷ [];
  };
}

abbrev shown : List AuditLog
shown =
    record (event_of 81 "tax_session" 41) {
      details = some (("ocr_text", text "[redacted]") ∷ ("pages", number 2) ∷ []);
    }
    ∷ []

events_read : (list_workspace_audit_events same 200 ann 31 50 0 event_world).0 ≡ ok shown
unfolding list_workspace_audit_events open_workspace get_workspace_for_user
    get_or_create_workspace_session touch_workspace_opened
events_read = refl

list_workspace_audit_events-IsShown_example : All IsShown shown × (length shown ≤ 50)
list_workspace_audit_events-IsShown_example =
    list_workspace_audit_events-IsShown same 200 ann 31 50 0 shown event_world events_read

-- A text, and a page without one.
abbrev ocr_pages : List OcrPage
ocr_pages =
    record { page_number = 1; text = "a text"; confidence = none }
    ∷ record { page_number = 2; text = ""; confidence = none }
    ∷ []

-- A codec of two texts.
abbrev two_texts : TextCodec
two_texts = record {
  encode = λ s. if is_empty s then 0 else 1;
  decode = λ n. if n == 0 then "" else "a text";
  load_envelope = λ s. err invalid_tag;
}

ocr_pages-IsReadable : All (IsReadable two_texts) ocr_pages
unfolding has_prefix
ocr_pages-IsReadable = ((refl, refl), ((refl, refl), tt))

decrypt_pages-store_pages_example :
    AreReadBack test_crypto two_texts test_classification_format test_ingestion_format test_ocr
      (λ t fy. test_providers)
      test_settings
      100
      (λ n. n)
      30
      77
      ocr_pages
      page_world
      (store_pages test_crypto two_texts test_classification_format test_ingestion_format test_ocr
        (λ t fy. test_providers)
        test_settings
        100
        (λ n. n)
        30
        61
        "ocr"
        77
        0
        ocr_pages
        page_world).1
      page_world
decrypt_pages-store_pages_example =
    decrypt_pages-store_pages test_crypto two_texts test_classification_format test_ingestion_format
      test_ocr (λ t fy. test_providers) test_settings 100 (λ n. n) 30 test_crypto-IsSound 61 "ocr"
      77 0 ocr_pages page_world page_world ocr_pages-IsReadable
