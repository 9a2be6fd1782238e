-- ===== src/Ingestion.antt =====
-- app/services/ingestion/pipeline.py: what the pipeline of an upload writes to the document, its pages
-- and its job. app/ocr/dispatch.py is the child module Ocr; the steps are in
-- Steps and Classifying.
pub mod Ocr
pub mod Background
pub mod Classifying
pub mod Copies
pub mod Finished
pub mod Kept
pub mod Pages
pub mod Stable
pub mod Steps
use tax_return_ai.Base.{
  ℕ, Bool, true, false, ◌&&◌, not, String, ◌<>◌, Option, none, some, List, [], ◌∷◌, ◌++◌, ◌==◌,
  holds_id, if◌then◌else◌, first, select, length, Exn, gets,
}
use tax_return_ai.Models.Tax.{
  Document, DocumentStatus, DocumentPage, duplicate_detected, stored, classified,
  classification_failed,
}
use tax_return_ai.Models.World.{World, Service}
use tax_return_ai.Classification.{Provider, not_configured_message}
use tax_return_ai.Jobs.{Extra}
use tax_return_ai.Security.FieldEncryption.{is_empty}
use tax_return_ai.Text.{codes, strip}

pub record OcrPage : Type 0 where
  pub page_number : ℕ
  pub text : String
  pub confidence : Option ℕ

pub record OcrResult : Type 0 where
  pub pages : List OcrPage
  pub method : String

-- What Python's formatting and hashing give. `provider_class` is the lowered name of the class of a
-- provider without "Provider", and `lower_text` lowers a setting.
pub record IngestionFormat : Type 0 where
  pub provider_class : Provider → String
  pub lower_text : String → String
  pub show_id : ℕ → String
  pub show_number : ℕ → String
  pub show : Exn → String
  pub type_name : Exn → String
  pub sha256_bytes : ℕ → ℕ
  pub sha256_text : String → ℕ

-- The arguments of `process_upload` that it uses.
pub record IngestionCall : Type 0 where
  pub document_id : ℕ
  pub job_id : ℕ
  pub session_id : ℕ
  pub original_filename : String
  pub mime_type : String
  pub file_data : ℕ
  pub file_size : ℕ

-- `"\n\n".join(p.text for p in self.pages)`
abbrev pub join_pages : List OcrPage → String
join_pages [] = ""
join_pages (p ∷ []) = p.text
join_pages (p ∷ q ∷ pages) = p.text <> "\n\n" <> join_pages (q ∷ pages)

unfoldable pub full_text : OcrResult → String
full_text r = join_pages r.pages

-- `not text.strip()`
unfoldable pub is_blank : String → Bool
is_blank s = length (strip (codes s)) == 0

abbrev pub started : Extra
started = record {
  progress = some 0;
  progress_message = none;
  error_message = none;
  result_summary = none;
}

abbrev pub progress_at : ℕ → String → Extra
progress_at percent message = record {
  progress = some percent;
  progress_message = some message;
  error_message = none;
  result_summary = none;
}

abbrev pub done : String → String → Extra
done message summary = record {
  progress = some 100;
  progress_message = some message;
  error_message = none;
  result_summary = some summary;
}

abbrev pub gave_up : String → String → Extra
gave_up message summary = record {
  progress = none;
  progress_message = none;
  error_message = some message;
  result_summary = some summary;
}

abbrev pub is_copy : ℕ → ℕ → ℕ → Document → Bool
is_copy session_id file_hash document_id d =
    d.session_id == session_id && holds_id d.file_hash file_hash && not (d.id == document_id)

unfoldable pub check_hash_duplicate : ℕ → ℕ → ℕ → Service (Option Document)
check_hash_duplicate session_id file_hash document_id =
    gets (λ w. first (select (is_copy session_id file_hash document_id) w.db.documents))

abbrev pub id_of : Option Document → Option ℕ
id_of none = none
id_of (some d) = some d.id

abbrev pub add_page : DocumentPage → World → World
add_page p w = record w { db = record (w.db) { pages = w.db.pages ++ p ∷ [] } }

abbrev pub unless_empty {ℓ} : {A : Type ℓ} → String → A → Option A
unless_empty s a = if is_empty s then none else some a

-- What the duplicate check writes, with the reason if there is a duplicate.
abbrev pub checked : ℕ → Option String → Document → Document
checked file_hash reason d = record d {
  file_hash = some file_hash;
  status = elim reason [ none ↦ stored | some r ↦ duplicate_detected ];
  status_reason = reason;
  extraction_status = some "pending";
  extraction_text_length = some 0;
  classification_status = some "pending";
  classification_provider = none;
  classification_error = none;
}

abbrev pub with_status : DocumentStatus → Document → Document
with_status status d = record d { status = status }

abbrev pub extracted : (String → ℕ) → String → Document → Document
extracted sha256_text t d = record d {
  extraction_text_length = some (length (codes t));
  extraction_status = some (if is_blank t then "no_text" else "extracted");
  extracted_text_hash = unless_empty t (sha256_text t);
}

abbrev pub textless : Document → Document
textless d = record d {
  status = DocumentStatus.needs_review;
  status_reason = some "OCR returned no text.";
  classification_status = some "pending";
  classification_error = some "No extractable text from OCR.";
}

abbrev pub pending_with : String → Document → Document
pending_with provider_name d = record d {
  classification_provider = unless_empty provider_name provider_name;
  classification_status = some "pending";
  classification_error = none;
}

-- The four outcomes of the classification.
abbrev pub itemless : Document → Document
itemless d = record d {
  status = DocumentStatus.needs_review;
  status_reason = some "Classification produced no items — manual review required.";
  classification_status = some "needs_review";
  classification_error = some "Classification produced no items.";
}

abbrev pub classified_now : Document → Document
classified_now d = record d {
  status = classified;
  status_reason = none;
  classification_status = some "classified";
  classification_error = none;
}

abbrev pub needs_setup : String
needs_setup = "Text extracted; AI classification needs setup/manual review."

abbrev pub unconfigured : Document → Document
unconfigured d = record d {
  status = DocumentStatus.needs_review;
  status_reason = some needs_setup;
  classification_status = some "not_configured";
  classification_error = some not_configured_message;
}

abbrev pub unclassified : String → Document → Document
unclassified message d = record d {
  status = classification_failed;
  status_reason = some "Text extracted, but classification failed. Manual review required.";
  classification_status = some "failed";
  classification_error = some message;
}
