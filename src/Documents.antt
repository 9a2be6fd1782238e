-- ===== src/Documents.antt =====
-- app/routers/documents.py: the checks of an uploaded file, its row and its job. The background
-- task that an upload schedules is app/services/ingestion/pipeline.py.
pub mod Upload
pub mod Routes
pub mod Listing
pub mod Paging
pub mod Isolation
use tax_return_ai.Base.{
  ℕ, suc, ◌*◌, Bool, true, false, ◌&&◌, ◌||◌, not, String, Option, none, some, List, [], ◌∷◌, ◌++◌,
  ltb, leb, ◌==◌, holds_id, if◌then◌else◌, any, select, first, map, http, Exn, ◌>>=◌, ◌>>◌, pure,
  raise, raise_if, modify, query, gets, length, ◌-◌,
}
use mathlib.Core.List.{reverse}
use tax_return_ai.Config.{Settings}
use tax_return_ai.Models.Account.{User}
use tax_return_ai.Models.Audit.{text, number}
use tax_return_ai.Models.JobRow.{Job}
use tax_return_ai.Models.Tax.{Document, DocumentStatus, uploaded}
use tax_return_ai.Models.World.{World, Service, commit, uuid4}
use tax_return_ai.Audit.{write_audit}
use tax_return_ai.Jobs.{NewJob}
use tax_return_ai.Jobs.Runner.{create_job, catch}
use tax_return_ai.Security.FieldEncryption.{is_empty}
use tax_return_ai.Text.{Text, codes, eq_text, strip, lower}
use tax_return_ai.Workspaces.{set_documents}
use tax_return_ai.Items.{text_or_null}
use tax_return_ai.Workspaces.Manual.{update_document}

-- The file of a request: what it contains is a number, of which the code takes the digest.
pub record UploadFile : Type 0 where
  pub filename : Option String
  pub content_type : Option String
  pub size : ℕ
  pub contents : ℕ

abbrev pub or_empty : Option String → String
or_empty none = ""
or_empty (some s) = s

-- `file.filename or "unknown"`
abbrev pub or_default : Option String → String → String
or_default none default = default
or_default (some s) default = if is_empty s then default else s

-- `os.path.splitext(name)[1]`, on the reversed name: what follows the last dot of the last part
-- of the path, unless only dots stand before it there.
abbrev pub has_stem : Text → Bool
has_stem [] = false
has_stem (c ∷ s) = not (c == b'/') && (not (c == b'.') || has_stem s)

abbrev pub extension_from : Text → Text → Text
extension_from [] read = []
extension_from (c ∷ s) read =
    let rest = extension_from s (c ∷ read) in
    if c == b'/' then [] else if c == b'.' then if has_stem s then c ∷ read else [] else rest

unfoldable pub extension : String → Text
extension name = lower (extension_from (reverse (codes name)) [])

-- `content_type.lower().split(";")[0].strip()`
abbrev pub before_semicolon : Text → Text
before_semicolon [] = []
before_semicolon (c ∷ s) = let rest = before_semicolon s in if c == b';' then [] else c ∷ rest

unfoldable pub normalized_content_type : String → Text
normalized_content_type s = strip (before_semicolon (lower (codes s)))

abbrev pub is_among : List String → Text → Bool
is_among names t = any (λ n. eq_text (codes n) t) names

abbrev pub allowed_mime_types : List String
allowed_mime_types = "application/pdf" ∷ "image/png" ∷ "image/jpeg" ∷ "text/csv" ∷ "text/plain" ∷ []

abbrev pub allowed_extensions : List String
allowed_extensions = ".pdf" ∷ ".png" ∷ ".jpg" ∷ ".jpeg" ∷ ".csv" ∷ ".txt" ∷ []

unfoldable pub is_supported : UploadFile → Bool
unfolding extension normalized_content_type
is_supported f =
    is_among allowed_extensions (extension (or_empty f.filename))
    || is_among allowed_mime_types (normalized_content_type (or_empty f.content_type))

abbrev pub max_size : Settings → ℕ
max_size s = s.max_upload_size_mb * 1024 * 1024

-- `status in RECOVERABLE_DUPLICATE_STATUSES`; "processing_failed" is no status of a document
abbrev pub is_recoverable : DocumentStatus → Bool
is_recoverable DocumentStatus.failed = true
is_recoverable DocumentStatus.classification_failed = true
is_recoverable _ = false

-- `order_by(Document.created_at.asc())`
abbrev pub insert_by_age : Document → List Document → List Document
insert_by_age d [] = d ∷ []
insert_by_age d (e ∷ es) =
    let rest = insert_by_age d es in if leb d.created_at e.created_at then d ∷ e ∷ es else e ∷ rest

abbrev pub by_age : List Document → List Document
by_age [] = []
by_age (d ∷ ds) = insert_by_age d (by_age ds)

abbrev pub has_hash : ℕ → ℕ → Document → Bool
has_hash session_id file_hash d = d.session_id == session_id && holds_id d.file_hash file_hash

-- What the caller of an upload gives besides the file.
pub record UploadCall : Type 0 where
  pub session_id : ℕ
  pub category : Option String
  pub financial_year : Option String
  pub workspace_id : Option ℕ
  pub owner_user_id : Option ℕ
  pub capability_token : ℕ
  pub capability_expires_at : Option ℕ

abbrev pub new_document : ℕ → ℕ → UploadCall → UploadFile → ℕ → Document
new_document now id k f file_hash = record {
  id = id;
  session_id = k.session_id;
  original_filename = or_default f.filename "unknown";
  mime_type = or_default f.content_type "application/octet-stream";
  file_size_bytes = f.size;
  file_hash = some file_hash;
  storage_path = none;
  extracted_text_hash = none;
  extraction_status = some "pending";
  extraction_text_length = some 0;
  classification_status = some "pending";
  classification_provider = none;
  classification_error = none;
  status = uploaded;
  status_reason = none;
  category = k.category;
  financial_year = k.financial_year;
  created_at = now;
}

abbrev pub ingestion_job : UploadCall → ℕ → NewJob
ingestion_job k document_id = record {
  session_id = some k.session_id;
  document_id = some document_id;
  job_type = "ingestion";
  workspace_id = k.workspace_id;
  user_id = k.owner_user_id;
  requires_encryption = true;
  capability_token_hash = none;
  capability_expires_at = k.capability_expires_at;
  payload = some "{\"stage\":\"ocr_classification\"}";
}

abbrev pub add_document : Document → World → World
add_document d = set_documents (λ documents. documents ++ d ∷ [])

abbrev pub replaced : Document → Document
replaced d = record d { status_reason = some "Replaced after previous processing failure." }

module _ (sha256_hex : ℕ → ℕ) (s : Settings) where
  -- `if existing_doc: …`
  unfoldable pub check_duplicate : Option Document → Service (Unit {0})
  check_duplicate none = pure tt
  check_duplicate (some d) =
      if is_recoverable d.status
      then modify (update_document d.id replaced)
      else raise (http 409 "duplicate_file")

  -- The row of the file and the audit row.
  unfoldable pub add_upload : ℕ → UploadCall → UploadFile → Service Document
  add_upload now k f = do
    id ← uuid4
    let d = new_document now id k f (sha256_hex f.contents)
    modify (add_document d)
    write_audit now "document" id "uploaded"
        (("filename", text_or_null f.filename) ∷ ("size", number f.size) ∷ [])
    pure d

  -- The three tests of the file.
  unfoldable pub check_file : UploadFile → Service (Unit {0})
  unfolding is_supported
  check_file f = do
    raise_if (f.size == 0) (http 400 "empty_file")
    raise_if (not (is_supported f)) (http 415 "unsupported_file_type")
    raise_if (ltb (max_size s) f.size) (http 400 "file_too_large")

  unfoldable pub upload_document : ℕ → UploadCall → UploadFile → Service (Document × Job)
  upload_document now k f = do
    check_file f
    existing ← gets (λ w.
        first (by_age (select (has_hash k.session_id (sha256_hex f.contents)) w.db.documents)))
    check_duplicate existing
    d ← add_upload now k f
    job ←
        catch (create_job sha256_hex now k.capability_token (ingestion_job k d.id))
          (λ e. raise (http 503 "temporary_processing_failure"))
    modify commit
    pure (d, job)

  -- A file of a batch is skipped where a single upload is refused; only its type is compared as
  -- it is.
  unfoldable pub is_accepted : UploadFile → Bool
  unfolding extension
  is_accepted f =
      not (f.size == 0)
      && (is_among allowed_extensions (extension (or_empty f.filename))
          || is_among allowed_mime_types (codes (or_empty f.content_type)))
      && not (ltb (max_size s) f.size)

  abbrev pub upload_next : ℕ → UploadCall → UploadFile → Service (Document × Job)
  upload_next now k f = do
    d ← add_upload now k f
    job ← create_job sha256_hex now k.capability_token (ingestion_job k d.id)
    pure (d, job)

  unfoldable pub upload_each : ℕ → UploadCall → List UploadFile → Service (List (Document × Job))
  unfolding is_accepted
  upload_each now k [] = pure []
  upload_each now k (f ∷ files) =
      let rest = upload_each now k files in
      if is_accepted f
      then (do made ← upload_next now k f; more ← rest; pure (made ∷ more))
      else rest

  -- The answer is the list of the results, and the number of the files that were skipped.
  unfoldable pub upload_documents_batch :
      ℕ → UploadCall → List UploadFile → Service (List (Document × Job) × ℕ)
  upload_documents_batch now k files = do
    raise_if (length files == 0) (http 400 "No files provided")
    raise_if (ltb 20 (length files)) (http 400 "Maximum 20 files per batch upload")
    results ← upload_each now k files
    modify commit
    pure (results, length files - length results)
