-- ===== src/Models/Tax.antt =====
-- app/models/tax_session.py, document.py, document_page.py, tax_item.py, document_item.py,
-- classification_result.py and export_package.py, with the enums of app/constants.
use tax_return_ai.Base.{ℕ, String, Bool, Option, List}
use tax_return_ai.Base.Int.{ℤ}

-- The envelope of a field that `encrypt_text` has sealed.
pub record Envelope : Type 0 where
  pub version : String
  pub alg : String
  pub nonce : ℕ
  pub ciphertext : ℕ
  pub key_version : String

-- The text of a field: the prefix `enc::` and the JSON of an envelope, or any other text.
pub data FieldText : Type 0 where
  plain : String → FieldText
  sealed : Envelope → FieldText

-- `ItemType`, and what else the text column may hold.
pub data ItemType : Type 0 where
  income deduction non_claimable needs_review out_of_scope : ItemType
  other : String → ItemType

-- The values that the code gives to `review_status`, and what else the column may hold.
pub data ReviewStatus : Type 0 where
  draft needs_review confirmed excluded tax_agent_review : ReviewStatus
  other : String → ReviewStatus

pub record TaxSession : Type 0 where
  pub id : ℕ
  pub workspace_id : Option ℕ
  pub title : Option String
  pub financial_year : String
  pub status : String
  pub notes : Option String
  pub created_at : ℕ

-- `DocumentStatus` of app/constants/risk.py.
pub data DocumentStatus : Type 0 where
  uploaded stored text_extracted ocr_required ocr_completed : DocumentStatus
  items_detected classification_pending extraction_failed : DocumentStatus
  normalised duplicate_detected ready_for_classification classified : DocumentStatus
  classification_failed needs_review processing processed failed : DocumentStatus
  reviewed exported : DocumentStatus

pub record Document : Type 0 where
  pub id : ℕ
  pub session_id : ℕ
  pub original_filename : String
  pub mime_type : String
  pub file_size_bytes : ℕ
  pub file_hash : Option ℕ
  pub storage_path : Option ℕ
  pub extracted_text_hash : Option ℕ
  pub extraction_status : Option String
  pub extraction_text_length : Option ℕ
  pub classification_status : Option String
  pub classification_provider : Option String
  pub classification_error : Option String
  pub status : DocumentStatus
  pub status_reason : Option String
  pub category : Option String
  pub financial_year : Option String
  pub created_at : ℕ

pub record DocumentPage : Type 0 where
  pub id : ℕ
  pub document_id : ℕ
  pub page_number : ℕ
  pub text : Option FieldText
  pub text_enc : Option FieldText
  pub encryption_version : Option String
  pub key_version : Option String
  pub confidence : Option ℕ
  pub ocr_method : Option String
  pub created_at : ℕ

pub record TaxItem : Type 0 where
  pub id : ℕ
  pub session_id : ℕ
  pub item_type : ItemType
  pub category : String
  pub amount : Option ℤ
  pub description : Option FieldText
  pub description_enc : Option FieldText
  pub notes : Option FieldText
  pub notes_enc : Option FieldText
  pub confidence : Option ℕ
  pub needs_review : Bool
  pub review_status : ReviewStatus
  pub review_reason : Option FieldText
  pub review_reason_enc : Option FieldText
  pub encryption_version : Option String
  pub key_version : Option String
  pub ato_reference_hint : Option String
  pub reviewed_at : Option ℕ
  pub reviewed_by : Option String
  pub created_at : ℕ

pub record DocumentItem : Type 0 where
  pub id : ℕ
  pub document_id : ℕ
  pub tax_item_id : ℕ
  pub page_number : Option ℕ
  pub snippet : Option String
  pub ocr_confidence : Option ℕ
  pub created_at : ℕ

pub record ClassificationRow : Type 0 where
  pub id : ℕ
  pub document_id : ℕ
  pub session_id : ℕ
  pub provider_name : String
  pub raw_input : Option FieldText
  pub raw_input_enc : Option FieldText
  pub raw_output : Option FieldText
  pub raw_output_enc : Option FieldText
  pub encryption_version : Option String
  pub key_version : Option String
  pub parsed_output : Option String
  pub confidence : Option ℕ
  pub processing_time_ms : Option ℕ
  pub success : Bool
  pub error_message : Option String
  pub model_version : Option String
  pub created_at : ℕ

-- `status` of an export package: the two values that the code gives, and what else it may hold.
pub data ExportStatus : Type 0 where
  ready deleted : ExportStatus
  other : String → ExportStatus

pub record ExportPackageRow : Type 0 where
  pub id : ℕ
  pub session_id : ℕ
  pub workspace_id : Option ℕ
  pub filename : Option String
  pub status : ExportStatus
  pub format : String
  pub encrypted : Bool
  pub kdf : Option String
  pub encryption_version : Option String
  pub kdf_params_summary : Option String
  pub downloaded_at : Option ℕ
  pub file_size : Option ℕ
  pub sha256 : Option ℕ
  pub document_count : Option ℕ
  pub blocking_reasons : Option (List String)
  pub storage_path : Option ℕ
  pub item_count : ℕ
  pub export_data : Option String
  pub exported_by : Option String
  pub created_at : ℕ
