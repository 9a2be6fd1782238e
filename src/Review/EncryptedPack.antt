-- ===== src/Review/EncryptedPack.antt =====
-- app/services/export/encrypted_pack.py: the encrypted review pack of a session. Its archive is a
-- value of PackContents; that JSON, CSV and ZipFile make bytes of it, and the layout of the file,
-- are the parameter PackFormat.
pub mod Archive
use tax_return_ai.Base.{
  ℕ, Bool, true, false, String, ◌<>◌, Option, none, some, List, [], ◌∷◌, ◌++◌, ◌==◌, select, length,
  map, scalar_one_or_none, value_error, ◌>>=◌, ◌>>◌, pure, raise, raise_if, modify, query, gets,
  is_some, if◌then◌else◌,
}
use tax_return_ai.Base.Dict.{insert}
use tax_return_ai.Base.Int.{ℤ}
use tax_return_ai.Models.Account.{Kdf, argon2id, pbkdf2_sha256_600k}
use tax_return_ai.Models.Tax.{
  FieldText, TaxSession, TaxItem, ItemType, ReviewStatus, Document, ExportPackageRow, ready,
}
use tax_return_ai.Models.World.{World, Service, uuid4}
use tax_return_ai.Auth.Crypto.{Crypto}
use tax_return_ai.Review.Cleanup.{set_exports}
use tax_return_ai.Text.{Text}

abbrev pub pack_version : String
pack_version = "1.0"

-- `kdf_params`
abbrev pub kdf_params : Kdf → String
kdf_params argon2id = "{\"time_cost\":3,\"memory_cost\":65536,\"parallelism\":2}"
kdf_params pbkdf2_sha256_600k = "{\"iterations\":600000}"

abbrev pub kdf_name : Kdf → String
kdf_name argon2id = "argon2id"
kdf_name pbkdf2_sha256_600k = "pbkdf2_sha256_600k"

-- The dict `envelope`, which is the first line of the file.
pub record PackEnvelope : Type 0 where
  pub version : String
  pub alg : String
  pub kdf : Kdf
  pub params : String
  pub salt : ℕ
  pub nonce : ℕ

-- One entry of `confirmed_items`, of `items`, and one row of the evidence index, whose two
-- columns on the source document stay empty.
pub record ConfirmedLine : Type 0 where
  pub id : ℕ
  pub category : String
  pub amount : Option ℤ
  pub description : Option FieldText

pub record ExtractedLine : Type 0 where
  pub id : ℕ
  pub item_type : ItemType
  pub category : String
  pub amount : Option ℤ
  pub description : Option FieldText
  pub confidence : Option ℕ
  pub review_status : ReviewStatus
  pub review_reason : Option FieldText

pub record EvidenceLine : Type 0 where
  pub item_id : ℕ
  pub category : String
  pub amount : Option ℤ
  pub status : ReviewStatus
  pub confidence : Option ℕ
  pub reviewer_note : Option FieldText

pub record PackReport : Type 0 where
  pub workspace_id : ℕ
  pub session_id : ℕ
  pub financial_year : String
  pub generated_at : ℕ
  pub total_items : ℕ
  pub confirmed : ℕ
  pub excluded : ℕ
  pub tax_agent_review : ℕ
  pub document_count : ℕ
  pub confirmed_items : List ConfirmedLine
  pub blocking_reasons_snapshot : List String
  pub disclaimer : String

-- The `encryption` entry of the metadata: the envelope without its version.
pub record PackEncryption : Type 0 where
  pub alg : String
  pub kdf : Kdf
  pub kdf_params : String
  pub salt : ℕ
  pub nonce : ℕ

pub record PackMetadata : Type 0 where
  pub app : String
  pub export_format_version : String
  pub encryption : PackEncryption
  pub generated_at : ℕ
  pub plaintext_manifest_sha256 : ℕ
  pub package_contents : List String

-- The four files of the archive: `none` is the placeholder for the metadata.
pub record PackContents : Type 0 where
  pub report : PackReport
  pub extracted : List ExtractedLine
  pub evidence : List EvidenceLine
  pub metadata : Option PackMetadata

-- `archive` makes the bytes of the zip file, `file` puts the line of the envelope before the
-- ciphertext, `size` is the length of a file, and `path_in_exports` is the path of a name in the
-- export directory.
pub record PackFormat : Type 0 where
  pub archive : PackContents → ℕ
  pub file : PackEnvelope → ℕ → ℕ
  pub size : ℕ → ℕ
  pub path_in_exports : String → ℕ

abbrev pub has_status : ReviewStatus → TaxItem → Bool
has_status ReviewStatus.confirmed i = elim i.review_status [
  | ReviewStatus.confirmed ↦ true
  | _ ↦ false
]
has_status ReviewStatus.excluded i = elim i.review_status [
  | ReviewStatus.excluded ↦ true
  | _ ↦ false
]
has_status ReviewStatus.tax_agent_review i = elim i.review_status [
  | ReviewStatus.tax_agent_review ↦ true
  | _ ↦ false
]
has_status _ i = false

abbrev pub confirmed_line : TaxItem → ConfirmedLine
confirmed_line i = record {
  id = i.id;
  category = i.category;
  amount = i.amount;
  description = i.description;
}

abbrev pub extracted_line : TaxItem → ExtractedLine
extracted_line i = record {
  id = i.id;
  item_type = i.item_type;
  category = i.category;
  amount = i.amount;
  description = i.description;
  confidence = i.confidence;
  review_status = i.review_status;
  review_reason = i.review_reason;
}

abbrev pub evidence_line : TaxItem → EvidenceLine
evidence_line i = record {
  item_id = i.id;
  category = i.category;
  amount = i.amount;
  status = i.review_status;
  confidence = i.confidence;
  reviewer_note = i.review_reason;
}

-- `_build_evidence_index_csv`
unfoldable pub build_evidence_index_csv : List TaxItem → List EvidenceLine
build_evidence_index_csv items = map evidence_line items

abbrev pub report_of : ℕ → ℕ → TaxSession → List Document → List TaxItem → List String → PackReport
report_of now workspace_id session documents items blocking_reasons = record {
  workspace_id = workspace_id;
  session_id = session.id;
  financial_year = session.financial_year;
  generated_at = now;
  total_items = length items;
  confirmed = length (select (has_status ReviewStatus.confirmed) items);
  excluded = length (select (has_status ReviewStatus.excluded) items);
  tax_agent_review = length (select (has_status ReviewStatus.tax_agent_review) items);
  document_count = length documents;
  confirmed_items = map confirmed_line (select (has_status ReviewStatus.confirmed) items);
  blocking_reasons_snapshot = blocking_reasons;
  disclaimer =
      "This review pack is prepared for human review and is not a final tax return or lodgement.";
}

module _ (c : Crypto) where
  -- `_derive_key`: argon2 where it is available
  key_or_pbkdf2 : Text → ℕ → Option ℕ → Kdf × ℕ
  key_or_pbkdf2 password salt (some key) = (argon2id, key)
  key_or_pbkdf2 password salt none = (pbkdf2_sha256_600k, c.pbkdf2 password salt)

  unfoldable pub derive_key : Text → ℕ → Kdf × ℕ
  unfolding key_or_pbkdf2
  derive_key password salt = key_or_pbkdf2 password salt (c.argon2 password salt)

  abbrev pub envelope_of : Kdf → ℕ → ℕ → PackEnvelope
  envelope_of kdf salt nonce = record {
    version = pack_version;
    alg = "AES-256-GCM";
    kdf = kdf;
    params = kdf_params kdf;
    salt = salt;
    nonce = nonce;
  }

  module _ (f : PackFormat) where
    -- `_encrypt_bytes`, with the salt and the nonce that it draws
    unfoldable pub encrypt_bytes : ℕ → ℕ → ℕ → Text → ℕ × PackEnvelope
    encrypt_bytes salt nonce plaintext password =
        let (kdf, key) = derive_key password salt in
        let envelope = envelope_of kdf salt nonce in
        (f.file envelope (c.encrypt key nonce plaintext), envelope)

-- What the service draws at random: a salt and a nonce for each of its two encryptions, and the
-- token of the file name.
pub record Draws : Type 0 where
  pub salt₁ : ℕ
  pub nonce₁ : ℕ
  pub salt₂ : ℕ
  pub nonce₂ : ℕ
  pub export_id : String

abbrev pub package_files : List String
package_files =
    "review-report.json" ∷ "extracted-items.json" ∷ "evidence-index.csv" ∷ "metadata.json" ∷ []

module _ (c : Crypto) (f : PackFormat) where
  -- The first archive, whose metadata is a placeholder.
  abbrev pub draft_contents : PackReport → List TaxItem → PackContents
  draft_contents report items = record {
    report = report;
    extracted = map extracted_line items;
    evidence = build_evidence_index_csv items;
    metadata = none;
  }

  -- The metadata, from the envelope of the first encryption.
  unfoldable pub metadata_of : ℕ → PackContents → PackEnvelope → PackMetadata
  metadata_of now draft envelope = record {
    app = "Tax Return AI";
    export_format_version = pack_version;
    encryption = record {
      alg = envelope.alg;
      kdf = envelope.kdf;
      kdf_params = envelope.params;
      salt = envelope.salt;
      nonce = envelope.nonce;
    };
    generated_at = now;
    plaintext_manifest_sha256 = c.sha256_hex (f.archive draft);
    package_contents = package_files;
  }

  unfoldable pub final_contents : ℕ → Draws → Text → PackReport → List TaxItem → PackContents
  final_contents now draws password report items =
      let draft = draft_contents report items in
      let first = encrypt_bytes c f draws.salt₁ draws.nonce₁ (f.archive draft) password in
      record draft { metadata = some (metadata_of now draft first.1) }

  -- The file and its envelope.
  unfoldable pub sealed_pack : ℕ → Draws → Text → PackReport → List TaxItem → ℕ × PackEnvelope
  sealed_pack now draws password report items =
      encrypt_bytes c f draws.salt₂ draws.nonce₂
        (f.archive (final_contents now draws password report items)) password

  abbrev pub filename_of : String → String
  filename_of export_id = "tax-review-pack-" <> export_id <> ".enc.zip"

  abbrev pub pack_row :
      ℕ
      → ℕ
      → ℕ
      → ℕ
      → String
      → ℕ × PackEnvelope
      → List Document
      → List TaxItem
      → List String
      → ExportPackageRow
  pack_row now id workspace_id session_id filename pack documents items blocking_reasons = record {
    id = id;
    session_id = session_id;
    workspace_id = some workspace_id;
    filename = some filename;
    status = ready;
    format = "enc_zip_v1";
    encrypted = true;
    kdf = some (kdf_name pack.1.kdf);
    encryption_version = some pack_version;
    kdf_params_summary = some pack.1.params;
    downloaded_at = none;
    file_size = some (f.size pack.0);
    sha256 = some (c.sha256_hex pack.0);
    document_count = some (length documents);
    blocking_reasons = some blocking_reasons;
    storage_path = some (f.path_in_exports filename);
    item_count = length items;
    export_data = none;
    exported_by = some "user";
    created_at = now;
  }

  abbrev pub write_bytes : ℕ → ℕ → World → World
  write_bytes path bytes w = record w { files = insert path bytes w.files }

  session_or_raise : Option TaxSession → Service TaxSession
  session_or_raise none = raise (value_error "Session not found")
  session_or_raise (some s) = pure s

  -- `export_password` is the password, `include_source_documents` the flag of the request.
  unfoldable pub generate_encrypted_review_pack :
      ℕ → Draws → ℕ → ℕ → Text → Bool → List String → Service ExportPackageRow
  unfolding session_or_raise
  generate_encrypted_review_pack now draws workspace_id session_id export_password
        include_source_documents blocking_reasons =
      do
        raise_if include_source_documents
            (value_error "include_source_documents is not supported in this MVP")
        row ← query (λ w. scalar_one_or_none (select (λ s. s.id == session_id) w.db.tax_sessions))
        session ← session_or_raise row
        documents ← gets (λ w. select (λ d. d.session_id == session_id) w.db.documents)
        items ← gets (λ w. select (λ i. i.session_id == session_id) w.db.items)
        let report = report_of now workspace_id session documents items blocking_reasons
        let pack = sealed_pack now draws export_password report items
        let filename = filename_of draws.export_id
        modify (write_bytes (f.path_in_exports filename) pack.0)
        id ← uuid4
        let record' =
            pack_row now id workspace_id session_id filename pack documents items blocking_reasons
        modify (set_exports (λ rows. rows ++ record' ∷ []))
        pure record'
