-- ===== src/Workspaces/Pack.antt =====
-- The routes of app/routers/workspaces.py on encrypted review packs. The text of a list of reasons
-- and that of a JSON result are the arguments `show_reasons` and `show_export`.
pub mod Laws
pub mod Retired
use tax_return_ai.Base.{
  ℕ, Bool, true, false, ◌&&◌, not, String, ◌<>◌, Option, none, some, List, [], ◌∷◌, ◌==◌, is_some,
  holds_id, leb, if◌then◌else◌, select, scalar_one_or_none, Exn, value_error, http, ◌>>=◌, ◌>>◌,
  pure, raise, raise_if, return_if, modify, query, gets, Result, ok, err, or_raise,
}
use tax_return_ai.Base.Dict.{lookup}
use tax_return_ai.Config.{Settings}
use tax_return_ai.Models.Account.{User, AuthSession}
use tax_return_ai.Models.Audit.{text, ident, number, flag, null, Value}
use tax_return_ai.Models.JobRow.{Job, running, succeeded, failed}
use tax_return_ai.Models.Tax.{ExportPackageRow}
use tax_return_ai.Models.World.{World, Service, commit}
use tax_return_ai.Audit.{write_audit}
use tax_return_ai.Auth.Crypto.{Crypto}
use tax_return_ai.Auth.Password.{validate_export_password}
use tax_return_ai.Auth.Sessions.{resolve_session}
use tax_return_ai.Jobs.{Extra, NewJob}
use tax_return_ai.Jobs.Runner.{create_job, update_job_status, number_or_null, catch}
use tax_return_ai.Review.Cleanup.{
  ExportCleanupResult, is_deleted, update_export, file_exists, unlink, has_path, retired,
  cleanup_deleted_review_packs,
}
use tax_return_ai.Review.EncryptedPack.{PackFormat, Draws, generate_encrypted_review_pack}
use tax_return_ai.Review.Format.{Format}
use tax_return_ai.Scope.{get_workspace_for_user, not_found}
use tax_return_ai.Scope.Bridge.{open_workspace, touch_workspace_opened}
use tax_return_ai.Text.{Text, codes}
use tax_return_ai.Workspaces.Summary.{Summary, workspace_review_summary}

abbrev pub preparing : Extra
preparing = record {
  progress = some 20;
  progress_message = some "Preparing encrypted review pack";
  error_message = none;
  result_summary = none;
}

abbrev pub not_generated : String → Extra
not_generated message = record {
  progress = none;
  progress_message = none;
  error_message = some message;
  result_summary = none;
}

abbrev pub generated : String → Extra
generated summary = record {
  progress = some 100;
  progress_message = some "Encrypted review pack generated";
  error_message = none;
  result_summary = some summary;
}

abbrev pub expiry_of : Option AuthSession → Option ℕ
expiry_of none = none
expiry_of (some a) = some a.expires_at

-- The arguments of `create_job`.
abbrev pub export_job : ℕ → ℕ → ℕ → Option ℕ → NewJob
export_job session_id workspace_id user_id expires_at = record {
  session_id = some session_id;
  document_id = none;
  job_type = "export";
  workspace_id = some workspace_id;
  user_id = some user_id;
  requires_encryption = true;
  capability_token_hash = none;
  capability_expires_at = expires_at;
  payload = some "{\"stage\":\"review_pack_generation\"}";
}

-- The two handlers of the exceptions: a `ValueError` becomes a refusal of the request.
abbrev pub failure_message : Exn → String
failure_message (value_error message) = "Export generation blocked"
failure_message e = "Export generation failed"

abbrev pub refusal : Exn → Exn
refusal (value_error message) = http 400 message
refusal e = e

unfoldable pub refuse_pack : ℕ → ℕ → Exn → Service ExportPackageRow
refuse_pack now job_id e = do
  update_job_status now job_id failed (not_generated (failure_message e))
  modify commit
  raise (refusal e)

module _ (show_export : ℕ → String) where
  unfoldable pub accept_pack : ℕ → ℕ → ℕ → ExportPackageRow → Service ExportPackageRow
  accept_pack now workspace_id job_id pack = do
    write_audit now "export_package" pack.id "encrypted_review_pack_generated" (
        ("workspace_id", ident workspace_id)
        ∷ ("export_id", ident pack.id)
        ∷ ("encrypted", flag true)
        ∷ ("job_id", ident job_id)
        ∷ [])
    update_job_status now job_id succeeded (generated (show_export pack.id))
    modify commit
    pure pack

  -- From the running job on: `try: … except …`, and the end.
  unfoldable pub run_export : ℕ → ℕ → ℕ → Service ExportPackageRow → Service ExportPackageRow
  run_export now workspace_id job_id generate = do
    update_job_status now job_id running preparing
    modify commit
    pack ← catch generate (refuse_pack now job_id)
    accept_pack now workspace_id job_id pack

-- What the routes take from the settings and the libraries.
pub record PackContext : Type 0 where
  pub settings : Settings
  pub crypto : Crypto
  pub pack_format : PackFormat
  pub format : Format
  pub financial_year_of : String → String
  pub show_reasons : List String → String
  pub show_export : ℕ → String

module _ (x : PackContext) where
  abbrev pub check_password : Option String → Service (Unit {0})
  check_password none = pure tt
  check_password (some message) = raise (http 400 message)

  unfoldable pub generate_workspace_encrypted_review_pack :
      ℕ → Draws → User → ℕ → ℕ → Text → Bool → Service ExportPackageRow
  generate_workspace_encrypted_review_pack now draws user token workspace_id export_password
        include_source_documents =
      do
        check_password (validate_export_password (some export_password))
        summary ← workspace_review_summary x.financial_year_of x.format now user workspace_id
        raise_if (not summary.ready_for_export)
            (http 409 ("Review pack is blocked: " <> x.show_reasons summary.blocking_reasons))
        opened ← open_workspace x.financial_year_of now user workspace_id
        let session = opened.1
        resolved ← resolve_session x.crypto x.settings now token
        job ←
            create_job x.crypto.sha256_hex now token
              (export_job session.id workspace_id user.id (expiry_of resolved.1))
        run_export x.show_export now workspace_id job.id (
            generate_encrypted_review_pack x.crypto x.pack_format now draws workspace_id session.id
              export_password include_source_documents summary.blocking_reasons)

-- `order_by(ExportPackageModel.created_at.desc())`
abbrev pub insert_newest : ExportPackageRow → List ExportPackageRow → List ExportPackageRow
insert_newest r [] = r ∷ []
insert_newest r (s ∷ rows) =
    let rest = insert_newest r rows in
    if leb s.created_at r.created_at then r ∷ s ∷ rows else s ∷ rest

abbrev pub newest_first : List ExportPackageRow → List ExportPackageRow
newest_first [] = []
newest_first (r ∷ rows) = insert_newest r (newest_first rows)

abbrev pub is_listed : ℕ → ExportPackageRow → Bool
is_listed workspace_id r =
    holds_id r.workspace_id workspace_id && not (is_deleted r) && is_some r.storage_path

unfoldable pub list_workspace_review_pack_history : ℕ → User → ℕ → Service (List ExportPackageRow)
list_workspace_review_pack_history now user workspace_id = do
  workspace ← get_workspace_for_user user workspace_id
  touch_workspace_opened now workspace
  gets (λ w. newest_first (select (is_listed workspace_id) w.db.exports))

abbrev pub in_workspace : ℕ → ExportPackageRow → Bool
in_workspace workspace_id r = holds_id r.workspace_id workspace_id

abbrev pub find_export : ℕ → ℕ → Service (Option ExportPackageRow)
find_export workspace_id export_id = query (λ w.
    scalar_one_or_none
      (select (λ r. r.id == export_id && in_workspace workspace_id r) w.db.exports))

-- `if not record or not record.storage_path`
abbrev pub downloadable : Option ExportPackageRow → Service ExportPackageRow
downloadable none = not_found "Export package not found"
downloadable (some r) =
    if has_path r.storage_path then pure r else not_found "Export package not found"

abbrev pub contents_of : Option ℕ → World → Option ℕ
contents_of none w = none
contents_of (some path) w = lookup path w.files

abbrev pub downloaded : ℕ → ExportPackageRow → ExportPackageRow
downloaded now r = record r { downloaded_at = some now }

abbrev pub export_details : ℕ → ℕ → List (String × Value)
export_details workspace_id export_id =
    ("workspace_id", ident workspace_id) ∷ ("export_id", ident export_id) ∷ []

-- The answer is the contents of the file.
unfoldable pub download_workspace_review_pack : ℕ → User → ℕ → ℕ → Service ℕ
download_workspace_review_pack now user workspace_id export_id = do
  workspace ← get_workspace_for_user user workspace_id
  touch_workspace_opened now workspace
  found ← find_export workspace_id export_id
  pack ← downloadable found
  contents ← gets (contents_of pack.storage_path)
  bytes ← or_raise contents (http 404 "Export file not found")
  modify (update_export pack.id (downloaded now))
  write_audit now "export_package" pack.id "review_pack_downloaded"
      (export_details workspace_id pack.id)
  modify commit
  pure bytes

unfoldable pub delete_workspace_review_pack : ℕ → User → ℕ → ℕ → Service (Unit {0})
delete_workspace_review_pack now user workspace_id export_id = do
  workspace ← get_workspace_for_user user workspace_id
  touch_workspace_opened now workspace
  found ← find_export workspace_id export_id
  pack ← or_raise found (http 404 "Export package not found")
  modify (λ w. if has_path pack.storage_path then unlink pack.storage_path w else w)
  modify (update_export pack.id retired)
  write_audit now "export_package" pack.id "review_pack_deleted"
      (export_details workspace_id pack.id)
  modify commit

unfoldable pub cleanup_workspace_review_pack_files :
    ℕ → User → ℕ → Option ℕ → Bool → Service ExportCleanupResult
cleanup_workspace_review_pack_files now user workspace_id older_than_days include_ready_exports = do
  get_workspace_for_user user workspace_id
  result ← cleanup_deleted_review_packs now older_than_days include_ready_exports
  write_audit now "workspace" workspace_id "review_pack_cleanup_run" (
      ("older_than_days", number_or_null older_than_days)
      ∷ ("include_ready_exports", flag include_ready_exports)
      ∷ ("deleted_file_count", number result.deleted_file_count)
      ∷ ("marked_deleted_count", number result.marked_deleted_count)
      ∷ [])
  modify commit
  pure result
