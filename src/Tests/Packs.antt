-- ===== src/Tests/Packs.antt =====
-- A workspace with one confirmed item, its review packs, and three packages in the table.
use tax_return_ai.Base.{
  ◌≢◌, Result, ℕ, ◌+◌, ◌≡◌, ◌≢◌, refl, arith, false, Option, none, some, List, [], ◌∷◌, ok, All,
}
use tax_return_ai.Models.Tax.{
  TaxItem, ReviewStatus, ExportPackageRow, ExportStatus, ready, deleted, TaxSession,
}
use tax_return_ai.Models.World.{World, commit}
use tax_return_ai.Review.EncryptedPack.{
  PackFormat, Draws, pack_row, sealed_pack, report_of, filename_of, generate_encrypted_review_pack,
  PackReport, PackMetadata, metadata_of, draft_contents, encrypt_bytes,
}
use tax_return_ai.Tests.{test_world, test_settings, test_crypto, test_crypto-IsSound, ann}
use tax_return_ai.Tests.Review.{test_format}
use tax_return_ai.Tests.Scope.{workspace_of, session_in, item_in, same}
use tax_return_ai.Text.{Text, codes}
use tax_return_ai.Auth.Password.{validate_export_password}
use tax_return_ai.Models.Account.{TaxWorkspace, User}
use tax_return_ai.Workspaces.Summary.{workspace_review_summary, summary_of, count_statuses}
use tax_return_ai.Workspaces.Pack.Laws.{
  opening, IsReadyIn, generate_workspace_pack-IsReady, generated_pack, EndsAs, summarised,
  run_export-generate,
}
use tax_return_ai.Scope.Bridge.{
  open_workspace, get_or_create_workspace_session, session_or_new, touch_workspace_opened,
}
use tax_return_ai.Scope.{get_workspace_for_user}
use tax_return_ai.Auth.Sessions.{resolve_session, has_expired}
use tax_return_ai.Jobs.Runner.{create_job, update_job_status}
use tax_return_ai.Config.{
  effective_session_idle_timeout_seconds, effective_session_absolute_timeout_seconds,
}
use tax_return_ai.Jobs.{create, update_status}
use tax_return_ai.Audit.{write_audit}
use tax_return_ai.Review.Cleanup.Laws.{IsKeyed}
use tax_return_ai.Review.Cleanup.{export_key}
use tax_return_ai.Tests.Jobs.{waiting_job}
use tax_return_ai.Models.JobRow.{running}
use tax_return_ai.Workspaces.Pack.Retired.{delete_workspace_review_pack-gone}
use tax_return_ai.Review.EncryptedPack.Archive.{IsOpened, generate_encrypted_review_pack-IsOpened}
use tax_return_ai.Workspaces.Pack.{
  PackContext, generate_workspace_encrypted_review_pack, run_export, accept_pack,
  delete_workspace_review_pack, download_workspace_review_pack, preparing,
  list_workspace_review_pack_history,
}

abbrev confirmed_item : TaxItem
confirmed_item = record (item_in 51 41) {
  needs_review = false;
  review_status = ReviewStatus.confirmed;
}

abbrev pub ready_world : World
ready_world = record test_world {
  db = record (test_world.db) {
    workspaces = workspace_of 31 1 "FY2025" ∷ [];
    tax_sessions = session_in 41 (some 31) ∷ [];
    items = confirmed_item ∷ [];
  };
}

-- The same workspace with an item that is still a draft.
abbrev pub blocked_world : World
blocked_world = record ready_world { db = record (ready_world.db) { items = item_in 51 41 ∷ [] } }

abbrev pub test_pack_format : PackFormat
test_pack_format = record {
  archive = λ contents. 7;
  file = λ envelope bytes. bytes + 1;
  size = λ bytes. bytes;
  path_in_exports = λ name. 900;
}

abbrev pub test_context : PackContext
test_context = record {
  settings = test_settings;
  crypto = test_crypto;
  pack_format = test_pack_format;
  format = test_format;
  financial_year_of = same;
  show_reasons = λ reasons. "reasons";
  show_export = λ id. "export";
}

abbrev pub test_draws : Draws
test_draws = record { salt₁ = 1; nonce₁ = 2; salt₂ = 3; nonce₂ = 4; export_id = "ab" }

abbrev pub test_password : Text
test_password = codes "correct horse battery"

-- The row that the route makes: the ids 1000 and on go to the job and to the audit rows before it.
abbrev made_pack : ExportPackageRow
made_pack =
    let report = report_of 100 31 (session_in 41 (some 31)) [] (confirmed_item ∷ []) [] in
    pack_row test_crypto test_pack_format 100 1003 31 41
      (filename_of test_crypto test_pack_format "ab")
      (sealed_pack test_crypto test_pack_format 100 test_draws test_password report
        (confirmed_item ∷ []))
      [] (confirmed_item ∷ []) []

made :
    (generated_pack test_context 100 test_draws ann 7 31 test_password false ready_world).0
    ≡ ok made_pack
unfolding generate_workspace_encrypted_review_pack workspace_review_summary summary_of
    count_statuses open_workspace get_workspace_for_user get_or_create_workspace_session
    session_or_new touch_workspace_opened resolve_session create_job run_export
    generate_encrypted_review_pack accept_pack validate_export_password has_expired
    effective_session_idle_timeout_seconds effective_session_absolute_timeout_seconds create
    write_audit update_job_status update_status
made = refl

accepted : validate_export_password (some test_password) ≡ none
unfolding validate_export_password
accepted = refl

generate_workspace_pack-IsReady_example :
    (validate_export_password (some test_password) ≡ none)
    × ((o : TaxWorkspace × TaxSession) × ((opening test_context 100 test_draws ann 7 31
            test_password false ready_world).0
          ≡ ok o)
        × IsReadyIn test_context 100 test_draws ann 7 31 test_password false o.1
            (opening test_context 100 test_draws ann 7 31 test_password false ready_world).1)
generate_workspace_pack-IsReady_example =
    generate_workspace_pack-IsReady test_context 100 test_draws ann 7 31 test_password false
      made_pack ready_world made

blocked_summary :
    summarised test_context 100 test_draws ann 7 31 test_password false blocked_world ≡ (
      ok (summary_of test_format (item_in 51 41 ∷ []) [] []),
      (summarised test_context 100 test_draws ann 7 31 test_password false blocked_world).1,
    )
unfolding workspace_review_summary open_workspace get_workspace_for_user
    get_or_create_workspace_session touch_workspace_opened
blocked_summary = refl

not_ready : (summary_of test_format (item_in 51 41 ∷ []) [] []).ready_for_export ≡ false
unfolding summary_of count_statuses
not_ready = refl

abbrev export_world : World
export_world = record ready_world {
  db = record (ready_world.db) { jobs = waiting_job 20 80 none ∷ [] };
}

run_export-generate_example :
    let generate =
      generate_encrypted_review_pack test_crypto test_pack_format 100 test_draws 31 41 test_password
        false [] in
    EndsAs 20
      (generate (commit (update_job_status 100 20 running preparing export_world).1)).0
      (run_export (λ id. "export") 100 31 20 generate export_world)
run_export-generate_example =
    run_export-generate test_crypto test_pack_format (λ id. "export") 100 20 test_draws 31 41
      test_password false [] (waiting_job 20 80 none) export_world (ground arith) refl

abbrev test_report : PackReport
test_report = report_of 100 31 (session_in 41 (some 31)) [] (confirmed_item ∷ []) []

abbrev test_metadata : PackMetadata
test_metadata =
    metadata_of test_crypto test_pack_format 100
      (draft_contents test_crypto test_pack_format test_report (confirmed_item ∷ []))
      (encrypt_bytes test_crypto test_pack_format 1 2 7 test_password).1

abbrev generated : Result ExportPackageRow × World
generated =
    generate_encrypted_review_pack test_crypto test_pack_format 100 test_draws 31 41 test_password
      false [] ready_world

abbrev generated_row : ExportPackageRow
generated_row =
    pack_row test_crypto test_pack_format 100 1000 31 41
      (filename_of test_crypto test_pack_format "ab")
      (sealed_pack test_crypto test_pack_format 100 test_draws test_password test_report
        (confirmed_item ∷ []))
      [] (confirmed_item ∷ []) []

was_generated : generated.0 ≡ ok generated_row
unfolding generate_encrypted_review_pack
was_generated = refl

generate_encrypted_review_pack-IsOpened_example :
    IsOpened test_crypto test_pack_format test_password 41 ready_world generated.1 generated_row
generate_encrypted_review_pack-IsOpened_example =
    generate_encrypted_review_pack-IsOpened test_crypto test_pack_format test_crypto-IsSound 100
      test_draws 31 41 test_password false [] generated_row ready_world was_generated

abbrev package_row : ℕ → ExportStatus → Option ℕ → ExportPackageRow
package_row id status path = record made_pack { id = id; status = status; storage_path = path }

-- A ready package, one that is marked deleted and still has its file, and one that lost it.
abbrev packages_world : World
packages_world = record ready_world {
  db = record (ready_world.db) {
    exports =
        package_row 61 ready (some 901)
        ∷ package_row 62 deleted (some 902)
        ∷ package_row 63 deleted (some 903)
        ∷ [];
  };
  files = (901, 5) ∷ (902, 6) ∷ [];
}

packages_distinct : IsKeyed packages_world
packages_distinct = ground arith

was_deleted : (delete_workspace_review_pack 100 ann 31 61 packages_world).0 ≡ ok tt
unfolding delete_workspace_review_pack get_workspace_for_user touch_workspace_opened write_audit
was_deleted = refl

delete_workspace_review_pack-gone_example :
    let v = (delete_workspace_review_pack 100 ann 31 61 packages_world).1 in
    ((later : ℕ) (reader : User) (i bytes : ℕ)
      → (download_workspace_review_pack later reader i 61 v).0 ≢ ok bytes)
    × ((later : ℕ) (reader : User) (i : ℕ) (rows : List ExportPackageRow)
        → (list_workspace_review_pack_history later reader i v).0 ≡ ok rows
        → All (λ r. export_key r ≢ 61) rows)
delete_workspace_review_pack-gone_example =
    delete_workspace_review_pack-gone 100 ann 31 61 packages_world packages_distinct was_deleted
