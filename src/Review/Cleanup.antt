-- ===== src/Review/Cleanup.antt =====
-- app/services/export/cleanup.py: the removal of the files of old export packages. A path is a
-- number, and 0 is the empty text. Every path of the file system that the code can meet here is
-- that of a file, or of no file.
pub mod Laws
use tax_return_ai.Base.{
  ℕ, ◌+◌, ◌*◌, suc, Bool, true, false, ◌&&◌, not, Option, none, some, List, [], ◌∷◌, ltb, leb, ◌==◌,
  is_some, if◌then◌else◌, select, update_where, call, Action, ok, ◌>>=◌, pure,
}
use tax_return_ai.Base.Dict.{lookup, erase}
use tax_return_ai.Config.{timedelta}
use tax_return_ai.Models.Tax.{ExportPackageRow, ExportStatus, ready, deleted}
use tax_return_ai.Models.World.{World, Service}

pub record ExportCleanupResult : Type 0 where
  pub deleted_file_count : ℕ
  pub skipped_missing_file_count : ℕ
  pub marked_deleted_count : ℕ

abbrev pub export_key : ExportPackageRow → ℕ
export_key r = r.id

abbrev pub is_deleted : ExportPackageRow → Bool
is_deleted r = elim r.status [ deleted ↦ true | _ ↦ false ]

abbrev pub is_ready : ExportPackageRow → Bool
is_ready r = elim r.status [ ready ↦ true | _ ↦ false ]

abbrev pub set_exports : (List ExportPackageRow → List ExportPackageRow) → World → World
set_exports f w = record w { db = record (w.db) { exports = f w.db.exports } }

abbrev pub update_export : ℕ → (ExportPackageRow → ExportPackageRow) → World → World
update_export export_id f = set_exports (update_where (λ r. r.id == export_id) f)

-- `path.exists() and path.is_file()`
abbrev pub file_exists : Option ℕ → World → Bool
file_exists none w = false
file_exists (some path) w = not (path == 0) && is_some (lookup path w.files)

-- `path.unlink()`
abbrev pub unlink : Option ℕ → World → World
unlink path w = record w { files = elim path [ none ↦ w.files | some p ↦ erase p w.files ] }

-- `if record.storage_path`
abbrev pub has_path : Option ℕ → Bool
has_path none = false
has_path (some path) = not (path == 0)

abbrev pub without_path : ExportPackageRow → ExportPackageRow
without_path r = record r { storage_path = none }

abbrev pub retired : ExportPackageRow → ExportPackageRow
retired r = record r { storage_path = none; status = deleted }

abbrev pub no_result : ExportCleanupResult
no_result = record {
  deleted_file_count = 0;
  skipped_missing_file_count = 0;
  marked_deleted_count = 0;
}

abbrev pub one_deleted : ExportCleanupResult → ExportCleanupResult
one_deleted n = record n { deleted_file_count = suc n.deleted_file_count }

abbrev pub one_skipped : ExportCleanupResult → ExportCleanupResult
one_skipped n = record n { skipped_missing_file_count = suc n.skipped_missing_file_count }

abbrev pub one_marked : ExportCleanupResult → ExportCleanupResult
one_marked n = record n { marked_deleted_count = suc n.marked_deleted_count }

-- One round of the loop over the rows that are marked deleted.
unfoldable pub clean_deleted :
    ExportPackageRow → ExportCleanupResult × World → ExportCleanupResult × World
clean_deleted r (n, w) =
    if not (has_path r.storage_path)
    then (one_skipped n, w)
    else if file_exists r.storage_path w
    then (one_deleted n, update_export r.id without_path (unlink r.storage_path w))
    else (one_skipped n, update_export r.id without_path w)

-- One round of the loop over the old rows.
unfoldable pub clean_old :
    Bool → ExportPackageRow → ExportCleanupResult × World → ExportCleanupResult × World
clean_old include_ready_exports r (n, w) =
    if is_ready r && not include_ready_exports
    then (n, w)
    else if file_exists r.storage_path w
    then (one_marked (one_deleted n), update_export r.id retired (unlink r.storage_path w))
    else (one_marked n, update_export r.id retired w)

unfoldable pub clean_all_deleted :
    List ExportPackageRow → ExportCleanupResult × World → ExportCleanupResult × World
clean_all_deleted [] s = s
clean_all_deleted (r ∷ rows) s = clean_all_deleted rows (clean_deleted r s)

unfoldable pub clean_all_old :
    Bool → List ExportPackageRow → ExportCleanupResult × World → ExportCleanupResult × World
clean_all_old include_ready_exports [] s = s
clean_all_old include_ready_exports (r ∷ rows) s =
    clean_all_old include_ready_exports rows (clean_old include_ready_exports r s)

-- `created_at <= now - timedelta(days=…)`, without the subtraction
abbrev pub is_old : ℕ → ℕ → ExportPackageRow → Bool
is_old now older_than_days r = leb (r.created_at + timedelta (older_than_days * 86400)) now

abbrev pub is_stale : ℕ → ℕ → ExportPackageRow → Bool
is_stale now older_than_days r =
    is_old now older_than_days r && is_some r.storage_path && not (is_deleted r)

-- `if older_than_days is not None and older_than_days >= 0`: the route admits no negative number
unfoldable pub clean_if_given :
    ℕ → Option ℕ → Bool → ExportCleanupResult × World → ExportCleanupResult × World
clean_if_given now none include_ready_exports s = s
clean_if_given now (some days) include_ready_exports s =
    clean_all_old include_ready_exports (select (is_stale now days) (s.1).db.exports) s

unfoldable pub cleanup_deleted_review_packs : ℕ → Option ℕ → Bool → Service ExportCleanupResult
unfolding clean_if_given
cleanup_deleted_review_packs now older_than_days include_ready_exports = call (λ w.
    clean_if_given now older_than_days include_ready_exports
      (clean_all_deleted (select is_deleted w.db.exports) (no_result, w)))
