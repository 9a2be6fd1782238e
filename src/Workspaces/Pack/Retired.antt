-- ===== src/Workspaces/Pack/Retired.antt =====
-- What a deleted review pack of app/routers/workspaces.py can no longer do.
use tax_return_ai.Base.{
  ℕ, ◌≡◌, ◌≢◌, refl, sym, subst, ap, true, Option, none, some, List, [], ◌∷◌, leb, ◌==◌, ok, arith,
  All, select, by_key, keep_if, scalar-select_and, Option-cases, Bool-cases, inl, inr, map_some,
  update_where, by_key-update_key, DistinctBy, keep_if-by_key, DistinctBy-update_where, All-select,
  All-of_IsIn, IsIn-by_key,
}
use tax_return_ai.Models.Account.{User}
use tax_return_ai.Models.Tax.{ExportPackageRow}
use tax_return_ai.Models.World.{World}
use tax_return_ai.Audit.{write_audit}
use tax_return_ai.Review.Cleanup.{export_key, retired}
use tax_return_ai.Review.Cleanup.Laws.{IsKeyed, export_row}
use tax_return_ai.Scope.{get_workspace_for_user}
use tax_return_ai.Scope.Bridge.{touch_workspace_opened}
use tax_return_ai.Workspaces.Pack.{
  in_workspace, is_listed, insert_newest, newest_first, delete_workspace_review_pack,
  download_workspace_review_pack, list_workspace_review_pack_history,
}

-- A row that is found has no path.
abbrev pub IsRetired : ℕ → World → Type 0
IsRetired export_id w =
    (r : ExportPackageRow) → export_row export_id w ≡ some r → r.storage_path ≡ none

delete-exports :
    (now : ℕ) (user : User) (workspace_id export_id : ℕ) (w : World)
    → IsKeyed w
    → (delete_workspace_review_pack now user workspace_id export_id w).0 ≡ ok tt
    → (delete_workspace_review_pack now user workspace_id export_id w).1.db.exports
      ≡ update_where (λ r. r.id == export_id) retired w.db.exports
unfolding delete_workspace_review_pack get_workspace_for_user touch_workspace_opened write_audit
delete-exports now user workspace_id export_id w d e =
    let query = scalar-select_and export_key (in_workspace workspace_id) export_id w.db.exports d in
    elim (Option-cases (keep_if (in_workspace workspace_id) (export_row export_id w))) [
      | inl n ↦ absurd (ground (arith, query, n, e))
      | inr (pack, f) ↦
          let (found, same, inside) =
            keep_if-by_key export_key (in_workspace workspace_id) export_id pack w.db.exports f in
          subst
            (λ k.
              (delete_workspace_review_pack now user workspace_id export_id w).1.db.exports
              ≡ update_where (λ r. r.id == k) retired w.db.exports)
            same (ground (arith, query, f, e))
    ]

delete-IsRetired :
    (now : ℕ) (user : User) (workspace_id export_id : ℕ) (w : World)
    → IsKeyed w
    → (delete_workspace_review_pack now user workspace_id export_id w).0 ≡ ok tt
    → let v = (delete_workspace_review_pack now user workspace_id export_id w).1 in
      IsKeyed v × IsRetired export_id v
delete-IsRetired now user workspace_id export_id w d e =
    let same = delete-exports now user workspace_id export_id w d e in
    let gone = by_key-update_key export_key retired (λ r. refl) export_id export_id w.db.exports in
    (
      subst (DistinctBy export_key) (sym same) (
          DistinctBy-update_where export_key (λ r. r.id == export_id) retired (λ r. refl)
            w.db.exports d),
      λ r h.
          no_path (by_key export_key export_id w.db.exports) r
            (ground (arith, gone, ap (by_key export_key export_id) same, h)),
    )
  where
    no_path :
        (o : Option ExportPackageRow) (r : ExportPackageRow)
        → map_some retired o ≡ some r
        → r.storage_path ≡ none
    no_path none r h = absurd (cc)
    no_path (some x) r h =
        subst (λ (y : ExportPackageRow). y.storage_path ≡ none) {x = retired x} {y = r}
          (ground (arith, h)) refl

-- Such a pack is not downloaded.
IsRetired-not_downloaded :
    (now : ℕ) (user : User) (workspace_id export_id : ℕ) (w : World) (bytes : ℕ)
    → IsKeyed w
    → IsRetired export_id w
    → (download_workspace_review_pack now user workspace_id export_id w).0 ≢ ok bytes
unfolding download_workspace_review_pack get_workspace_for_user touch_workspace_opened
IsRetired-not_downloaded now user workspace_id export_id w bytes d retired' e =
    let query = scalar-select_and export_key (in_workspace workspace_id) export_id w.db.exports d in
    elim (Option-cases (keep_if (in_workspace workspace_id) (export_row export_id w))) [
      | inl n ↦ ground (arith, query, n, e)
      | inr (pack, f) ↦
          let row : export_row export_id w ≡ some pack = ground (arith, f) in
          ground (arith, query, f, e, retired' pack row)
    ]

module _ (P : ExportPackageRow → Type 0) where
  All-insert_newest :
      (r : ExportPackageRow) (rows : List ExportPackageRow)
      → P r
      → All P rows
      → All P (insert_newest r rows)
  All-insert_newest r [] p all = (p, tt)
  All-insert_newest r (s ∷ rows) p all = elim (Bool-cases (leb s.created_at r.created_at)) [
    | inl e ↦ rw e (p, all)
    | inr e ↦ rw e (all.0, All-insert_newest r rows p all.1)
  ]

  All-newest_first : (rows : List ExportPackageRow) → All P rows → All P (newest_first rows)
  All-newest_first [] all = tt
  All-newest_first (r ∷ rows) all =
      All-insert_newest r (newest_first rows) all.0 (All-newest_first rows all.1)

-- Nor is it in the list.
IsRetired-not_listed :
    (workspace_id export_id : ℕ) (w : World)
    → IsKeyed w
    → IsRetired export_id w
    → All
        (λ r. export_key r ≢ export_id)
        (newest_first (select (is_listed workspace_id) w.db.exports))
IsRetired-not_listed workspace_id export_id w d gone =
    All-newest_first (λ r. export_key r ≢ export_id) (select (is_listed workspace_id) w.db.exports)
      (pathless (select (is_listed workspace_id) w.db.exports) (
        All-select (λ r. export_key r ≡ export_id → r.storage_path ≡ none) (is_listed workspace_id)
          w.db.exports
          (All-of_IsIn (λ r. export_key r ≡ export_id → r.storage_path ≡ none) w.db.exports
            (λ r i h. gone r (
              subst (λ k. export_row k w ≡ some r) h
                (IsIn-by_key export_key r w.db.exports d i))))))
  where
    pathless :
        (rows : List ExportPackageRow)
        → All
            (λ r.
              (export_key r ≡ export_id → r.storage_path ≡ none)
              × (is_listed workspace_id r ≡ true))
            rows
        → All (λ r. export_key r ≢ export_id) rows
    pathless [] all = tt
    pathless (r ∷ rows) all =
        (λ h. absurd (ground (arith, (all.0).0 h, (all.0).1)), pathless rows all.1)

-- If the ids of the packages are unique and a review pack has been deleted, no request of any
-- user for any workspace downloads it in the world that this leaves, and no history that is
-- answered there lists it.
pub delete_workspace_review_pack-gone :
    (now : ℕ) (user : User) (workspace_id export_id : ℕ) (w : World)
    → IsKeyed w
    → (delete_workspace_review_pack now user workspace_id export_id w).0 ≡ ok tt
    → let v = (delete_workspace_review_pack now user workspace_id export_id w).1 in
      ((later : ℕ) (reader : User) (i bytes : ℕ)
        → (download_workspace_review_pack later reader i export_id v).0 ≢ ok bytes)
      × ((later : ℕ) (reader : User) (i : ℕ) (rows : List ExportPackageRow)
          → (list_workspace_review_pack_history later reader i v).0 ≡ ok rows
          → All (λ r. export_key r ≢ export_id) rows)
unfolding list_workspace_review_pack_history get_workspace_for_user touch_workspace_opened
delete_workspace_review_pack-gone now user workspace_id export_id w d e =
    let v = (delete_workspace_review_pack now user workspace_id export_id w).1 in
    let (keyed, gone) = delete-IsRetired now user workspace_id export_id w d e in
    (
      λ later reader i bytes. IsRetired-not_downloaded later reader i export_id v bytes keyed gone,
      λ later reader i rows h.
          subst (All (λ r. export_key r ≢ export_id))
            {x = newest_first (select (is_listed i) v.db.exports)} {y = rows} (ground (arith, h))
            (IsRetired-not_listed i export_id v keyed gone),
    )
