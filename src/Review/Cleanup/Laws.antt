-- ===== src/Review/Cleanup/Laws.antt =====
-- What the clean-up of app/services/export/cleanup.py does to the table of export packages.
use tax_return_ai.Base.{
  ℕ, ◌≡◌, ◌≢◌, refl, sym, subst, Bool, true, false, ◌&&◌, ◌||◌, not, Option, none, some, List, [],
  ◌∷◌, ◌==◌, if◌then◌else◌, All, select, update_where, DistinctBy, by_key, by_key-update_key, IsIn,
  arith, Bool-cases, Option-cases, inl, inr, map_some, All-IsIn, ◌∙◌, All-of_IsIn, All-select,
  IsIn-by_key, ap, All-update_where, key_eq, find_sound, DistinctBy-select, IsIn-select, find-IsIn,
  All-of_select,
}
use tax_return_ai.Models.Tax.{ExportPackageRow}
use tax_return_ai.Models.World.{World}
use tax_return_ai.Review.Cleanup.{
  ExportCleanupResult, export_key, is_deleted, is_ready, has_path, without_path, retired,
  update_export, unlink, clean_deleted, clean_old, clean_all_deleted, clean_all_old, clean_if_given,
  is_stale, no_result, cleanup_deleted_review_packs,
}

-- The row with an id.
abbrev pub export_row : ℕ → World → Option ExportPackageRow
export_row k w = by_key export_key k w.db.exports

export_row-update :
    (f : ExportPackageRow → ExportPackageRow)
    → ((r : ExportPackageRow) → export_key (f r) ≡ export_key r)
    → (k j : ℕ) (w : World)
    → export_row j (update_export k f w)
      ≡ (if k == j then map_some f (export_row j w) else export_row j w)
export_row-update f same k j w = by_key-update_key export_key f same k j w.db.exports

-- A round touches only the row that it is about, and leaves it without a path or as it is.
clean_deleted-row :
    (r : ExportPackageRow) (n : ExportCleanupResult) (w : World) (k : ℕ)
    → export_row k (clean_deleted r (n, w)).1 ≡ (
        if r.id == k && has_path r.storage_path
        then map_some without_path (export_row k w)
        else export_row k w)
unfolding clean_deleted
clean_deleted-row r n w k = ground (
  arith,
  export_row-update without_path (λ x. refl) r.id k w,
  export_row-update without_path (λ x. refl) r.id k (unlink r.storage_path w),
)

clean_old-row :
    (b : Bool) (r : ExportPackageRow) (n : ExportCleanupResult) (w : World) (k : ℕ)
    → export_row k (clean_old b r (n, w)).1 ≡ (
        if r.id == k && not (is_ready r && not b)
        then map_some retired (export_row k w)
        else export_row k w)
unfolding clean_old
clean_old-row b r n w k = ground (
  arith,
  export_row-update retired (λ x. refl) r.id k w,
  export_row-update retired (λ x. refl) r.id k (unlink r.storage_path w),
)

abbrev pub is_pathless : Option ExportPackageRow → Bool
is_pathless none = true
is_pathless (some r) = not (has_path r.storage_path)

-- A row that is marked deleted has no path.
abbrev pub is_settled : Option ExportPackageRow → Bool
is_settled none = true
is_settled (some r) = not (is_deleted r) || not (has_path r.storage_path)

clean_all_deleted-pathless :
    (rows : List ExportPackageRow) (n : ExportCleanupResult) (w : World) (k : ℕ)
    → is_pathless (export_row k w) ≡ true
    → is_pathless (export_row k (clean_all_deleted rows (n, w)).1) ≡ true
unfolding clean_all_deleted
clean_all_deleted-pathless [] n w k e = e
clean_all_deleted-pathless (r ∷ rows) n w k e =
    clean_all_deleted-pathless rows (clean_deleted r (n, w)).0 (clean_deleted r (n, w)).1 k
      (ground (arith, clean_deleted-row r n w k, e))

clean_all_deleted-others :
    (rows : List ExportPackageRow) (n : ExportCleanupResult) (w : World) (k : ℕ)
    → All (λ r. export_key r ≢ k) rows
    → export_row k (clean_all_deleted rows (n, w)).1 ≡ export_row k w
unfolding clean_all_deleted
clean_all_deleted-others [] n w k all = refl
clean_all_deleted-others (r ∷ rows) n w k all =
    clean_all_deleted-others rows (clean_deleted r (n, w)).0 (clean_deleted r (n, w)).1 k all.1
    ∙ ground (arith, clean_deleted-row r n w k, all.0)

clean_all_deleted-member :
    (rows : List ExportPackageRow) (n : ExportCleanupResult) (w : World) (r : ExportPackageRow)
    → DistinctBy export_key rows
    → IsIn r rows
    → export_row r.id w ≡ some r
    → is_pathless (export_row r.id (clean_all_deleted rows (n, w)).1) ≡ true
unfolding clean_all_deleted
clean_all_deleted-member [] n w r d i e = absurd i
clean_all_deleted-member (x ∷ rows) n w r d (inl h) e =
    clean_all_deleted-pathless rows (clean_deleted x (n, w)).0 (clean_deleted x (n, w)).1 r.id
      (ground (arith, clean_deleted-row x n w r.id, e, h))
clean_all_deleted-member (x ∷ rows) n w r d (inr i) e =
    clean_all_deleted-member rows (clean_deleted x (n, w)).0 (clean_deleted x (n, w)).1 r d.1 i (
      ground (
        arith,
        clean_deleted-row x n w r.id,
        e,
        All-IsIn (λ y. export_key y ≢ export_key x) r rows d.0 i,
      ))

clean_all_old-settled :
    (b : Bool) (rows : List ExportPackageRow) (n : ExportCleanupResult) (w : World) (k : ℕ)
    → is_settled (export_row k w) ≡ true
    → is_settled (export_row k (clean_all_old b rows (n, w)).1) ≡ true
unfolding clean_all_old
clean_all_old-settled b [] n w k e = e
clean_all_old-settled b (r ∷ rows) n w k e =
    clean_all_old-settled b rows (clean_old b r (n, w)).0 (clean_old b r (n, w)).1 k
      (ground (arith, clean_old-row b r n w k, e))

-- Ready rows are passed over unless they are asked for.
clean_all_old-ready :
    (rows : List ExportPackageRow) (n : ExportCleanupResult) (w : World) (k : ℕ)
    → All (λ r. export_key r ≡ k → is_ready r ≡ true) rows
    → export_row k (clean_all_old false rows (n, w)).1 ≡ export_row k w
unfolding clean_all_old
clean_all_old-ready [] n w k all = refl
clean_all_old-ready (r ∷ rows) n w k all =
    clean_all_old-ready rows (clean_old false r (n, w)).0 (clean_old false r (n, w)).1 k all.1
    ∙ ground (arith, clean_old-row false r n w k, all.0)

-- The primary key of the table is unique.
abbrev pub IsKeyed : World → Type 0
IsKeyed w = DistinctBy export_key w.db.exports

row_of : (w : World) → IsKeyed w → All (λ r. export_row (export_key r) w ≡ some r) w.db.exports
row_of w d =
    All-of_IsIn (λ r. export_row (export_key r) w ≡ some r) w.db.exports
      (λ r i. IsIn-by_key export_key r w.db.exports d i)

same_row :
    (w : World) (k : ℕ) (r x : ExportPackageRow)
    → export_row k w ≡ some r
    → export_row (export_key x) w ≡ some x
    → export_key x ≡ k
    → x ≡ r
same_row w k r x e f h = ground (arith, e, f, h)

-- Whatever row has the id `k` passes the test, as the only one does.
only_row :
    (w : World) (k : ℕ) (r : ExportPackageRow) (q : ExportPackageRow → Bool)
    → IsKeyed w
    → export_row k w ≡ some r
    → All (λ x. export_key x ≡ k → q x ≡ q r) w.db.exports
only_row w k r q d e =
    All-of_IsIn (λ x. export_key x ≡ k → q x ≡ q r) w.db.exports
      (λ x i h. ap q (same_row w k r x e (IsIn-by_key export_key x w.db.exports d i) h))

not_selected :
    (w : World) (k : ℕ) (r : ExportPackageRow)
    → IsKeyed w
    → export_row k w ≡ some r
    → is_deleted r ≡ false
    → All (λ x. export_key x ≢ k) (select is_deleted w.db.exports)
not_selected w k r d e f = differ (select is_deleted w.db.exports) (
    All-select (λ x. export_key x ≡ k → is_deleted x ≡ is_deleted r) is_deleted w.db.exports
      (only_row w k r is_deleted d e))
  where
    differ :
        (rows : List ExportPackageRow)
        → All (λ x. (export_key x ≡ k → is_deleted x ≡ is_deleted r) × (is_deleted x ≡ true)) rows
        → All (λ x. export_key x ≢ k) rows
    differ [] all = tt
    differ (x ∷ rows) all =
        (λ h. absurd (ground (arith, (all.0).0 h, (all.0).1, f)), differ rows all.1)

deleted-settled : (o : Option ExportPackageRow) → is_pathless o ≡ true → is_settled o ≡ true
deleted-settled none e = refl
deleted-settled (some r) e = ground (arith, e)

-- The row with an id after the first loop.
abbrev row_after : World → ℕ → Option ExportPackageRow
row_after w k = export_row k (clean_all_deleted (select is_deleted w.db.exports) (no_result, w)).1

clean_all_deleted-settled :
    (w : World) (k : ℕ)
    → IsKeyed w
    → is_settled
        (export_row k (clean_all_deleted (select is_deleted w.db.exports) (no_result, w)).1)
      ≡ true
clean_all_deleted-settled w k d =
    let rows = select is_deleted w.db.exports in
    elim (Option-cases (export_row k w)) [
      | inl e ↦
          deleted-settled (row_after w k)
            (clean_all_deleted-pathless rows no_result w k (rw e refl))
      | inr (r, e) ↦ elim (Bool-cases (is_deleted r)) [
        | inl t ↦
            let same =
              key_eq export_key k r (find_sound (λ x. export_key x == k) w.db.exports r e) in
            deleted-settled (row_after w k) (
              subst
                (λ j. is_pathless (export_row j (clean_all_deleted rows (no_result, w)).1) ≡ true)
                same
                (clean_all_deleted-member rows no_result w r
                  (DistinctBy-select export_key is_deleted w.db.exports d)
                  (IsIn-select is_deleted r w.db.exports
                    (find-IsIn (λ x. export_key x == k) w.db.exports r e) t)
                  (subst (λ j. export_row j w ≡ some r) (sym same) e)))
        | inr f ↦
            rw (clean_all_deleted-others rows no_result w k (not_selected w k r d e f))
              (rw e (rw f refl))
      ]
    ]

-- If the ids of the packages are unique, no package that is marked deleted after a clean-up has a
-- path to a file any more, whatever its age limit and its flag.
cleanup_deleted_review_packs-settled :
    (now : ℕ) (older_than_days : Option ℕ) (include_ready_exports : Bool) (w : World) (k : ℕ)
    → IsKeyed w
    → is_settled
        (export_row k (cleanup_deleted_review_packs now older_than_days include_ready_exports w).1)
      ≡ true
unfolding cleanup_deleted_review_packs clean_if_given
cleanup_deleted_review_packs-settled now none b w k d = clean_all_deleted-settled w k d
cleanup_deleted_review_packs-settled now (some days) b w k d =
    let done = clean_all_deleted (select is_deleted w.db.exports) (no_result, w) in
    clean_all_old-settled b (select (is_stale now days) (done.1).db.exports) done.0 done.1 k
      (clean_all_deleted-settled w k d)

clean_deleted-exports :
    (r : ExportPackageRow) (n : ExportCleanupResult) (w : World)
    → ((clean_deleted r (n, w)).1).db.exports ≡ (
        if has_path r.storage_path
        then update_where (λ x. x.id == r.id) without_path w.db.exports
        else w.db.exports)
unfolding clean_deleted
clean_deleted-exports r n w = ground arith

module _ (Q : ExportPackageRow → Type 0)
    (keeps : (x : ExportPackageRow) → Q x → Q (without_path x)) where
  clean_deleted-All :
      (r : ExportPackageRow) (n : ExportCleanupResult) (w : World)
      → All Q w.db.exports
      → All Q ((clean_deleted r (n, w)).1).db.exports
  clean_deleted-All r n w all =
      rw (clean_deleted-exports r n w) (elim (Bool-cases (has_path r.storage_path)) [
        | inl t ↦ rw t (All-update_where Q (λ x. x.id == r.id) without_path keeps w.db.exports all)
        | inr f ↦ rw f all
      ])

  clean_all_deleted-All :
      (rows : List ExportPackageRow) (n : ExportCleanupResult) (w : World)
      → All Q w.db.exports
      → All Q ((clean_all_deleted rows (n, w)).1).db.exports
  unfolding clean_all_deleted
  clean_all_deleted-All [] n w all = all
  clean_all_deleted-All (r ∷ rows) n w all =
      clean_all_deleted-All rows (clean_deleted r (n, w)).0 (clean_deleted r (n, w)).1
        (clean_deleted-All r n w all)

not_deleted : (r : ExportPackageRow) → is_ready r ≡ true → is_deleted r ≡ false
not_deleted r e = ground (arith, e)

ready_rows :
    (w : World) (k : ℕ) (r : ExportPackageRow)
    → IsKeyed w
    → export_row k w ≡ some r
    → is_ready r ≡ true
    → All (λ x. export_key x ≡ k → is_ready x ≡ true) w.db.exports
ready_rows w k r d e t =
    All-of_IsIn (λ x. export_key x ≡ k → is_ready x ≡ true) w.db.exports
      (λ x i h.
        subst (λ y. is_ready y ≡ true)
          (sym (same_row w k r x e (IsIn-by_key export_key x w.db.exports d i) h)) t)

row_after-ready :
    (w : World) (k : ℕ) (r : ExportPackageRow)
    → IsKeyed w
    → export_row k w ≡ some r
    → is_ready r ≡ true
    → row_after w k ≡ some r
row_after-ready w k r d e t =
    clean_all_deleted-others (select is_deleted w.db.exports) no_result w k
      (not_selected w k r d e (not_deleted r t))
    ∙ e

-- If the ids of the packages are unique, a clean-up without the flag for ready exports leaves the
-- row of a ready package as it is, whatever the age limit.
cleanup_deleted_review_packs-ready :
    (now : ℕ) (older_than_days : Option ℕ) (w : World) (k : ℕ) (r : ExportPackageRow)
    → IsKeyed w
    → export_row k w ≡ some r
    → is_ready r ≡ true
    → export_row k (cleanup_deleted_review_packs now older_than_days false w).1 ≡ some r
unfolding cleanup_deleted_review_packs clean_if_given
cleanup_deleted_review_packs-ready now none w k r d e t = row_after-ready w k r d e t
cleanup_deleted_review_packs-ready now (some days) w k r d e t =
    let done = clean_all_deleted (select is_deleted w.db.exports) (no_result, w) in
    let Q = λ (x : ExportPackageRow). export_key x ≡ k → is_ready x ≡ true in
    let all =
      clean_all_deleted-All Q (λ x q h. q h) (select is_deleted w.db.exports) no_result w
        (ready_rows w k r d e t) in
    clean_all_old-ready (select (is_stale now days) (done.1).db.exports) done.0 done.1 k
      (All-of_select Q (is_stale now days) (done.1).db.exports all)
    ∙ row_after-ready w k r d e t
