-- ===== src/Workspaces/Entry/Years.antt =====
-- No user has two workspaces for one tax year.
use tax_return_ai.Base.{
  ok, err, http, ltb, suc, first, scalar_one_or_none, ◌⊎◌, ℕ, ◌+◌, ◌≤◌, ◌≡◌, Bool, true, ◌&&◌,
  String, List, [], ◌∷◌, ◌++◌, ◌==◌, select, count, length, length-select, if◌then◌else◌, arith,
  inl, inr, Bool-cases, ap, sym, subst, refl, ◌∙◌, ◌⊎◌, scalar_one_or_none, ok, ◌<>◌, some,
}
use tax_return_ai.Models.Account.{User, TaxWorkspace}
use tax_return_ai.Text.{Text, codes, eq_text, eq_text_sound}
use tax_return_ai.Models.World.{World}
use tax_return_ai.Auth.Account.{seed_default_workspaces, new_workspaces}
use tax_return_ai.Workspaces.Entry.{
  has_year, WorkspaceCreate, create_workspace, created_workspace, seed_default_workspaces,
}

abbrev has_codes : ℕ → Text → TaxWorkspace → Bool
has_codes user_id t ws = ws.user_id == user_id && eq_text (codes ws.tax_year) t

-- Of each user and year there is one row at most.
abbrev pub HasOneYear : List TaxWorkspace → Type 0
HasOneYear rows = (user_id : ℕ) (tax_year : String) → count (has_year user_id tax_year) rows ≤ 1

count-append :
    (p : TaxWorkspace → Bool) (rows : List TaxWorkspace) (ws : TaxWorkspace)
    → count p (rows ++ ws ∷ []) ≡ count p rows + (if p ws then 1 else 0)
count-append p [] ws = ground arith
count-append p (r ∷ rows) ws = ground (arith, count-append p rows ws)

HasOneYear-append :
    (rows : List TaxWorkspace) (ws : TaxWorkspace)
    → HasOneYear rows
    → count (has_year ws.user_id ws.tax_year) rows ≡ 0
    → HasOneYear (rows ++ ws ∷ [])
HasOneYear-append rows ws one absent user_id tax_year =
    elim (Bool-cases (has_year user_id tax_year ws)) [
      | inr f ↦
          ground (arith, f, count-append (has_year user_id tax_year) rows ws, one user_id tax_year)
      | inl e ↦
          let year : eq_text (codes ws.tax_year) (codes tax_year) ≡ true = ground (arith, e) in
          let same : count (has_codes user_id (codes tax_year)) rows ≡ 0 =
            subst (λ t. count (has_codes user_id t) rows ≡ 0)
              (eq_text_sound (codes ws.tax_year) (codes tax_year) year)
              (subst (λ i. count (has_codes i (codes ws.tax_year)) rows ≡ 0) {x = ws.user_id}
                {y = user_id} (ground (arith, e)) absent) in
          ground (arith, e, count-append (has_year user_id tax_year) rows ws, same)
    ]

rows_cases :
    (rows : List TaxWorkspace)
    → (rows ≡ []) ⊎ ((ws : TaxWorkspace) × (rest : List TaxWorkspace) × (rows ≡ ws ∷ rest))
rows_cases [] = inl refl
rows_cases (ws ∷ rest) = inr (ws, rest, refl)

-- What the query of the creation finds.
scalar_one_or_none-first :
    (rows : List TaxWorkspace) → length rows ≤ 1 → scalar_one_or_none rows ≡ ok (first rows)
scalar_one_or_none-first [] h = refl
scalar_one_or_none-first (ws ∷ []) h = refl
scalar_one_or_none-first (ws ∷ v ∷ rows) h = absurd (omega (arith, h))

-- How a creation ends, in a table in which the year is or is not.
abbrev pub IsCreation : ℕ → User → WorkspaceCreate → World → Type 0
IsCreation now user payload w = (create_workspace now user payload w).0 ≡ (
    if ltb 0 (count (has_year user.id payload.tax_year) w.db.workspaces)
    then err (http 409 "Workspace for tax year already exists")
    else ok (created_workspace now w.next_id user.id payload))

pub create_workspace-HasOneYear :
    (now : ℕ) (user : User) (payload : WorkspaceCreate) (w : World)
    → HasOneYear w.db.workspaces
    → IsCreation now user payload w
      × HasOneYear ((create_workspace now user payload w).1).db.workspaces
unfolding create_workspace
create_workspace-HasOneYear now user payload w one =
    let p = has_year user.id payload.tax_year in
    let few : length (select p w.db.workspaces) ≤ 1 =
      omega (arith, length-select p w.db.workspaces, one user.id payload.tax_year) in
    let found = scalar_one_or_none-first (select p w.db.workspaces) few in
    elim (rows_cases (select p w.db.workspaces)) [
      | inl e ↦
          let none_of : count p w.db.workspaces ≡ 0 =
            sym (length-select p w.db.workspaces) ∙ ap length e in
          let ws = created_workspace now w.next_id user.id payload in
          (
            ground (arith, found, e, none_of),
            subst HasOneYear {x = w.db.workspaces ++ ws ∷ []} (ground (arith, found, e))
                (HasOneYear-append w.db.workspaces ws one none_of),
          )
      | inr (ws, rest, e) ↦
          let some_of : count p w.db.workspaces ≡ suc (length rest) =
            sym (length-select p w.db.workspaces) ∙ ap length e in
          (
            ground (arith, found, e, some_of),
            subst HasOneYear {x = w.db.workspaces} (ground (arith, found, e)) one,
          )
    ]

-- A user without rows has none of any year.
has_year-absent :
    (user_id : ℕ) (tax_year : String) (rows : List TaxWorkspace)
    → length (select (λ ws. ws.user_id == user_id) rows) ≡ 0
    → count (has_year user_id tax_year) rows ≡ 0
has_year-absent user_id tax_year [] e = refl
has_year-absent user_id tax_year (r ∷ rows) e =
    ground (arith, e, has_year-absent user_id tax_year rows)

default_workspace : ℕ → ℕ → ℕ → String → TaxWorkspace
default_workspace now id user_id fy = record {
  id = id;
  user_id = user_id;
  tax_year = fy;
  label = fy <> " Workspace";
  status = "active";
  created_at = now;
  last_opened_at = some now;
}

pub seed_default_workspaces-HasOneYear :
    (now user_id : ℕ) (w : World)
    → HasOneYear w.db.workspaces
    → HasOneYear ((seed_default_workspaces now user_id w).1).db.workspaces
unfolding seed_default_workspaces new_workspaces default_workspace
seed_default_workspaces-HasOneYear now user_id w one =
    let rows = w.db.workspaces in
    elim (Bool-cases (length (select (λ (ws : TaxWorkspace). ws.user_id == user_id) rows) == 0)) [
      | inr f ↦ subst HasOneYear {x = rows} (ground (arith, f)) one
      | inl e ↦
          let a = default_workspace now w.next_id user_id "FY2025" in
          let b = default_workspace now (w.next_id + 1) user_id "FY2024" in
          let absent = λ (fy : String). has_year-absent user_id fy rows (ground (arith, e)) in
          let absent' : count (has_year user_id "FY2024") (rows ++ a ∷ []) ≡ 0 =
            ground (arith, count-append (has_year user_id "FY2024") rows a, absent "FY2024") in
          subst HasOneYear {x = (rows ++ a ∷ []) ++ b ∷ []} (ground (arith, e)) (
            HasOneYear-append (rows ++ a ∷ []) b (HasOneYear-append rows a one (absent "FY2025"))
              absent')
    ]
