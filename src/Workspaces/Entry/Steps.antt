-- ===== src/Workspaces/Entry/Steps.antt =====
-- Any calls of the two routes of app/routers/workspaces.py that write the table of workspaces.
use tax_return_ai.Base.{ℕ, ◌≡◌, subst, inl, inr, arith}
use tax_return_ai.Models.Account.{User}
use tax_return_ai.Models.Leads.{Result-cases}
use tax_return_ai.Models.World.{World}
use tax_return_ai.Workspaces.Entry.{
  WorkspaceCreate, list_workspaces, create_workspace, seed_default_workspaces,
}
use tax_return_ai.Auth.Account.{seed_default_workspaces}
use tax_return_ai.Workspaces.Entry.Years.{
  HasOneYear, IsCreation, create_workspace-HasOneYear, seed_default_workspaces-HasOneYear,
}

pub data EntryStep : World → World → Type 0 where
  listed :
      (v w : World) (now : ℕ) (user : User) → (list_workspaces now user v).1 ≡ w → EntryStep v w
  created :
      (v w : World) (now : ℕ) (user : User) (payload : WorkspaceCreate)
      → (create_workspace now user payload v).1 ≡ w
      → EntryStep v w

pub data EntrySteps : World → World → Type 0 where
  done : (v w : World) → v ≡ w → EntrySteps v w
  step : (u v w : World) → EntryStep u v → EntrySteps v w → EntrySteps u w

list_workspaces-HasOneYear :
    (now : ℕ) (user : User) (w : World)
    → HasOneYear w.db.workspaces
    → HasOneYear ((list_workspaces now user w).1).db.workspaces
unfolding list_workspaces
list_workspaces-HasOneYear now user w one =
    subst HasOneYear {x = ((seed_default_workspaces now user.id w).1).db.workspaces}
      (elim (Result-cases (seed_default_workspaces now user.id w).0) [
        | inl (x, e) ↦ ground (arith, e)
        | inr (x, e) ↦ ground (arith, e)
      ])
      (seed_default_workspaces-HasOneYear now user.id w one)

EntryStep-HasOneYear :
    (v w : World) → EntryStep v w → HasOneYear v.db.workspaces → HasOneYear w.db.workspaces
EntryStep-HasOneYear v w (listed _ _ now user e) one =
    subst (λ (x : World). HasOneYear x.db.workspaces) e (list_workspaces-HasOneYear now user v one)
EntryStep-HasOneYear v w (created _ _ now user payload e) one =
    subst (λ (x : World). HasOneYear x.db.workspaces) e
      (create_workspace-HasOneYear now user payload v one).1

EntrySteps-HasOneYear :
    (v w : World) → EntrySteps v w → HasOneYear v.db.workspaces → HasOneYear w.db.workspaces
EntrySteps-HasOneYear v w (done _ _ e) one = subst (λ (x : World). HasOneYear x.db.workspaces) e one
EntrySteps-HasOneYear u w (step _ v _ s steps) one =
    EntrySteps-HasOneYear v w steps (EntryStep-HasOneYear u v s one)

-- If no user has two workspaces of one tax year, this holds after any calls of the routes that
-- list and create workspaces, and then a creation answers with a new workspace if the user has
-- none of the year, and with 409 otherwise.
pub EntrySteps-IsCreation :
    (v w : World) (now : ℕ) (user : User) (payload : WorkspaceCreate)
    → EntrySteps v w
    → HasOneYear v.db.workspaces
    → HasOneYear w.db.workspaces × IsCreation now user payload w
EntrySteps-IsCreation v w now user payload steps one =
    let kept = EntrySteps-HasOneYear v w steps one in
    (kept, (create_workspace-HasOneYear now user payload w kept).0)
