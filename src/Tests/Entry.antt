-- ===== src/Tests/Entry.antt =====
-- A user who lists the workspaces, which seeds two, and asks for one of a year that is there.
use tax_return_ai.Base.{◌≡◌, refl, arith, http, err}
use tax_return_ai.Models.World.{World}
use tax_return_ai.Workspaces.Entry.{WorkspaceCreate, list_workspaces, create_workspace}
use tax_return_ai.Workspaces.Entry.Years.{HasOneYear, IsCreation}
use tax_return_ai.Workspaces.Entry.Steps.{EntrySteps, listed, done, step, EntrySteps-IsCreation}
use tax_return_ai.Auth.Account.{seed_default_workspaces}
use tax_return_ai.Tests.{ann, test_world}

abbrev seeded : World
seeded = (list_workspaces 200 ann test_world).1

abbrev again : WorkspaceCreate
again = record { tax_year = "FY2024"; label = "Again" }

seeding : EntrySteps test_world seeded
seeding =
    step test_world seeded seeded (listed test_world seeded 200 ann refl) (done seeded seeded refl)

refused :
    (create_workspace 300 ann again seeded).0
    ≡ err (http 409 "Workspace for tax year already exists")
unfolding create_workspace list_workspaces seed_default_workspaces
refused = refl

EntrySteps-IsCreation_example : HasOneYear seeded.db.workspaces × IsCreation 300 ann again seeded
EntrySteps-IsCreation_example =
    EntrySteps-IsCreation test_world seeded 300 ann again seeding (λ user_id tax_year. omega arith)
