-- ===== src/Tests/Scope.antt =====
-- The isolation of two users, each with one workspace; the first session has not been adopted.
use tax_return_ai.Tests.{test_world, ann}
use tax_return_ai.Base.{
  ℕ, ◌≡◌, refl, arith, true, String, Option, none, some, [], ◌∷◌, http, ok, err, DistinctBy,
}
use tax_return_ai.Base.Int.{pos}
use tax_return_ai.Models.Account.{User, TaxWorkspace}
use tax_return_ai.Models.Tax.{TaxSession, TaxItem, ItemType, ReviewStatus}
use tax_return_ai.Models.World.{World}
use tax_return_ai.Scope.{item_key, require_owned_session, get_workspace_for_user}
use tax_return_ai.Scope.Laws.{IsKeyed, IsOwned, require_owned_session-exclusive}

abbrev pub bob : User
bob = record ann { id = 2 }

abbrev pub workspace_of : ℕ → ℕ → String → TaxWorkspace
workspace_of id user_id tax_year = record {
  id = id;
  user_id = user_id;
  tax_year = tax_year;
  label = tax_year;
  status = "active";
  created_at = id;
  last_opened_at = none;
}

abbrev pub session_in : ℕ → Option ℕ → TaxSession
session_in id workspace_id = record {
  id = id;
  workspace_id = workspace_id;
  title = none;
  financial_year = "2024-2025";
  status = "draft";
  notes = none;
  created_at = 50;
}

abbrev pub item_in : ℕ → ℕ → TaxItem
item_in id session_id = record {
  id = id;
  session_id = session_id;
  item_type = ItemType.income;
  category = "bank_interest";
  amount = some (pos 1250);
  description = none;
  description_enc = none;
  notes = none;
  notes_enc = none;
  confidence = some 9000;
  needs_review = true;
  review_status = ReviewStatus.draft;
  review_reason = none;
  review_reason_enc = none;
  encryption_version = none;
  key_version = none;
  ato_reference_hint = none;
  reviewed_at = none;
  reviewed_by = none;
  created_at = 60;
}

abbrev pub scope_world : World
scope_world = record test_world {
  db = record (test_world.db) {
    workspaces = workspace_of 31 1 "FY2024" ∷ workspace_of 32 2 "FY2025" ∷ [];
    tax_sessions = session_in 41 none ∷ session_in 42 (some 32) ∷ [];
    items = item_in 51 42 ∷ [];
  };
}

pub scope_world-IsKeyed : IsKeyed scope_world
scope_world-IsKeyed = record {
  workspaces_distinct = ground arith;
  sessions_distinct = ground arith;
}

-- The year of a workspace is its own name here.
abbrev pub same : String → String
same year = year

adopted : (require_owned_session same ann 41 scope_world).0 ≡ ok (session_in 41 (some 31))
unfolding require_owned_session get_workspace_for_user
adopted = refl

require_owned_session-exclusive_example :
    let w' = (require_owned_session same ann 41 scope_world).1 in
    require_owned_session same bob 41 w' ≡ (err (http 404 "Workspace not found"), w')
require_owned_session-exclusive_example =
    require_owned_session-exclusive same ann bob (session_in 41 (some 31)) 41 scope_world
      scope_world-IsKeyed adopted (omega arith)

bob-IsOwned : IsOwned 2 scope_world (session_in 42 (some 32))
bob-IsOwned = record {
  workspace = workspace_of 32 2 "FY2025";
  is_row = refl;
  same_user = refl;
  in_workspace = refl;
}

items_distinct : DistinctBy item_key scope_world.db.items
items_distinct = ground arith
