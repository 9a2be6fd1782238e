-- ===== src/Items/Routes.antt =====
-- The handlers of app/routers/items.py. `_fy_to_financial_year` is the argument
-- `financial_year_of`, and `bulk` is the text "bulk" in the place of an id.
use tax_return_ai.Base.{
  ℕ, ◌+◌, ◌||◌, Bool, true, false, ◌&&◌, not, String, Option, none, some, List, [], ◌∷◌, ◌==◌,
  if◌then◌else◌, map, select, scalar_one_or_none, take, drop, ◌>>=◌, ◌>>◌, pure, modify, query,
  gets,
}
use tax_return_ai.Models.Account.{User}
use tax_return_ai.Models.Audit.{number, flag, texts}
use tax_return_ai.Models.Tax.{TaxItem, ItemType}
use tax_return_ai.Models.World.{Service, commit, uuid4}
use tax_return_ai.Audit.{write_audit}
use tax_return_ai.Items.{
  NewItem, item_of, Change, field_name, apply_changes, reviewed_item, bulk_reviewed, audit_action,
  bool_text, text_or_null, action_of, change_item, add_review_action,
}
use tax_return_ai.Scope.{require_owned_session, require_owned_item}
use tax_return_ai.Scope.Bridge.{open_workspace}
use tax_return_ai.Text.{codes, eq_text}
use tax_return_ai.Workspaces.{set_items}
use tax_return_ai.Workspaces.Items.{newest_first, add_item}

abbrev pub type_text : ItemType → String
type_text ItemType.income = "income"
type_text ItemType.deduction = "deduction"
type_text ItemType.non_claimable = "non_claimable"
type_text ItemType.needs_review = "needs_review"
type_text ItemType.out_of_scope = "out_of_scope"
type_text (ItemType.other s) = s

-- The conditions that the query takes from the request: an absent one filters nothing.
pub record ItemQuery : Type 0 where
  pub session_id : Option ℕ
  pub needs_review : Option Bool
  pub item_type : Option String
  pub offset : ℕ
  pub limit : ℕ

abbrev pub same_flag : Bool → Bool → Bool
same_flag true b = b
same_flag false b = not b

abbrev pub matches : ItemQuery → TaxItem → Bool
matches q i =
    elim q.session_id [ none ↦ true | some s ↦ i.session_id == s ]
    && elim q.needs_review [ none ↦ true | some b ↦ same_flag i.needs_review b ]
    && elim q.item_type [
      | none ↦ true
      | some t ↦ eq_text (codes t) [] || eq_text (codes (type_text i.item_type)) (codes t)
    ]

-- What `review_item` does once it has the row.
unfoldable pub record_review : ℕ → ℕ → Bool → Option String → TaxItem → Service TaxItem
record_review now item_id needs reason item = do
  modify (change_item item.id (reviewed_item now needs reason))
  write_audit now "tax_item" item_id (audit_action needs reason)
      (("needs_review", flag needs) ∷ ("reason", text_or_null reason) ∷ [])
  id ← uuid4
  modify (
      add_review_action (
        action_of now id item needs (if needs then "approved" else "flagged")
          (if needs then "flagged" else "approved") reason))
  modify commit
  pure (reviewed_item now needs reason item)

module _ (financial_year_of : String → String) where
  unfoldable pub create_item : ℕ → User → NewItem → Service TaxItem
  create_item now user data' = do
    require_owned_session financial_year_of user data'.session_id
    id ← uuid4
    let item = item_of now id data'
    modify (add_item item)
    write_audit now "tax_item" item.id "created" []
    modify commit
    pure item

  check_session : User → Option ℕ → Service (Unit {0})
  check_session user none = pure tt
  check_session user (some session_id) = do
    require_owned_session financial_year_of user session_id
    pure tt

  unfoldable pub list_items : User → ItemQuery → Service (List TaxItem)
  unfolding check_session
  list_items user q = do
    check_session user q.session_id
    gets (λ w. take q.limit (drop q.offset (newest_first (select (matches q) w.db.items))))

  unfoldable pub get_item : User → ℕ → Service TaxItem
  get_item user item_id = require_owned_item financial_year_of user item_id

  unfoldable pub update_item : ℕ → User → ℕ → List Change → Service TaxItem
  update_item now user item_id changes = do
    item ← require_owned_item financial_year_of user item_id
    modify (change_item item.id (apply_changes changes))
    write_audit now "tax_item" item_id "updated" (("fields", texts (map field_name changes)) ∷ [])
    modify commit
    pure (apply_changes changes item)

  unfoldable pub review_item : ℕ → User → ℕ → Bool → Option String → Service TaxItem
  unfolding record_review
  review_item now user item_id needs reason = do
    item ← require_owned_item financial_year_of user item_id
    record_review now item_id needs reason item

  unfoldable pub bulk_found : ℕ → User → Bool → Option String → Option TaxItem → Service ℕ
  bulk_found now user needs reason none = pure 0
  bulk_found now user needs reason (some item) = do
    require_owned_session financial_year_of user item.session_id
    modify (change_item item.id (bulk_reviewed now needs reason))
    id ← uuid4
    modify (
        add_review_action
          (action_of now id item needs (bool_text item.needs_review) (bool_text needs) reason))
    pure 1

  -- The loop, with the number of the items that were there.
  unfoldable pub bulk_loop : ℕ → User → Bool → Option String → List ℕ → Service ℕ
  unfolding bulk_found
  bulk_loop now user needs reason [] = pure 0
  bulk_loop now user needs reason (item_id ∷ item_ids) = do
    row ← query (λ w. scalar_one_or_none (select (λ i. i.id == item_id) w.db.items))
    one ← bulk_found now user needs reason row
    rest ← bulk_loop now user needs reason item_ids
    pure (one + rest)

  unfoldable pub bulk_review_items : ℕ → ℕ → User → Bool → Option String → List ℕ → Service ℕ
  bulk_review_items now bulk user needs reason item_ids = do
    reviewed ← bulk_loop now user needs reason item_ids
    write_audit now "tax_item" bulk "bulk_reviewed"
        (("count", number reviewed) ∷ ("needs_review", flag needs) ∷ [])
    modify commit
    pure reviewed

  unfoldable pub delete_item : ℕ → User → ℕ → Service (Unit {0})
  delete_item now user item_id = do
    require_owned_item financial_year_of user item_id
    modify (set_items (select (λ i. not (i.id == item_id))))
    write_audit now "tax_item" item_id "deleted" []
    modify commit

  unfoldable pub list_items_by_workspace : ℕ → User → ℕ → Service (List TaxItem)
  list_items_by_workspace now user workspace_id = do
    opened ← open_workspace financial_year_of now user workspace_id
    let session = opened.1
    items ← gets (λ w. newest_first (select (λ i. i.session_id == session.id) w.db.items))
    modify commit
    pure items
