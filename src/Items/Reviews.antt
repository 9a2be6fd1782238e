-- ===== src/Items/Reviews.antt =====
-- Reviews keep the two columns of an item consistent: the routes of app/routers/items.py, and the
-- manual item of app/routers/workspaces.py.
use tax_return_ai.Base.{
  ℕ, ◌≡◌, refl, Bool, String, Option, none, some, List, [], ◌∷◌, All, arith, ◌>>=◌, ◌>>◌, query,
  modify, subst, scalar_one_or_none, select, sym, pure, ◌==◌, ◌+◌, All-append,
}
use tax_return_ai.Models.Account.{User}
use tax_return_ai.Models.Tax.{TaxItem, TaxSession, Document}
use tax_return_ai.Models.World.{World, commit}
use tax_return_ai.Models.Leads.{Leads, bind-Keeps}
use tax_return_ai.Scope.{
  require_owned_session, require_owned_item, check_scope, adopt, get_workspace_for_user,
  found_or_404,
}
use tax_return_ai.Items.{
  reviewed_item, bulk_reviewed, status_from_needs_review, change_item, write_audit, uuid4,
  add_review_action, action_of, bool_text, number, flag, commit, add_item, text, status_text,
}
use tax_return_ai.Items.Routes.{
  review_item, record_review, bulk_loop, bulk_found, bulk_review_items,
}
use tax_return_ai.Workspaces.Manual.{
  create_workspace_manual_item, record_manual_item, ManualItem, manual_item, document_in_session,
  link_of, update_document, resolved_if,
}
use tax_return_ai.Audit.{write_audit}
use tax_return_ai.Auth.Crypto.{Crypto}
use tax_return_ai.Security.FieldEncryption.{TextCodec}
use tax_return_ai.Models.Audit.{number, flag, ident, text}
use tax_return_ai.Workspaces.{require_field_key_for_write, decrypt_item_fields}
use tax_return_ai.Workspaces.Items.{
  add_item, add_link, status_text, StatusUpdate, set_workspace_item_review_status,
}
use tax_return_ai.Items.Consistency.{
  IsConsistent, AllConsistent, open_workspace-keeps, found_or_404-keeps,
  require_field_key_for_write-keeps, decrypt_item_fields-keeps, update_item-keeps,
  set_workspace_item_review_status-keeps,
}

module _ (financial_year_of : String → String) where
  require_owned_session-items :
      (user : User) (session_id : ℕ) (w : World)
      → (require_owned_session financial_year_of user session_id w).1.db.items ≡ w.db.items
  unfolding require_owned_session check_scope adopt get_workspace_for_user
  require_owned_session-items user session_id w = ground arith

  require_owned_session-keeps :
      (user : User) (session_id : ℕ)
      → Leads AllConsistent AllConsistent (require_owned_session financial_year_of user session_id)
  require_owned_session-keeps user session_id w =
      subst (All IsConsistent) (sym (require_owned_session-items user session_id w))

  require_owned_item-keeps :
      (user : User) (item_id : ℕ)
      → Leads AllConsistent AllConsistent (require_owned_item financial_year_of user item_id)
  unfolding require_owned_item
  require_owned_item-keeps user item_id =
      found_or_404-keeps (λ w. scalar_one_or_none (select (λ i. i.id == item_id) w.db.items))
        "Item not found" (λ i. do require_owned_session financial_year_of user i.session_id; pure i)
        (λ i.
          bind-Keeps AllConsistent (require_owned_session financial_year_of user i.session_id)
            (λ s. pure i) (require_owned_session-keeps user i.session_id) (λ s w all. all))

reviewed_item-IsConsistent :
    (now : ℕ) (needs : Bool) (reason : Option String) (i : TaxItem)
    → IsConsistent (reviewed_item now needs reason i)
unfolding reviewed_item status_from_needs_review
reviewed_item-IsConsistent now needs reason i = ground arith

bulk_reviewed-IsConsistent :
    (now : ℕ) (needs : Bool) (reason : Option String) (i : TaxItem)
    → IsConsistent (bulk_reviewed now needs reason i)
unfolding bulk_reviewed status_from_needs_review
bulk_reviewed-IsConsistent now needs reason i = ground arith

record_review-keeps :
    (now item_id : ℕ) (needs : Bool) (reason : Option String) (item : TaxItem)
    → Leads AllConsistent AllConsistent (record_review now item_id needs reason item)
unfolding record_review write_audit
record_review-keeps now item_id needs reason item =
    update_item-keeps item.id (reviewed_item now needs reason)
      (λ i h. reviewed_item-IsConsistent now needs reason i)

module _ (financial_year_of : String → String) where
  pub review_item-keeps :
      (now : ℕ) (user : User) (item_id : ℕ) (needs : Bool) (reason : Option String)
      → Leads AllConsistent AllConsistent
          (review_item financial_year_of now user item_id needs reason)
  unfolding review_item
  review_item-keeps now user item_id needs reason =
      bind-Keeps AllConsistent (require_owned_item financial_year_of user item_id)
        (record_review now item_id needs reason)
        (require_owned_item-keeps financial_year_of user item_id)
        (record_review-keeps now item_id needs reason)

  bulk_found-keeps :
      (now : ℕ) (user : User) (needs : Bool) (reason : Option String) (o : Option TaxItem)
      → Leads AllConsistent AllConsistent (bulk_found financial_year_of now user needs reason o)
  unfolding bulk_found
  bulk_found-keeps now user needs reason none w all = all
  bulk_found-keeps now user needs reason (some item) w all =
      bind-Keeps AllConsistent (require_owned_session financial_year_of user item.session_id)
        (λ s. do
          modify (change_item item.id (bulk_reviewed now needs reason))
          id ← uuid4
          modify (
              add_review_action (
                action_of now id item needs (bool_text item.needs_review) (bool_text needs) reason))
          pure 1)
        (require_owned_session-keeps financial_year_of user item.session_id)
        (λ s.
          update_item-keeps item.id (bulk_reviewed now needs reason)
            (λ i h. bulk_reviewed-IsConsistent now needs reason i))
        w all

  bulk_loop-keeps :
      (now : ℕ) (user : User) (needs : Bool) (reason : Option String) (item_ids : List ℕ)
      → Leads AllConsistent AllConsistent
          (bulk_loop financial_year_of now user needs reason item_ids)
  unfolding bulk_loop
  bulk_loop-keeps now user needs reason [] w all = all
  bulk_loop-keeps now user needs reason (item_id ∷ item_ids) w all =
      bind-Keeps AllConsistent
        (query (λ w. scalar_one_or_none (select (λ i. i.id == item_id) w.db.items)))
        (λ row. do
          one ← bulk_found financial_year_of now user needs reason row
          rest ← bulk_loop financial_year_of now user needs reason item_ids
          pure (one + rest))
        (λ v h. h)
        (λ row.
          bind-Keeps AllConsistent (bulk_found financial_year_of now user needs reason row)
            (λ one. do
              rest ← bulk_loop financial_year_of now user needs reason item_ids
              pure (one + rest))
            (bulk_found-keeps now user needs reason row)
            (λ one.
              bind-Keeps AllConsistent (bulk_loop financial_year_of now user needs reason item_ids)
                (λ rest. pure (one + rest)) (bulk_loop-keeps now user needs reason item_ids)
                (λ rest v h. h)))
        w all

  pub bulk_review_items-keeps :
      (now bulk : ℕ) (user : User) (needs : Bool) (reason : Option String) (item_ids : List ℕ)
      → Leads AllConsistent AllConsistent
          (bulk_review_items financial_year_of now bulk user needs reason item_ids)
  unfolding bulk_review_items write_audit
  bulk_review_items-keeps now bulk user needs reason item_ids =
      bind-Keeps AllConsistent (bulk_loop financial_year_of now user needs reason item_ids)
        (λ reviewed. do
          write_audit now "tax_item" bulk "bulk_reviewed"
              (("count", number reviewed) ∷ ("needs_review", flag needs) ∷ [])
          modify commit
          pure reviewed)
        (bulk_loop-keeps now user needs reason item_ids) (λ reviewed w all. all)

module _ (c : Crypto) (u : TextCodec) where
  record_manual_item-keeps :
      (now nonce₁ nonce₂ token workspace_id document_id : ℕ) (payload : ManualItem)
      (session : TaxSession) (doc : Document)
      → Leads AllConsistent AllConsistent (
          record_manual_item c u now nonce₁ nonce₂ token workspace_id document_id payload session
            doc)
  unfolding record_manual_item write_audit
  record_manual_item-keeps now nonce₁ nonce₂ token workspace_id document_id payload session doc =
      bind-Keeps AllConsistent
        (require_field_key_for_write c now token "tax_item" document_id
          ("description" ∷ "review_reason" ∷ []))
        (λ key. do
          id ← uuid4
          let item = manual_item c u now id session.id nonce₁ nonce₂ key payload
          modify (add_item item)
          link_id ← uuid4
          modify (add_link (link_of now link_id doc.id item.id none))
          modify (update_document doc.id resolved_if)
          write_audit now "tax_item" item.id "manual_item_created" (
              ("workspace_id", ident workspace_id)
              ∷ ("document_id", ident doc.id)
              ∷ ("review_status", text (status_text item.review_status))
              ∷ [])
          modify commit
          decrypt_item_fields c u item key)
        (require_field_key_for_write-keeps c u now token "tax_item" document_id
          ("description" ∷ "review_reason" ∷ []))
        (λ key w all.
          decrypt_item_fields-keeps c u _ key _
            (All-append IsConsistent w.db.items _ all (refl, tt)))

  pub create_workspace_manual_item-keeps :
      (financial_year_of : String → String) (now nonce₁ nonce₂ : ℕ) (user : User)
      (token workspace_id document_id : ℕ) (payload : ManualItem)
      → Leads AllConsistent AllConsistent (
          create_workspace_manual_item c u financial_year_of now nonce₁ nonce₂ user token
            workspace_id document_id payload)
  unfolding create_workspace_manual_item
  create_workspace_manual_item-keeps financial_year_of now nonce₁ nonce₂ user token workspace_id
        document_id payload =
      let rest = record_manual_item c u now nonce₁ nonce₂ token workspace_id document_id payload in
      let row = λ (s : TaxSession) (w : World).
        scalar_one_or_none (select (document_in_session document_id s.id) w.db.documents) in
      open_workspace-keeps financial_year_of now user workspace_id
        (λ opened. do
          found ← query (row opened.1)
          doc ← found_or_404 "Document not found" found
          rest opened.1 doc)
        (λ opened. found_or_404-keeps (row opened.1) "Document not found" (rest opened.1) (
          record_manual_item-keeps now nonce₁ nonce₂ token workspace_id document_id payload
            opened.1))

-- If of every item the flag needs_review is set exactly when the review status is draft,
-- needs_review or tax_agent_review, this holds after each of the four ways to review items,
-- whatever they answer: the review status of a workspace, a manual item, a review, and a bulk
-- review.
pub AllConsistent-kept :
    (c : Crypto) (u : TextCodec) (financial_year_of : String → String) (now : ℕ) (user : User)
    (w : World)
    → AllConsistent w
    → ((nonce token workspace_id item_id : ℕ) (payload : StatusUpdate)
        → AllConsistent
            (set_workspace_item_review_status financial_year_of c u now nonce user token
              workspace_id item_id payload w).1)
      × ((nonce₁ nonce₂ token workspace_id document_id : ℕ) (payload : ManualItem)
          → AllConsistent
              (create_workspace_manual_item c u financial_year_of now nonce₁ nonce₂ user token
                workspace_id document_id payload w).1)
      × ((item_id : ℕ) (needs : Bool) (reason : Option String)
          → AllConsistent (review_item financial_year_of now user item_id needs reason w).1)
      × ((bulk : ℕ) (needs : Bool) (reason : Option String) (item_ids : List ℕ)
          → AllConsistent
              (bulk_review_items financial_year_of now bulk user needs reason item_ids w).1)
AllConsistent-kept c u financial_year_of now user w all = (
  λ nonce token workspace_id item_id payload.
      set_workspace_item_review_status-keeps c u financial_year_of now nonce user token workspace_id
        item_id payload w all,
  λ nonce₁ nonce₂ token workspace_id document_id payload.
      create_workspace_manual_item-keeps c u financial_year_of now nonce₁ nonce₂ user token
        workspace_id document_id payload w all,
  λ item_id needs reason. review_item-keeps financial_year_of now user item_id needs reason w all,
  λ bulk needs reason item_ids.
      bulk_review_items-keeps financial_year_of now bulk user needs reason item_ids w all,
)
