-- ===== src/Items/Consistency.antt =====
-- The two columns of an item that say whether it waits for a review, `needs_review` and
-- `review_status`, over the routes of app/routers/items.py and app/routers/workspaces.py.
use tax_return_ai.Base.{
  ℕ, ◌≡◌, refl, sym, subst, not, String, Option, none, some, List, [], ◌∷◌, ◌==◌, select, All,
  arith, query, modify, pure, ◌>>=◌, ◌>>◌, raise_if, Result, scalar_one_or_none, http,
  All-update_where,
}
use tax_return_ai.Models.Account.{User, TaxWorkspace}
use tax_return_ai.Models.Tax.{TaxItem, TaxSession, FieldText}
use tax_return_ai.Models.World.{World, Service, commit}
use tax_return_ai.Models.Leads.{Leads, bind-Keeps}
use tax_return_ai.Models.Audit.{text, flag}
use tax_return_ai.Audit.{write_audit}
use tax_return_ai.Auth.Crypto.{Crypto}
use tax_return_ai.Security.FieldEncryption.{TextCodec}
use tax_return_ai.Scope.{get_workspace_for_user, found_or_404}
use tax_return_ai.Scope.Bridge.{
  touch_workspace_opened, get_or_create_workspace_session, session_or_new, open_workspace,
}
use tax_return_ai.Workspaces.{
  blocked_write, decrypt_description, decrypt_notes, decrypt_review_reason, decrypted_or,
  decrypted_description, is_open_status, require_field_key_for_write, decrypt_item_fields,
  update_item, has_text,
}
use tax_return_ai.Workspaces.Items.{
  StatusUpdate, with_status, with_note, record_status, set_workspace_item_review_status,
  is_settable, in_session, reviewed_by_user, status_text,
}

abbrev pub IsConsistent : TaxItem → Type 0
IsConsistent i = i.needs_review ≡ is_open_status i.review_status

abbrev pub AllConsistent : World → Type 0
AllConsistent w = All IsConsistent w.db.items

-- Opening a workspace leaves the items alone, whatever it answers.
open_workspace-items :
    (financial_year_of : String → String) (now : ℕ) (user : User) (i : ℕ) (w : World)
    → (open_workspace financial_year_of now user i w).1.db.items ≡ w.db.items
unfolding open_workspace get_or_create_workspace_session touch_workspace_opened
    get_workspace_for_user session_or_new
open_workspace-items financial_year_of now user i w = ground arith

-- The steps that the routes share.
pub open_workspace-keeps :
    {A : Type 0} (financial_year_of : String → String) (now : ℕ) (user : User) (i : ℕ)
    (k : TaxWorkspace × TaxSession → Service A)
    → ((x : TaxWorkspace × TaxSession) → Leads AllConsistent AllConsistent (k x))
    → Leads AllConsistent AllConsistent (open_workspace financial_year_of now user i >>= k)
open_workspace-keeps financial_year_of now user i k keeps =
    bind-Keeps AllConsistent (open_workspace financial_year_of now user i) k
      (λ w. subst (All IsConsistent) (sym (open_workspace-items financial_year_of now user i w)))
      keeps

pub found_or_404-keeps :
    {A B : Type 0} (f : World → Result (Option B)) (what : String) (k : B → Service A)
    → ((x : B) → Leads AllConsistent AllConsistent (k x))
    → Leads AllConsistent AllConsistent (do row ← query f; x ← found_or_404 what row; k x)
found_or_404-keeps {A} {B} f what k keeps =
    bind-Keeps AllConsistent (query f) (λ row. found_or_404 what row >>= k) (λ w all. all) on_row
  where
    on_row : (row : Option B) → Leads AllConsistent AllConsistent (found_or_404 what row >>= k)
    on_row none w all = all
    on_row (some x) w all = keeps x w all

require_field_key_for_write-items :
    (c : Crypto) (now token : ℕ) (type : String) (id : ℕ) (names : List String) (w : World)
    → (require_field_key_for_write c now token type id names w).1.db.items ≡ w.db.items
unfolding require_field_key_for_write blocked_write write_audit
require_field_key_for_write-items c now token type id names w = ground arith

-- A write to the fields of rows that keeps both columns.
pub update_item-keeps :
    (id : ℕ) (f : TaxItem → TaxItem)
    → ((i : TaxItem) → IsConsistent i → IsConsistent (f i))
    → (w : World) → AllConsistent w
    → AllConsistent (update_item id f w)
update_item-keeps id f keeps w all =
    All-update_where IsConsistent (λ i. i.id == id) f keeps w.db.items all

module _ (c : Crypto) (u : TextCodec) where
  decrypt_description-keeps :
      (i : TaxItem) (key : ℕ) → Leads AllConsistent AllConsistent (decrypt_description c u i key)
  unfolding decrypt_description
  decrypt_description-keeps i key =
      bind-Keeps AllConsistent (query (λ w. decrypted_description c u i key))
        (λ d. do modify (update_item i.id (λ j. record j { description = d })); pure d)
        (λ w all. all) (λ d. update_item-keeps i.id _ (λ j h. h))

  decrypt_notes-keeps :
      (i : TaxItem) (key : ℕ) → Leads AllConsistent AllConsistent (decrypt_notes c u i key)
  unfolding decrypt_notes
  decrypt_notes-keeps i key =
      bind-Keeps AllConsistent (query (λ w. decrypted_or c u i.notes_enc i.notes key))
        (λ d. do modify (update_item i.id (λ j. record j { notes = d })); pure d) (λ w all. all)
        (λ d. update_item-keeps i.id _ (λ j h. h))

  decrypt_review_reason-keeps :
      (i : TaxItem) (key : ℕ) → Leads AllConsistent AllConsistent (decrypt_review_reason c u i key)
  unfolding decrypt_review_reason
  decrypt_review_reason-keeps i key =
      bind-Keeps AllConsistent
        (query (λ w. decrypted_or c u i.review_reason_enc i.review_reason key))
        (λ d. do modify (update_item i.id (λ j. record j { review_reason = d })); pure d)
        (λ w all. all) (λ d. update_item-keeps i.id _ (λ j h. h))

  pub decrypt_item_fields-keeps :
      (i : TaxItem) (key : ℕ) → Leads AllConsistent AllConsistent (decrypt_item_fields c u i key)
  unfolding decrypt_item_fields
  decrypt_item_fields-keeps i key =
      bind-Keeps AllConsistent (decrypt_description c u i key)
        (λ d. do
          n ← decrypt_notes c u i key
          r ← decrypt_review_reason c u i key
          pure (record i { description = d; notes = n; review_reason = r }))
        (decrypt_description-keeps i key)
        (λ d.
          bind-Keeps AllConsistent (decrypt_notes c u i key)
            (λ n. do
              r ← decrypt_review_reason c u i key
              pure (record i { description = d; notes = n; review_reason = r }))
            (decrypt_notes-keeps i key)
            (λ n.
              bind-Keeps AllConsistent (decrypt_review_reason c u i key)
                (λ r. pure (record i { description = d; notes = n; review_reason = r }))
                (decrypt_review_reason-keeps i key) (λ r w all. all)))

  pub require_field_key_for_write-keeps :
      (now token : ℕ) (type : String) (id : ℕ) (names : List String)
      → Leads AllConsistent AllConsistent (require_field_key_for_write c now token type id names)
  require_field_key_for_write-keeps now token type id names w all =
      subst (All IsConsistent) (sym (require_field_key_for_write-items c now token type id names w))
        all

  with_note-keeps :
      (now nonce key : ℕ) (reason : Option FieldText) (i : TaxItem)
      → IsConsistent i
      → IsConsistent (reviewed_by_user now (with_note c u nonce key reason i))
  unfolding with_note
  with_note-keeps now nonce key reason i h = ground (arith, h)

  record_status-keeps :
      (now nonce token : ℕ) (payload : StatusUpdate) (item : TaxItem)
      → Leads AllConsistent AllConsistent (record_status c u now nonce token payload item)
  unfolding record_status write_audit
  record_status-keeps now nonce token payload item w all =
      bind-Keeps AllConsistent
        (require_field_key_for_write c now token "tax_item" item.id ("review_reason" ∷ []))
        (λ key. do
          let final = λ (i : TaxItem). reviewed_by_user now (with_note c u nonce key payload.note i)
          modify (update_item item.id final)
          write_audit now "tax_item" item.id "review_status_updated" (
              ("from_status", text (status_text item.review_status))
              ∷ ("to_status", text (status_text payload.review_status))
              ∷ ("has_note", flag (has_text payload.note))
              ∷ [])
          modify commit
          decrypt_item_fields c u (final (with_status payload.review_status item)) key)
        (require_field_key_for_write-keeps now token "tax_item" item.id ("review_reason" ∷ []))
        (λ key v h.
          decrypt_item_fields-keeps _ key _
            (update_item-keeps item.id _ (with_note-keeps now nonce key payload.note) v h))
        _ (update_item-keeps item.id (with_status payload.review_status) (λ i h. refl) w all)

  module _ (financial_year_of : String → String) where
    pub set_workspace_item_review_status-keeps :
        (now nonce : ℕ) (user : User) (token workspace_id item_id : ℕ) (payload : StatusUpdate)
        → Leads AllConsistent AllConsistent (
            set_workspace_item_review_status financial_year_of c u now nonce user token workspace_id
              item_id payload)
    unfolding set_workspace_item_review_status
    set_workspace_item_review_status-keeps now nonce user token workspace_id item_id payload =
        let rest = record_status c u now nonce token payload in
        let row = λ (s : TaxSession) (w : World).
          scalar_one_or_none (select (in_session item_id s.id) w.db.items) in
        bind-Keeps AllConsistent
          (raise_if (not (is_settable payload.review_status)) (http 400 "Invalid review_status"))
          (λ _. do
            opened ← open_workspace financial_year_of now user workspace_id
            found ← query (row opened.1)
            item ← found_or_404 "Item not found" found
            rest item)
          (λ w all. all)
          (λ _.
            open_workspace-keeps financial_year_of now user workspace_id
              (λ opened. do
                found ← query (row opened.1)
                item ← found_or_404 "Item not found" found
                rest item)
              (λ opened.
                found_or_404-keeps (row opened.1) "Item not found" rest
                  (record_status-keeps now nonce token payload)))
