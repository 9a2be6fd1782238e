-- ===== src/Items.antt =====
-- app/routers/items.py: the routes on single items, and app/utils/sanitize.py. A description or a
-- reason that itself reads as a sealed envelope is left out.
pub mod Sanitize
pub mod Routes
pub mod Consistency
pub mod Reviews
use tax_return_ai.Base.{
  ℕ, suc, Bool, true, false, ◌&&◌, not, String, Option, none, some, List, [], ◌∷◌, ◌++◌, ◌==◌,
  if◌then◌else◌, is_some, map, select, update_where, scalar_one_or_none, take, drop, map_some,
  ◌>>=◌, ◌>>◌, pure, modify, query, gets, return_if,
}
use tax_return_ai.Base.Int.{ℤ}
use tax_return_ai.Models.Account.{User}
use tax_return_ai.Models.Audit.{text, number, flag, texts, ReviewAction, Value, null}
use tax_return_ai.Models.Tax.{
  FieldText, plain, sealed, TaxItem, ItemType, ReviewStatus, needs_review, confirmed, excluded,
  tax_agent_review,
}
use tax_return_ai.Models.World.{World, Service, commit, uuid4}
use tax_return_ai.Audit.{write_audit}
use tax_return_ai.Items.Sanitize.{strip_html}
use tax_return_ai.Review.Format.{same_text}
use tax_return_ai.Scope.{require_owned_session, require_owned_item}
use tax_return_ai.Security.FieldEncryption.{is_empty}
use tax_return_ai.Workspaces.{set_items, has_text}
use tax_return_ai.Workspaces.Items.{newest_first, status_text, add_item}

unfoldable pub status_from_needs_review : Bool → ReviewStatus
status_from_needs_review true = ReviewStatus.needs_review
status_from_needs_review false = confirmed

abbrev pub change_item : ℕ → (TaxItem → TaxItem) → World → World
change_item item_id f = set_items (update_where (λ i. i.id == item_id) f)

abbrev pub add_review_action : ReviewAction → World → World
add_review_action a w = record w {
  db = record (w.db) { review_actions = w.db.review_actions ++ a ∷ [] };
}

pub record NewItem : Type 0 where
  pub session_id : ℕ
  pub item_type : ItemType
  pub category : String
  pub amount : Option ℤ
  pub description : Option FieldText
  pub confidence : Option ℕ
  pub needs_review : Bool
  pub review_status : ReviewStatus
  pub review_reason : Option FieldText
  pub ato_reference_hint : Option String

-- `if not item.review_status: …`
abbrev pub given_status : NewItem → ReviewStatus
given_status n =
    if is_empty (status_text n.review_status)
    then status_from_needs_review n.needs_review
    else n.review_status

abbrev pub item_of : ℕ → ℕ → NewItem → TaxItem
item_of now id n = record {
  id = id;
  session_id = n.session_id;
  item_type = n.item_type;
  category = n.category;
  amount = n.amount;
  description = n.description;
  description_enc = none;
  notes = none;
  notes_enc = none;
  confidence = n.confidence;
  needs_review = n.needs_review;
  review_status = given_status n;
  review_reason = n.review_reason;
  review_reason_enc = none;
  encryption_version = none;
  key_version = none;
  ato_reference_hint = n.ato_reference_hint;
  reviewed_at = none;
  reviewed_by = some "system";
  created_at = now;
}

-- One entry of `update_data`: a field that the request has set. A null for a column that may not
-- be null, which the database refuses, is left out.
pub data Change : Type 0 where
  item_type : ItemType → Change
  category : String → Change
  amount : Option ℤ → Change
  description : Option String → Change
  confidence : Option ℕ → Change
  ato_reference_hint : Option String → Change

abbrev pub field_name : Change → String
field_name (item_type t) = "item_type"
field_name (category s) = "category"
field_name (amount a) = "amount"
field_name (description s) = "description"
field_name (confidence n) = "confidence"
field_name (ato_reference_hint s) = "ato_reference_hint"

-- `setattr(item, field, value)`, the description sanitized
abbrev pub changed : Change → TaxItem → TaxItem
changed (item_type t) i = record i { item_type = t }
changed (category s) i = record i { category = s }
changed (amount a) i = record i { amount = a }
changed (description s) i = record i { description = map_some (λ t. plain (strip_html t)) s }
changed (confidence n) i = record i { confidence = n }
changed (ato_reference_hint s) i = record i { ato_reference_hint = s }

unfoldable pub apply_changes : List Change → TaxItem → TaxItem
apply_changes [] i = i
apply_changes (x ∷ xs) i = apply_changes xs (changed x i)

-- `data.review_reason == "excluded"`
abbrev pub reason_is : String → Option String → Bool
reason_is name none = false
reason_is name (some s) = same_text s name

abbrev pub kept_reason : Option String → TaxItem → Option FieldText
kept_reason none i = i.review_reason
kept_reason (some s) i = if is_empty s then i.review_reason else some (plain s)

-- The assignments of `review_item`.
unfoldable pub reviewed_item : ℕ → Bool → Option String → TaxItem → TaxItem
unfolding status_from_needs_review
reviewed_item now needs reason i =
    let excluded_now = reason_is "excluded" reason in
    let agent = reason_is "tax_agent_review" reason in
    record i {
      needs_review = if agent then true else if excluded_now then false else needs;
      review_status =
          if agent
          then ReviewStatus.tax_agent_review
          else if excluded_now
          then ReviewStatus.excluded
          else status_from_needs_review needs;
      review_reason = kept_reason reason i;
      reviewed_at = some now;
      reviewed_by = some "user";
    }

-- The assignments of one round of `bulk_review_items`.
unfoldable pub bulk_reviewed : ℕ → Bool → Option String → TaxItem → TaxItem
unfolding status_from_needs_review
bulk_reviewed now needs reason i = record i {
  needs_review = needs;
  review_status = status_from_needs_review needs;
  review_reason = kept_reason reason i;
  reviewed_at = some now;
  reviewed_by = some "user";
}

abbrev pub audit_action : Bool → Option String → String
audit_action needs reason =
    if reason_is "tax_agent_review" reason
    then "item_tax_agent_review"
    else if reason_is "excluded" reason
    then "item_excluded"
    else if needs
    then "flagged_for_review"
    else "item_confirmed"

abbrev pub action_type : Bool → String
action_type needs = if needs then "user_corrected" else "user_confirmed"

-- `str(b)`
abbrev pub bool_text : Bool → String
bool_text true = "True"
bool_text false = "False"

abbrev pub text_or_null : Option String → Value
text_or_null none = null
text_or_null (some s) = text s

abbrev pub action_of : ℕ → ℕ → TaxItem → Bool → String → String → Option String → ReviewAction
action_of now id i needs previous new reason = record {
  id = id;
  session_id = i.session_id;
  tax_item_id = some i.id;
  action_type = action_type needs;
  previous_status = previous;
  new_status = new;
  notes = reason;
  changed_by = "user";
  created_at = now;
}
