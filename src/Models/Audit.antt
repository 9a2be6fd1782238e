-- ===== src/Models/Audit.antt =====
-- app/models/audit_log.py and review_action.py.
use tax_return_ai.Base.{ℕ, String, Bool, Option, List}

-- A value of the JSON object in the `details` column.
pub data Value : Type 0 where
  null : Value
  text : String → Value
  ident : ℕ → Value
  number : ℕ → Value
  flag : Bool → Value
  texts : List String → Value
  optional_texts : List (Option String) → Value
  optional_numbers : List (Option ℕ) → Value

abbrev pub Details : Type 0
Details = List (String × Value)

pub record AuditLog : Type 0 where
  pub id : ℕ
  pub entity_type : String
  pub entity_id : ℕ
  pub action : String
  pub changed_by : String
  pub details : Option Details
  pub created_at : ℕ

pub record ReviewAction : Type 0 where
  pub id : ℕ
  pub session_id : ℕ
  pub tax_item_id : Option ℕ
  pub action_type : String
  pub previous_status : String
  pub new_status : String
  pub notes : Option String
  pub changed_by : String
  pub created_at : ℕ
