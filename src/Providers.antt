-- ===== src/Providers.antt =====
-- app/ai/providers: what the repository's own code does around the clients of the vendors, which are
-- arguments. A raw answer is a text, and `loads` is json.loads.
pub mod Parse
pub mod Blocks
pub mod Build
pub mod Hosted
pub mod Trusted
pub mod Rules
pub mod Mock
pub mod Contract
use tax_return_ai.Base.{ℕ, String, Option, List}
use tax_return_ai.Base.Int.{ℤ}
use tax_return_ai.Base.{Exn}
use tax_return_ai.Models.Tax.{ItemType}

-- The fields of the schema of an answer that the result keeps; one that is absent is `none`.
pub record Analysis : Type 0 where
  pub item_type : Option ItemType
  pub category : Option String
  pub amount : Option ℤ
  pub description : Option String
  pub confidence : Option ℕ
  pub review_status : Option String
  pub reasoning_summary : Option String
  pub missing_fields : Option (List String)
  pub suggested_user_questions : Option (List String)
  pub ato_reference_hint : Option String
  pub model_version : Option (Option String)

-- What `json.loads` gives: a value that is false, an object of the schema, or a value on which the
-- builder raises.
pub data Json : Type 0 where
  falsy : Json
  object : Analysis → Json
  malformed : Exn → Json
