-- ===== src/Models/World.antt =====
-- The database as the open SQLAlchemy session sees it, as it was last committed, and the memory of
-- the process, which no rollback touches.
use tax_return_ai.Base.{ℕ, ◌+◌, List, Action, ok}
use tax_return_ai.Base.Dict.{Dict}
use tax_return_ai.Models.Account.{User, AuthSession, UnlockCapability, TaxWorkspace}
use tax_return_ai.Models.Audit.{AuditLog, ReviewAction}
use tax_return_ai.Models.JobRow.{Job}
use tax_return_ai.Models.Tax.{
  TaxSession, Document, DocumentPage, TaxItem, DocumentItem, ClassificationRow, ExportPackageRow,
}
use tax_return_ai.Security.KeyCache.{KeyCache}

pub record Db : Type 0 where
  pub users : List User
  pub auth_sessions : List AuthSession
  pub capabilities : List UnlockCapability
  pub workspaces : List TaxWorkspace
  pub tax_sessions : List TaxSession
  pub documents : List Document
  pub pages : List DocumentPage
  pub items : List TaxItem
  pub links : List DocumentItem
  pub classifications : List ClassificationRow
  pub exports : List ExportPackageRow
  pub review_actions : List ReviewAction
  pub jobs : List Job
  pub audit : List AuditLog

-- `_CAPABILITY_METRICS` of app/services/security/unlock_capability.py.
pub record Metrics : Type 0 where
  pub locked_or_missing : ℕ
  pub stale_epoch : ℕ
  pub revoked : ℕ
  pub expired : ℕ

-- `files` is the file system: the contents of each file by its path, which no rollback touches.
-- `next_id` draws the values of `uuid4`: each is new.
pub record World : Type 0 where
  pub db : Db
  pub committed : Db
  pub key_cache : KeyCache
  pub metrics : Metrics
  pub files : Dict ℕ
  pub next_id : ℕ

abbrev pub Service : Type 0 → Type 0
Service = Action World

-- `await db.commit()` and `await db.rollback()`
abbrev pub commit : World → World
commit w = record w { committed = w.db }

abbrev pub rollback : World → World
rollback w = record w { db = w.committed }

-- `str(uuid.uuid4())`
abbrev pub uuid4 : Service ℕ
uuid4 w = (ok w.next_id, record w { next_id = w.next_id + 1 })
