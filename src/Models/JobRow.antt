-- ===== src/Models/JobRow.antt =====
-- app/models/job.py, with `JobStatus` of app/constants/risk.py.
use tax_return_ai.Base.{ℕ, String, Bool, Option}

pub data JobStatus : Type 0 where
  queued running succeeded failed cancelled retrying : JobStatus

pub record Job : Type 0 where
  pub id : ℕ
  pub session_id : Option ℕ
  pub workspace_id : Option ℕ
  pub user_id : Option ℕ
  pub document_id : Option ℕ
  pub job_type : String
  pub status : JobStatus
  pub requires_encryption : Bool
  pub capability_token_hash : Option ℕ
  pub capability_expires_at : Option ℕ
  pub payload : Option String
  pub lease_owner : Option ℕ
  pub lease_expires_at : Option ℕ
  pub heartbeat_at : Option ℕ
  pub attempt_count : ℕ
  pub progress : Option ℕ
  pub progress_message : Option String
  pub error_message : Option String
  pub result_summary : Option String
  pub queued_at : ℕ
  pub started_at : Option ℕ
  pub completed_at : Option ℕ
  pub created_at : ℕ
