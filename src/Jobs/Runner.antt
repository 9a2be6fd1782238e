-- ===== src/Jobs/Runner.antt =====
-- app/services/job/__init__.py: the life of a job around the function that does its work, which is
-- an argument here as it is there. `_job_to_dict` only copies the fields of the row.
use tax_return_ai.Base.{
  ℕ, Bool, true, false, String, Option, none, some, List, [], ◌∷◌, ◌==◌, ◌<>◌, Exn, ok, err, ◌>>=◌,
  ◌>>◌, pure, if◌then◌else◌,
}
use tax_return_ai.Models.Audit.{Value, text, ident, number, flag, null}
use tax_return_ai.Models.JobRow.{
  Job, JobStatus, queued, running, succeeded, failed, cancelled, retrying,
}
use tax_return_ai.Models.World.{Service}
use tax_return_ai.Audit.{write_audit}
use tax_return_ai.Jobs.{
  NewJob, create, get, Extra, update_status, find_by_session, find_by_document,
}

abbrev pub ident_or_null : Option ℕ → Value
ident_or_null none = null
ident_or_null (some i) = ident i

abbrev pub number_or_null : Option ℕ → Value
number_or_null none = null
number_or_null (some n) = number n

-- What the caller of `create_job` gives: the token is hashed by the service, 0 is an empty token.
unfoldable pub create_job : (ℕ → ℕ) → ℕ → ℕ → NewJob → Service Job
create_job sha256_hex now capability_token n = do
  job ← create now (record n {
    capability_token_hash =
        if capability_token == 0 then none else some (sha256_hex capability_token);
  })
  write_audit now "job" job.id "created" (
      ("job_type", text n.job_type)
      ∷ ("session_id", ident_or_null n.session_id)
      ∷ ("document_id", ident_or_null n.document_id)
      ∷ ("workspace_id", ident_or_null n.workspace_id)
      ∷ ("requires_encryption", flag n.requires_encryption)
      ∷ [])
  pure job

unfoldable pub get_job : ℕ → Service (Option Job)
get_job job_id = get job_id

unfoldable pub list_jobs_for_session : ℕ → Service (List Job)
list_jobs_for_session session_id = find_by_session session_id

unfoldable pub list_jobs_for_document : ℕ → Service (List Job)
list_jobs_for_document document_id = find_by_document document_id

abbrev pub status_name : JobStatus → String
status_name queued = "queued"
status_name running = "running"
status_name succeeded = "succeeded"
status_name failed = "failed"
status_name cancelled = "cancelled"
status_name retrying = "retrying"

unfoldable pub audit_status : ℕ → ℕ → JobStatus → Extra → Option Job → Service (Option Job)
audit_status now job_id status x none = pure none
audit_status now job_id status x (some j) = do
  write_audit now "job" job_id ("status_" <> status_name status)
      (("status", text (status_name status)) ∷ ("progress", number_or_null x.progress) ∷ [])
  pure (some j)

unfoldable pub update_job_status : ℕ → ℕ → JobStatus → Extra → Service (Option Job)
unfolding audit_status
update_job_status now job_id status x = do
  job ← update_status now job_id status x
  audit_status now job_id status x job

abbrev pub starting : Extra
starting = record {
  progress = some 0;
  progress_message = some "Starting...";
  error_message = none;
  result_summary = none;
}

-- Progress is in hundredths: 1.0 is 100.
abbrev pub completed : String → Extra
completed summary = record {
  progress = some 100;
  progress_message = some "Completed";
  error_message = none;
  result_summary = some summary;
}

abbrev pub crashed : String → Extra
crashed message = record {
  progress = none;
  progress_message = none;
  error_message = some message;
  result_summary = none;
}

-- `current.status in {"succeeded", "failed", "cancelled", "retrying"}`
abbrev pub is_settled : JobStatus → Bool
is_settled queued = false
is_settled running = false
is_settled _ = true

-- `except Exception as exc`
abbrev pub catch : {A : Type 0} → Service A → (Exn → Service A) → Service A
catch m handler w = let (r, w') = m w in elim r [ ok a ↦ (ok a, w') | err e ↦ handler e w' ]

-- What follows the work: a status that the work has set is kept.
unfoldable pub settle : ℕ → ℕ → String → Option Job → Service (Option Job)
settle now job_id summary none = update_job_status now job_id succeeded (completed summary)
settle now job_id summary (some j) =
    if is_settled j.status
    then pure (some j)
    else update_job_status now job_id succeeded (completed summary)

-- The three times are those at which the statuses are written. `show` is `json.dumps` or `str`,
-- and `describe` makes the message from the exception and its traceback.
unfoldable pub run_job_sync :
    {R : Type 0} → (R → String) → (Exn → String) → ℕ → ℕ → ℕ → ℕ → Service R → Service (Option Job)
unfolding settle
run_job_sync show describe t₁ t₂ t₃ job_id job_fn = do
  update_job_status t₁ job_id running starting
  catch (do result ← job_fn; current ← get job_id; settle t₂ job_id (show result) current)
      (λ e. update_job_status t₃ job_id failed (crashed (describe e)))
