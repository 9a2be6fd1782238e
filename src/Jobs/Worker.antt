-- ===== src/Jobs/Worker.antt =====
-- app/services/job/worker.py: the claimed job on the worker's side. The payload is parsed there,
-- but not read.
use tax_return_ai.Base.{
  ℕ, Bool, false, ◌||◌, String, Option, none, some, List, [], ◌∷◌, leb, ◌==◌, is_some,
  if◌then◌else◌, update_where, scalar_one_or_none, key_unavailable, ok, ◌>>=◌, ◌>>◌, pure, raise,
  modify, query, return_if,
}
use tax_return_ai.Models.Account.{UnlockCapability}
use tax_return_ai.Models.Audit.{text, number}
use tax_return_ai.Models.JobRow.{Job, retrying}
use tax_return_ai.Models.World.{Service}
use tax_return_ai.Audit.{write_audit}
use tax_return_ai.Security.KeyCache.{get_session_key_by_hash}
use tax_return_ai.Security.Capability.{capability_rows}
use tax_return_ai.Jobs.{set_jobs, has_id, claim_next, heartbeat}

unfoldable pub claim_next_job : ℕ → ℕ → List String → ℕ → Service (Option Job)
claim_next_job now worker_id job_types lease_seconds =
    claim_next now worker_id job_types lease_seconds

unfoldable pub heartbeat_job : ℕ → ℕ → ℕ → ℕ → Service (Option Job)
heartbeat_job now job_id worker_id lease_seconds = heartbeat now job_id worker_id lease_seconds

-- `get_session_key_by_hash` on the cache of the process
abbrev pub cached_key : ℕ → ℕ → Service (Option ℕ)
cached_key h now w =
    let (key, cache) = get_session_key_by_hash h now w.key_cache in
    (ok key, record w { key_cache = cache })

-- `exp <= now`, of an optional expiry
abbrev pub has_passed : Option ℕ → ℕ → Bool
has_passed none now = false
has_passed (some expires_at) now = leb expires_at now

unfoldable pub key_for : ℕ → Job → ℕ → Option UnlockCapability → Service (Option ℕ)
key_for now job h none = pure none
key_for now job h (some c) =
    if is_some c.revoked_at || has_passed job.capability_expires_at now || leb c.expires_at now
    then pure none
    else cached_key h now

unfoldable pub resolve_hash : ℕ → Job → Option ℕ → Service (Option ℕ)
unfolding key_for
resolve_hash now job none = pure none
resolve_hash now job (some h) = return_if (h == 0) none (do
  capability ← query (λ w. scalar_one_or_none (capability_rows h w))
  key_for now job h capability)

unfoldable pub resolve_job_key : ℕ → Job → Service (Option ℕ)
unfolding resolve_hash
resolve_job_key now job = resolve_hash now job job.capability_token_hash

abbrev pub blocked : Job → Job
blocked j = record j {
  status = retrying;
  progress_message = some "Waiting for unlocked encryption capability";
  error_message = some "encryption_key_missing";
  lease_owner = none;
  lease_expires_at = none;
}

unfoldable pub mark_retryable_key_block : ℕ → Job → Service (Unit {0})
mark_retryable_key_block now job = do
  modify (set_jobs (update_where (has_id job.id) blocked))
  write_audit now "job" job.id "encryption_key_missing" (("job_type", text job.job_type) ∷ [])

unfoldable pub key_or_block : ℕ → Job → Option ℕ → Service (Unit {0})
key_or_block now job (some key) = pure tt
key_or_block now job none = do
  mark_retryable_key_block now job
  raise (key_unavailable "Encryption capability missing for job")

unfoldable pub require_key : ℕ → Job → Service (Unit {0})
unfolding key_or_block
require_key now job = do key ← resolve_job_key now job; key_or_block now job key

-- The answer is the id of the job and its type; its third entry is always `"checked"`.
unfoldable pub execute_job : ℕ → Job → Service (ℕ × String)
unfolding require_key
execute_job now job = do
  (if job.requires_encryption then require_key now job else pure tt)
  write_audit now "job" job.id "worker_job_checked"
      (("job_type", text job.job_type) ∷ ("attempt_count", number job.attempt_count) ∷ [])
  pure (job.id, job.job_type)
