-- ===== src/Jobs/Keys.antt =====
-- The keys that app/services/job/worker.py gives to a job.
use tax_return_ai.Base.{
  ℕ, ◌≡◌, ◌≢◌, refl, ap, Bool, true, false, ◌||◌, not, Option, none, some, List, [], ◌∷◌,
  by_key-update_key, leb, is_some, if◌then◌else◌, ok, err, key_unavailable, arith, by_key,
  scalar-select, String,
}
use tax_return_ai.Models.Account.{UnlockCapability}
use tax_return_ai.Models.JobRow.{Job}
use tax_return_ai.Models.World.{World}
use tax_return_ai.Security.KeyCache.View.{live, key_of}
use tax_return_ai.Security.KeyCache.Laws.{get_session_key_by_hash-live}
use tax_return_ai.Security.Capability.{token_hash}
use tax_return_ai.Security.Capability.Laws.{IsUnique}
use tax_return_ai.Audit.{write_audit}
use tax_return_ai.Jobs.{job_key, is_claimable, has_type}
use tax_return_ai.Jobs.Worker.{
  blocked, mark_retryable_key_block, has_passed, key_for, resolve_hash, resolve_job_key,
  key_or_block, require_key, execute_job,
}

-- What a job must have for its key to be found at a time: the hash of a token, whose capability is
-- not revoked and, like that of the job, has not expired.
abbrev pub may_use : ℕ → Job → Option UnlockCapability → Bool
may_use now job none = false
may_use now job (some c) =
    not (is_some c.revoked_at || has_passed job.capability_expires_at now || leb c.expires_at now)

-- If the token hashes of the capabilities are unique and the job has a non-empty token hash, the
-- key of the job is the live key of the cache for that hash if the capability of the hash is
-- neither revoked nor expired and the job's own deadline has not passed, and none otherwise.
pub resolve_job_key-live :
    (now h : ℕ) (job : Job) (w : World)
    → IsUnique w
    → h ≢ 0
    → job.capability_token_hash ≡ some h
    → (resolve_job_key now job w).0
      ≡ ok (
          if may_use now job (by_key token_hash h w.db.capabilities)
          then key_of (live now w.key_cache h)
          else none)
unfolding resolve_job_key resolve_hash key_for
resolve_job_key-live now h job w d ne e = ground (
  arith,
  e,
  ne,
  scalar-select token_hash h w.db.capabilities d,
  get_session_key_by_hash-live h now w.key_cache ne,
)

resolve_hash-db :
    (now : ℕ) (job : Job) (o : Option ℕ) (w : World) → (resolve_hash now job o w).1.db ≡ w.db
unfolding resolve_hash key_for
resolve_hash-db now job none w = refl
resolve_hash-db now job (some h) w = ground arith

resolve_job_key-db : (now : ℕ) (job : Job) (w : World) → (resolve_job_key now job w).1.db ≡ w.db
unfolding resolve_job_key
resolve_job_key-db now job w = resolve_hash-db now job job.capability_token_hash w

is_claimable-blocked :
    (j : Job) (t : ℕ) (job_types : List String)
    → is_claimable t job_types (blocked j) ≡ has_type job_types j
is_claimable-blocked j t [] = refl
is_claimable-blocked j t (x ∷ xs) = refl

-- A job that needs a key and has none is refused with EncryptionKeyUnavailableError, and its row
-- goes back to the queue without a lease: at any time it can be claimed by whoever takes jobs of
-- its type.
execute_job-blocked :
    (now : ℕ) (job j : Job) (w : World)
    → job.requires_encryption ≡ true
    → (resolve_job_key now job w).0 ≡ ok none
    → by_key job_key job.id w.db.jobs ≡ some j
    → let (r, w') = execute_job now job w in
      (r ≡ err (key_unavailable "Encryption capability missing for job"))
      × (by_key job_key job.id w'.db.jobs ≡ some (blocked j))
      × ((t : ℕ) (job_types : List String)
          → is_claimable t job_types (blocked j) ≡ has_type job_types j)
unfolding execute_job require_key key_or_block mark_retryable_key_block write_audit
execute_job-blocked now job j w q e row = (
  ground (arith, q, e),
  ground (
    arith,
    q,
    e,
    row,
    ap (λ d. d.jobs) (resolve_job_key-db now job w),
    by_key-update_key job_key blocked (λ x. refl) job.id job.id
        (resolve_job_key now job w).1.db.jobs,
  ),
  is_claimable-blocked j,
)
