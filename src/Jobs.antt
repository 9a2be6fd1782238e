-- ===== src/Jobs.antt =====
-- app/repositories/job_repo.py: the queries and updates of the job table. Worker names are texts
-- that are only compared, so they are numbers.
pub mod Runner
pub mod Worker
pub mod Keys
pub mod Claim
pub mod Lifecycle
use tax_return_ai.Base.{
  ℕ, ◌+◌, Bool, true, false, ◌&&◌, ◌||◌, not, String, Option, none, some, List, [], ◌∷◌, ◌++◌, leb,
  ltb, ◌==◌, holds_id, if◌then◌else◌, select, first, any, update_where, scalar_one_or_none, ◌>>=◌,
  ◌>>◌, pure, modify, query, gets,
}
use tax_return_ai.Config.{timedelta}
use tax_return_ai.Models.JobRow.{
  Job, JobStatus, queued, running, succeeded, failed, cancelled, retrying,
}
use tax_return_ai.Models.World.{Db, World, Service, uuid4}
use tax_return_ai.Text.{codes, eq_text}

abbrev pub job_key : Job → ℕ
job_key j = j.id

abbrev pub set_jobs : (List Job → List Job) → World → World
set_jobs f w = record w { db = record (w.db) { jobs = f w.db.jobs } }

-- The arguments of `create`.
pub record NewJob : Type 0 where
  pub session_id : Option ℕ
  pub document_id : Option ℕ
  pub job_type : String
  pub workspace_id : Option ℕ
  pub user_id : Option ℕ
  pub requires_encryption : Bool
  pub capability_token_hash : Option ℕ
  pub capability_expires_at : Option ℕ
  pub payload : Option String

abbrev pub job_of : ℕ → ℕ → NewJob → Job
job_of now id n = record {
  id = id;
  session_id = n.session_id;
  workspace_id = n.workspace_id;
  user_id = n.user_id;
  document_id = n.document_id;
  job_type = n.job_type;
  status = queued;
  requires_encryption = n.requires_encryption;
  capability_token_hash = n.capability_token_hash;
  capability_expires_at = n.capability_expires_at;
  payload = n.payload;
  lease_owner = none;
  lease_expires_at = none;
  heartbeat_at = none;
  attempt_count = 0;
  progress = none;
  progress_message = none;
  error_message = none;
  result_summary = none;
  queued_at = now;
  started_at = none;
  completed_at = none;
  created_at = now;
}

unfoldable pub create : ℕ → NewJob → Service Job
create now n = do
  id ← uuid4
  modify (set_jobs (λ jobs. jobs ++ job_of now id n ∷ []))
  pure (job_of now id n)

abbrev pub has_id : ℕ → Job → Bool
has_id job_id j = j.id == job_id

unfoldable pub get : ℕ → Service (Option Job)
get job_id = query (λ w. scalar_one_or_none (select (has_id job_id) w.db.jobs))

-- `order_by(Job.created_at.desc())`: insertion into the sorted rest
abbrev pub insert_newest : Job → List Job → List Job
insert_newest j [] = j ∷ []
insert_newest j (k ∷ ks) =
    let rest = insert_newest j ks in if leb k.created_at j.created_at then j ∷ k ∷ ks else k ∷ rest

abbrev pub newest_first : List Job → List Job
newest_first [] = []
newest_first (j ∷ js) = insert_newest j (newest_first js)

unfoldable pub find_by_session : ℕ → Service (List Job)
find_by_session session_id =
    gets (λ w. newest_first (select (λ j. holds_id j.session_id session_id) w.db.jobs))

unfoldable pub find_by_document : ℕ → Service (List Job)
find_by_document document_id =
    gets (λ w. newest_first (select (λ j. holds_id j.document_id document_id) w.db.jobs))

-- `status in ("succeeded", "failed", "cancelled")`
abbrev pub is_finished : JobStatus → Bool
is_finished succeeded = true
is_finished failed = true
is_finished cancelled = true
is_finished _ = false

abbrev pub is_running : JobStatus → Bool
is_running running = true
is_running _ = false

-- `extra_fields` as `update_job_status` builds it: a field that is `none` is not written.
pub record Extra : Type 0 where
  pub progress : Option ℕ
  pub progress_message : Option String
  pub error_message : Option String
  pub result_summary : Option String

abbrev pub given {ℓ} : {A : Type ℓ} → Option A → Option A → Option A
given none old = old
given (some x) old = some x

abbrev pub stamped : ℕ → JobStatus → Extra → Job → Job
stamped now status x j = record j {
  status = status;
  started_at = if is_running status then some now else j.started_at;
  completed_at = if is_finished status then some now else j.completed_at;
  progress = given x.progress j.progress;
  progress_message = given x.progress_message j.progress_message;
  error_message = given x.error_message j.error_message;
  result_summary = given x.result_summary j.result_summary;
}

unfoldable pub update_status : ℕ → ℕ → JobStatus → Extra → Service (Option Job)
unfolding get
update_status now job_id status x = do
  modify (set_jobs (update_where (has_id job_id) (stamped now status x)))
  get job_id

-- `Job.status.in_(["queued", "retrying"])`
abbrev pub is_waiting : JobStatus → Bool
is_waiting queued = true
is_waiting retrying = true
is_waiting _ = false

abbrev pub lease_is_free : ℕ → Option ℕ → Bool
lease_is_free now none = true
lease_is_free now (some expires_at) = leb expires_at now

-- `Job.job_type.in_(job_types)`, where `None` and the empty list filter nothing
abbrev pub has_type : List String → Job → Bool
has_type [] j = true
has_type (t ∷ ts) j = any (λ x. eq_text (codes x) (codes j.job_type)) (t ∷ ts)

abbrev pub is_claimable : ℕ → List String → Job → Bool
is_claimable now job_types j =
    is_waiting j.status && lease_is_free now j.lease_expires_at && has_type job_types j

-- `order_by(Job.created_at.asc())`, with `limit(1)`: the first of the oldest
abbrev pub older : Job → Option Job → Option Job
older j none = some j
older j (some k) = if leb j.created_at k.created_at then some j else some k

abbrev pub oldest : List Job → Option Job
oldest [] = none
oldest (j ∷ js) = older j (oldest js)

abbrev pub claimed : ℕ → ℕ → ℕ → Job → Job
claimed now worker_id lease_seconds j = record j {
  lease_owner = some worker_id;
  lease_expires_at = some (now + timedelta lease_seconds);
  heartbeat_at = some now;
  attempt_count = j.attempt_count + 1;
  status = running;
  started_at = some now;
}

claim_found : ℕ → ℕ → ℕ → Option Job → Service (Option Job)
claim_found now worker_id lease_seconds none = pure none
claim_found now worker_id lease_seconds (some j) = do
  modify (set_jobs (update_where (has_id j.id) (claimed now worker_id lease_seconds)))
  pure (some (claimed now worker_id lease_seconds j))

unfoldable pub claim_next : ℕ → ℕ → List String → ℕ → Service (Option Job)
unfolding claim_found
claim_next now worker_id job_types lease_seconds = do
  job ← gets (λ w. oldest (select (is_claimable now job_types) w.db.jobs))
  claim_found now worker_id lease_seconds job

abbrev pub beaten : ℕ → ℕ → Job → Job
beaten now lease_seconds j = record j {
  heartbeat_at = some now;
  lease_expires_at = some (now + timedelta lease_seconds);
}

beat_found : ℕ → ℕ → Option Job → Service (Option Job)
beat_found now lease_seconds none = pure none
beat_found now lease_seconds (some j) = do
  modify (set_jobs (update_where (has_id j.id) (beaten now lease_seconds)))
  pure (some (beaten now lease_seconds j))

abbrev pub holds_lease : ℕ → Job → Bool
holds_lease worker_id j = holds_id j.lease_owner worker_id && is_running j.status

unfoldable pub heartbeat : ℕ → ℕ → ℕ → ℕ → Service (Option Job)
unfolding beat_found
heartbeat now job_id worker_id lease_seconds = do
  job ←
      query (λ w.
        scalar_one_or_none (select (λ j. j.id == job_id && holds_lease worker_id j) w.db.jobs))
  beat_found now lease_seconds job
