-- ===== src/Tests/Jobs.antt =====
-- The properties of the job queue with two waiting jobs, the younger one listed first.
use tax_return_ai.Tests.{test_world, test_world-IsUnique}
use tax_return_ai.Base.{
  ℕ, ◌≡◌, ◌≢◌, ◌⊎◌, refl, arith, true, false, Option, none, some, [], ◌∷◌, ◌==◌, if◌then◌else◌, All,
  ok, err, runtime_error, DistinctBy, by_key,
}
use tax_return_ai.Models.JobRow.{Job, queued, running}
use tax_return_ai.Models.World.{World, Service}
use tax_return_ai.Security.KeyCache.View.{live, key_of}
use tax_return_ai.Security.Capability.{token_hash}
use tax_return_ai.Audit.{write_audit}
use tax_return_ai.Jobs.{update_status, get, job_key, claim_next, claimed, is_claimable}
use tax_return_ai.Jobs.Claim.{IsNext, claim_next-IsNext, claim_next-exclusive}
use tax_return_ai.Jobs.Runner.{audit_status, run_job_sync, update_job_status, starting}
use tax_return_ai.Jobs.Lifecycle.{
  outcome, run_job_sync-outcome, done, step, claimed_next, AllStamped, JobSteps-AllStamped,
}
use tax_return_ai.Jobs.Worker.{resolve_job_key}
use tax_return_ai.Jobs.Keys.{may_use, resolve_job_key-live}

abbrev pub waiting_job : ℕ → ℕ → Option ℕ → Job
waiting_job id created_at h = record {
  id = id;
  session_id = none;
  workspace_id = none;
  user_id = none;
  document_id = none;
  job_type = "ocr";
  status = queued;
  requires_encryption = true;
  capability_token_hash = h;
  capability_expires_at = none;
  payload = none;
  lease_owner = none;
  lease_expires_at = none;
  heartbeat_at = none;
  attempt_count = 0;
  progress = none;
  progress_message = none;
  error_message = none;
  result_summary = none;
  queued_at = created_at;
  started_at = none;
  completed_at = none;
  created_at = created_at;
}

abbrev queue_world : World
queue_world = record test_world {
  db = record (test_world.db) { jobs = waiting_job 21 90 (some 8) ∷ waiting_job 20 80 none ∷ [] };
}

queue_distinct : DistinctBy job_key queue_world.db.jobs
queue_distinct = ground arith

claim_next-IsNext_example :
    let (r, w') = claim_next 100 5 ("ocr" ∷ []) 120 queue_world in
    ((r ≡ ok none)
      × (w' ≡ queue_world)
      × All (λ k. is_claimable 100 ("ocr" ∷ []) k ≡ false) queue_world.db.jobs)
    ⊎ ((j : Job) × IsNext 100 ("ocr" ∷ []) queue_world.db.jobs j
        × (r ≡ ok (some (claimed 100 5 120 j)))
        × ((i : ℕ)
            → by_key job_key i w'.db.jobs ≡ (
                if j.id == i
                then some (claimed 100 5 120 j)
                else by_key job_key i queue_world.db.jobs)))
claim_next-IsNext_example = claim_next-IsNext 100 5 120 ("ocr" ∷ []) queue_world queue_distinct

first_claim :
    (claim_next 100 5 [] 120 queue_world).0 ≡ ok (some (claimed 100 5 120 (waiting_job 20 80 none)))
unfolding claim_next
first_claim = refl

second_claim :
    (claim_next 900000000 6 [] 120 (claim_next 100 5 [] 120 queue_world).1).0
    ≡ ok (some (claimed 900000000 6 120 (waiting_job 21 90 (some 8))))
unfolding claim_next
second_claim = refl

claim_next-exclusive_example : (waiting_job 21 90 (some 8)).id ≢ (waiting_job 20 80 none).id
claim_next-exclusive_example =
    claim_next-exclusive 100 900000000 5 6 120 120 [] []
      (claimed 100 5 120 (waiting_job 20 80 none))
      (claimed 900000000 6 120 (waiting_job 21 90 (some 8))) queue_world queue_distinct first_claim
      second_claim

abbrev leased_world : World
leased_world = record test_world {
  db = record (test_world.db) { jobs = claimed 100 5 120 (waiting_job 20 80 none) ∷ [] };
}

leased_distinct : DistinctBy job_key leased_world.db.jobs
leased_distinct = ground arith

abbrev crash : Service ℕ
crash w = (err (runtime_error "boom"), w)

abbrev started_world : World
started_world = (update_job_status 100 20 running starting queue_world).1

abbrev started_job : Job
started_job = record (waiting_job 20 80 none) {
  status = running;
  started_at = some 100;
  progress = some 0;
  progress_message = some "Starting...";
}

started_distinct : DistinctBy job_key started_world.db.jobs
unfolding update_job_status update_status get audit_status write_audit
started_distinct = ground arith

started_row : by_key job_key 20 started_world.db.jobs ≡ some started_job
unfolding update_job_status update_status get audit_status write_audit
started_row = refl

run_job_sync-outcome_example :
    let (answer, w₃) =
      run_job_sync (λ (n : ℕ). "done") (λ e. "boom") 100 200 300 20 crash queue_world in
    (answer
      ≡ ok (
          some (
            outcome
              (λ (n : ℕ). "done")
              (λ e. "boom")
              200
              300
              (err (runtime_error "boom"))
              started_job)))
    × (by_key job_key 20 w₃.db.jobs
        ≡ some (
            outcome
              (λ (n : ℕ). "done")
              (λ e. "boom")
              200
              300
              (err (runtime_error "boom"))
              started_job))
run_job_sync-outcome_example =
    run_job_sync-outcome (λ (n : ℕ). "done") (λ e. "boom") 100 200 300 20 crash
      (err (runtime_error "boom")) (waiting_job 20 80 none) started_job queue_world started_world
      queue_distinct refl refl started_distinct started_row

queue_stamped : AllStamped queue_world
queue_stamped = ground arith

JobSteps-AllStamped_example : AllStamped (claim_next 100 5 [] 120 queue_world).1
JobSteps-AllStamped_example =
    JobSteps-AllStamped queue_world (claim_next 100 5 [] 120 queue_world).1
      (step queue_world (claim_next 100 5 [] 120 queue_world).1
        (claim_next 100 5 [] 120 queue_world).1
        (claimed_next queue_world (claim_next 100 5 [] 120 queue_world).1 100 5 120 [] refl)
        (done (claim_next 100 5 [] 120 queue_world).1 (claim_next 100 5 [] 120 queue_world).1 refl))
      queue_stamped

resolve_job_key-live_example :
    (resolve_job_key 200 (waiting_job 21 90 (some 8)) queue_world).0
    ≡ ok (
        if may_use 200
          (waiting_job 21 90 (some 8))
          (by_key token_hash 8 queue_world.db.capabilities)
        then key_of (live 200 queue_world.key_cache 8)
        else none)
resolve_job_key-live_example =
    resolve_job_key-live 200 8 (waiting_job 21 90 (some 8)) queue_world test_world-IsUnique
      (omega arith) refl

no_key : (resolve_job_key 200 (waiting_job 20 80 none) queue_world).0 ≡ ok none
unfolding resolve_job_key
no_key = refl
