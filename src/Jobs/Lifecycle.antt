-- ===== src/Jobs/Lifecycle.antt =====
-- The statuses of a job under app/services/job and app/repositories/job_repo.py, over any sequence
-- of their calls and for any work that `run_job_sync` is given.
use tax_return_ai.Base.{
  ℕ, ◌≡◌, refl, ap, ◌∙◌, true, ◌&&◌, scalar_one_or_none, String, Option, none, some, List, [], ◌∷◌,
  ◌==◌, if◌then◌else◌, All, All-append, select, update_where, Exn, Result, ok, err, arith,
  DistinctBy, by_key, by_key-update_key, DistinctBy-update_where, scalar-select, is_some, ◌>>=◌,
  subst, >>=-ok, Bool-cases, inl, inr, All-update_where,
}
use tax_return_ai.Models.JobRow.{Job, JobStatus, running, succeeded, failed}
use tax_return_ai.Models.World.{World, Service}
use tax_return_ai.Audit.{write_audit}
use tax_return_ai.Jobs.{
  job_key, has_id, NewJob, create, get, Extra, stamped, update_status, is_running, is_finished,
  claim_next, claim_found, claimed, heartbeat, beat_found, beaten, holds_lease,
}
use tax_return_ai.Jobs.Runner.{
  update_job_status, audit_status, starting, completed, crashed, is_settled, settle, run_job_sync,
  catch,
}
use tax_return_ai.Jobs.Worker.{blocked, mark_retryable_key_block}

module _ {R : Type 0} (show : R → String) (describe : Exn → String) where
  -- The row in which the work leaves the job, as `run_job_sync` completes it.
  abbrev pub outcome : ℕ → ℕ → Result R → Job → Job
  outcome t₂ t₃ (err e) j = stamped t₃ failed (crashed (describe e)) j
  outcome t₂ t₃ (ok a) j =
      if is_settled j.status then j else stamped t₂ succeeded (completed (show a)) j

-- A status that is written to a job that is there is answered, and found in the table.
pub update_job_status-row :
    (now job_id : ℕ) (status : JobStatus) (x : Extra) (j : Job) (w : World)
    → DistinctBy job_key w.db.jobs
    → by_key job_key job_id w.db.jobs ≡ some j
    → ((update_job_status now job_id status x w).0 ≡ ok (some (stamped now status x j)))
      × (by_key job_key job_id (update_job_status now job_id status x w).1.db.jobs
          ≡ some (stamped now status x j))
unfolding update_job_status update_status get audit_status write_audit
update_job_status-row now job_id status x j w d e =
    let rows = update_where (has_id job_id) (stamped now status x) w.db.jobs in
    let found =
      by_key-update_key job_key (stamped now status x) (λ k. refl) job_id job_id w.db.jobs in
    let query = scalar-select job_key job_id rows (
      DistinctBy-update_where job_key (has_id job_id) (stamped now status x) (λ k. refl) w.db.jobs
        d) in
    (ground (arith, e, found, query), ground (arith, e, found, query))

module _ {R : Type 0} (show : R → String) (describe : Exn → String) (t₂ t₃ job_id : ℕ) where
  -- The `try` block of `run_job_sync`.
  abbrev attempt : Service R → Service (Option Job)
  attempt job_fn =
      catch (do result ← job_fn; current ← get job_id; settle t₂ job_id (show result) current)
        (λ e. update_job_status t₃ job_id failed (crashed (describe e)))

  settle-row :
      (a : R) (j : Job) (w : World)
      → DistinctBy job_key w.db.jobs
      → by_key job_key job_id w.db.jobs ≡ some j
      → let (answer, w') = settle t₂ job_id (show a) (some j) w in
        (answer ≡ ok (some (outcome show describe t₂ t₃ (ok a) j)))
        × (by_key job_key job_id w'.db.jobs ≡ some (outcome show describe t₂ t₃ (ok a) j))
  unfolding settle
  settle-row a j w d e = elim (Bool-cases (is_settled j.status)) [
    | inl s ↦ rw s (refl, e)
    | inr s ↦ rw s (update_job_status-row t₂ job_id succeeded (completed (show a)) j w d e)
  ]

  attempt-ok :
      (job_fn : Service R) (a : R) (j : Job) (w₁ w : World)
      → DistinctBy job_key w.db.jobs
      → by_key job_key job_id w.db.jobs ≡ some j
      → job_fn w₁ ≡ (ok a, w)
      → attempt job_fn w₁
        ≡ catch
            (settle t₂ job_id (show a) (some j))
            (λ e. update_job_status t₃ job_id failed (crashed (describe e)))
            w
  unfolding get
  attempt-ok job_fn a j w₁ w d e f = ground (arith, f, e, scalar-select job_key job_id w.db.jobs d)

  attempt-err :
      (job_fn : Service R) (x : Exn) (w₁ w : World)
      → job_fn w₁ ≡ (err x, w)
      → attempt job_fn w₁ ≡ update_job_status t₃ job_id failed (crashed (describe x)) w
  attempt-err job_fn x w₁ w f = ground (arith, f)

  attempt-outcome :
      (job_fn : Service R) (r : Result R) (j : Job) (w₁ w : World)
      → DistinctBy job_key w.db.jobs
      → by_key job_key job_id w.db.jobs ≡ some j
      → job_fn w₁ ≡ (r, w)
      → let (answer, w') = attempt job_fn w₁ in
        (answer ≡ ok (some (outcome show describe t₂ t₃ r j)))
        × (by_key job_key job_id w'.db.jobs ≡ some (outcome show describe t₂ t₃ r j))
  attempt-outcome job_fn (err x) j w₁ w d e f =
      let (answer, row) = update_job_status-row t₃ job_id failed (crashed (describe x)) j w d e in
      (
        ap (λ p. p.0) (attempt-err job_fn x w₁ w f) ∙ answer,
        ap (λ p. by_key job_key job_id p.1.db.jobs) (attempt-err job_fn x w₁ w f) ∙ row,
      )
  attempt-outcome job_fn (ok a) j w₁ w d e f =
      let (answer, row) = settle-row a j w d e in
      (
        ground (arith, attempt-ok job_fn a j w₁ w d e f, answer),
        ground (arith, attempt-ok job_fn a j w₁ w d e f, answer, row),
      )

-- For any work that the job is given, an exception included: if the job has one row before the
-- work and after it, run_job_sync answers with that row, and leaves it in the table, as failed
-- after an exception, unchanged if the work left a final or retrying status, and as succeeded
-- otherwise.
pub run_job_sync-outcome :
    {R : Type 0} (show : R → String) (describe : Exn → String) (t₁ t₂ t₃ job_id : ℕ)
    (job_fn : Service R) (r : Result R) (i j : Job) (w w₂ : World)
    → DistinctBy job_key w.db.jobs
    → by_key job_key job_id w.db.jobs ≡ some i
    → job_fn (update_job_status t₁ job_id running starting w).1 ≡ (r, w₂)
    → DistinctBy job_key w₂.db.jobs
    → by_key job_key job_id w₂.db.jobs ≡ some j
    → let (answer, w₃) = run_job_sync show describe t₁ t₂ t₃ job_id job_fn w in
      (answer ≡ ok (some (outcome show describe t₂ t₃ r j)))
      × (by_key job_key job_id w₃.db.jobs ≡ some (outcome show describe t₂ t₃ r j))
unfolding run_job_sync
run_job_sync-outcome show describe t₁ t₂ t₃ job_id job_fn r i j w w₂ d e f d' e' =
    let w₁ = (update_job_status t₁ job_id running starting w).1 in
    let began = (update_job_status-row t₁ job_id running starting i w d e).0 in
    let same =
      >>=-ok (update_job_status t₁ job_id running starting)
        (λ _. attempt show describe t₂ t₃ job_id job_fn) w (ap (λ x. (x, w₁)) began) in
    let (answer, row) = attempt-outcome show describe t₂ t₃ job_id job_fn r j w₁ w₂ d' e' f in
    (ap (λ p. p.0) same ∙ answer, ap (λ p. by_key job_key job_id p.1.db.jobs) same ∙ row)

-- What the statuses promise of the time stamps: a running job has been started, and a finished one
-- has been completed.
abbrev pub IsStamped : Job → Type 0
IsStamped j =
    (is_running j.status ≡ true → is_some j.started_at ≡ true)
    × (is_finished j.status ≡ true → is_some j.completed_at ≡ true)

-- The writes to the job table: `create`, `update_status` for any status, a claim, a heartbeat and
-- the return of a job to the queue for want of a key.
pub data JobStep : World → World → Type 0 where
  created : (v w : World) (now : ℕ) (n : NewJob) → (create now n v).1 ≡ w → JobStep v w
  updated :
      (v w : World) (now job_id : ℕ) (status : JobStatus) (x : Extra)
      → (update_status now job_id status x v).1 ≡ w
      → JobStep v w
  claimed_next :
      (v w : World) (now worker_id lease_seconds : ℕ) (job_types : List String)
      → (claim_next now worker_id job_types lease_seconds v).1 ≡ w
      → JobStep v w
  beat :
      (v w : World) (now job_id worker_id lease_seconds : ℕ)
      → (heartbeat now job_id worker_id lease_seconds v).1 ≡ w
      → JobStep v w
  key_blocked :
      (v w : World) (now : ℕ) (job : Job) → (mark_retryable_key_block now job v).1 ≡ w → JobStep v w

pub data JobSteps : World → World → Type 0 where
  done : (v w : World) → v ≡ w → JobSteps v w
  step : (u v w : World) → JobStep u v → JobSteps v w → JobSteps u w

stamped-IsStamped :
    (now : ℕ) (status : JobStatus) (x : Extra) (j : Job)
    → IsStamped j
    → IsStamped (stamped now status x j)
stamped-IsStamped now status x j p = (ground (arith, p.0), ground (arith, p.1))

abbrev pub AllStamped : World → Type 0
AllStamped w = All IsStamped w.db.jobs

claim_found-AllStamped :
    (now worker_id lease_seconds : ℕ) (o : Option Job) (w : World)
    → AllStamped w
    → AllStamped (claim_found now worker_id lease_seconds o w).1
unfolding claim_found
claim_found-AllStamped now worker_id lease_seconds none w all = all
claim_found-AllStamped now worker_id lease_seconds (some j) w all =
    All-update_where IsStamped (has_id j.id) (claimed now worker_id lease_seconds)
      (λ k p. (λ e. refl, λ e. absurd (ground (arith, e)))) w.db.jobs all

beat_found-AllStamped :
    (now lease_seconds : ℕ) (o : Option Job) (w : World)
    → AllStamped w
    → AllStamped (beat_found now lease_seconds o w).1
unfolding beat_found
beat_found-AllStamped now lease_seconds none w all = all
beat_found-AllStamped now lease_seconds (some j) w all =
    All-update_where IsStamped (has_id j.id) (beaten now lease_seconds) (λ k p. p) w.db.jobs all

query-AllStamped :
    {A : Type 0} (r : Result (Option Job)) (k : Option Job → Service A) (w : World)
    → AllStamped w
    → ((o : Option Job) → AllStamped (k o w).1)
    → AllStamped (((λ (v : World). (r, v)) >>= k) w).1
query-AllStamped (ok o) k w all keep = keep o
query-AllStamped (err e) k w all keep = all

JobStep-AllStamped : (v w : World) → JobStep v w → AllStamped v → AllStamped w
unfolding create update_status get claim_next heartbeat mark_retryable_key_block write_audit
JobStep-AllStamped v w (created _ _ now n e) all = subst AllStamped e (
    All-append IsStamped v.db.jobs (_ ∷ []) all
      ((λ x. absurd (ground (arith, x)), λ x. absurd (ground (arith, x))), tt))
JobStep-AllStamped v w (updated _ _ now job_id status x e) all = subst AllStamped e (
    All-update_where IsStamped (has_id job_id) (stamped now status x)
      (stamped-IsStamped now status x) v.db.jobs all)
JobStep-AllStamped v w (claimed_next _ _ now worker_id lease_seconds job_types e) all =
    subst AllStamped e (claim_found-AllStamped now worker_id lease_seconds _ v all)
JobStep-AllStamped v w (beat _ _ now job_id worker_id lease_seconds e) all = subst AllStamped e (
    query-AllStamped
      (scalar_one_or_none (select (λ j. j.id == job_id && holds_lease worker_id j) v.db.jobs))
      (beat_found now lease_seconds) v all (λ o. beat_found-AllStamped now lease_seconds o v all))
JobStep-AllStamped v w (key_blocked _ _ now job e) all = subst AllStamped e (
    All-update_where IsStamped (has_id job.id) blocked
      (λ k p. (λ x. absurd (ground (arith, x)), λ x. absurd (ground (arith, x)))) v.db.jobs all)

-- Over any sequence of writes to the job table, if every running job had a start time and every
-- finished job a completion time before it, they have them after it.
pub JobSteps-AllStamped : (v w : World) → JobSteps v w → AllStamped v → AllStamped w
JobSteps-AllStamped v w (done _ _ e) all = subst AllStamped e all
JobSteps-AllStamped u w (step _ v _ s ss) all =
    JobSteps-AllStamped v w ss (JobStep-AllStamped u v s all)
