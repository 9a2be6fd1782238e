-- ===== src/Jobs/Claim.antt =====
-- Claims and heartbeats of app/repositories/job_repo.py: which job a worker is given, and who holds
-- it afterwards.
use tax_return_ai.Base.{
  IsIn, IsIn-by_key, ℕ, ◌≡◌, ◌≢◌, ◌≤◌, ◌⊎◌, inl, inr, refl, sym, ap, ◌∙◌, Bool, true, false, ◌&&◌,
  String, Option, none, some, List, [], ◌∷◌, leb, ◌==◌, if◌then◌else◌, select, All, update_where,
  ok, arith, DistinctBy, by_key, map_some, keep_if, by_key-update_key, DistinctBy-update_where,
  scalar-select_and, find_sound, Bool-cases, Option-cases, is_some, subst,
}
use tax_return_ai.Models.JobRow.{Job, running}
use tax_return_ai.Models.World.{World}
use tax_return_ai.Jobs.{
  job_key, set_jobs, has_id, older, oldest, is_claimable, claimed, claim_found, claim_next, beaten,
  beat_found, holds_lease, heartbeat,
}

-- The job is the one that a row of the table with its id holds, it can be claimed, and no other job
-- that can be claimed is older.
pub record IsNext (now : ℕ) (job_types : List String) (jobs : List Job) (j : Job) : Type 0 where
  pub claimable : is_claimable now job_types j ≡ true
  pub is_oldest : All (λ k. is_claimable now job_types k ≡ true → j.created_at ≤ k.created_at) jobs
  pub is_row : by_key job_key j.id jobs ≡ some j

older-is_some : (j : Job) (o : Option Job) → older j o ≢ none
older-is_some j none e = absurd (cc)
older-is_some j (some k) e = ground (arith, e)

module _ (p : Job → Bool) where
  oldest-none : (jobs : List Job) → oldest (select p jobs) ≡ none → All (λ k. p k ≡ false) jobs
  oldest-none [] e = tt
  oldest-none (k ∷ ks) e = elim (Bool-cases (p k)) [
    | inl f ↦ absurd (older-is_some k (oldest (select p ks)) (rw f at e))
    | inr f ↦ (f, oldest-none ks (rw f at e))
  ]

  -- The time is not later than that of any job that passes the test.
  abbrev IsEarliest : ℕ → List Job → Type 0
  IsEarliest t jobs = All (λ k. p k ≡ true → t ≤ k.created_at) jobs

  IsEarliest-none : (t : ℕ) (jobs : List Job) → All (λ k. p k ≡ false) jobs → IsEarliest t jobs
  IsEarliest-none t [] h = tt
  IsEarliest-none t (k ∷ ks) h = (λ e. absurd (ground (arith, e, h.0)), IsEarliest-none t ks h.1)

  IsEarliest-before : (t u : ℕ) (jobs : List Job) → t ≤ u → IsEarliest u jobs → IsEarliest t jobs
  IsEarliest-before t u [] l h = tt
  IsEarliest-before t u (k ∷ ks) l h =
      (λ e. omega (arith, l, h.0 e), IsEarliest-before t u ks l h.1)

  abbrev IsChosen : List Job → Job → Type 0
  IsChosen jobs j = (p j ≡ true) × IsIn j jobs × IsEarliest j.created_at jobs

  -- The choice between a job and the oldest of the rest.
  choose :
      (j k : Job) (ks : List Job) (o : Option Job)
      → p k ≡ true
      → (o ≡ none → IsEarliest k.created_at ks)
      → ((i : Job) → o ≡ some i → IsChosen ks i)
      → older k o ≡ some j
      → IsChosen (k ∷ ks) j
  choose j k ks none f gone found e =
      subst (IsChosen (k ∷ ks)) (ground (arith, e)) (f, inl refl, (λ t. omega arith, gone refl))
  choose j k ks (some i) f gone found e = elim (Bool-cases (leb k.created_at i.created_at)) [
    | inl l ↦ subst (IsChosen (k ∷ ks)) (ground (arith, e, l)) (
      f,
      inl refl,
      (
        λ t. omega arith,
        IsEarliest-before k.created_at i.created_at ks (ground (arith, l)) (found i refl).2,
      ),
    )
    | inr g ↦
        subst (IsChosen (k ∷ ks)) (ground (arith, e, g))
          ((found i refl).0, inr (found i refl).1, (λ t. ground (arith, g), (found i refl).2))
  ]

  oldest-some : (j : Job) (jobs : List Job) → oldest (select p jobs) ≡ some j → IsChosen jobs j
  oldest-some j [] e = absurd (cc)
  oldest-some j (k ∷ ks) e = elim (Bool-cases (p k)) [
    | inl f ↦
        choose j k ks (oldest (select p ks)) f
          (λ n. IsEarliest-none k.created_at ks (oldest-none ks n)) (λ i. oldest-some i ks)
          (rw f at e)
    | inr f ↦
        let (q, i, l) = oldest-some j ks (rw f at e) in
        (q, inr i, (λ t. absurd (ground (arith, f, t)), l))
  ]

-- If the ids of the jobs are unique, a claim answers none and changes nothing when no job can be
-- claimed; otherwise it gives the oldest job that can be claimed, running and leased to the
-- worker, and changes no other job.
pub claim_next-IsNext :
    (now worker_id lease_seconds : ℕ) (job_types : List String) (w : World)
    → DistinctBy job_key w.db.jobs
    → let (r, w') = claim_next now worker_id job_types lease_seconds w in
      ((r ≡ ok none) × (w' ≡ w) × All (λ k. is_claimable now job_types k ≡ false) w.db.jobs)
      ⊎ ((j : Job) × IsNext now job_types w.db.jobs j
          × (r ≡ ok (some (claimed now worker_id lease_seconds j)))
          × ((i : ℕ)
              → by_key job_key i w'.db.jobs ≡ (
                  if j.id == i
                  then some (claimed now worker_id lease_seconds j)
                  else by_key job_key i w.db.jobs)))
unfolding claim_next claim_found
claim_next-IsNext now worker_id lease_seconds job_types w d =
    elim (Option-cases (oldest (select (is_claimable now job_types) w.db.jobs))) [
      | inl e ↦ inl (rw e, rw e, oldest-none (is_claimable now job_types) w.db.jobs e)
      | inr (j, e) ↦
          let (c, i, l) = oldest-some (is_claimable now job_types) j w.db.jobs e in
          let row = IsIn-by_key job_key j w.db.jobs d i in
          inr (
            j,
            record { claimable = c; is_oldest = l; is_row = row },
            rw e,
            λ i. rw e (
                ground (
                  arith,
                  row,
                  by_key-update_key job_key (claimed now worker_id lease_seconds) (λ x. refl) j.id i
                      w.db.jobs,
                )),
          )
    ]

DistinctBy-claim_next :
    (now worker_id lease_seconds : ℕ) (job_types : List String) (w : World)
    → DistinctBy job_key w.db.jobs
    → DistinctBy job_key (claim_next now worker_id job_types lease_seconds w).1.db.jobs
unfolding claim_next claim_found
DistinctBy-claim_next now worker_id lease_seconds job_types w d =
    elim (Option-cases (oldest (select (is_claimable now job_types) w.db.jobs))) [
      | inl e ↦ rw e d
      | inr (j, e) ↦ rw e (
          DistinctBy-update_where job_key (has_id j.id) (claimed now worker_id lease_seconds)
            (λ x. refl) w.db.jobs d)
    ]

claim_next-some :
    (now worker_id lease_seconds : ℕ) (job_types : List String) (a : Job) (w : World)
    → DistinctBy job_key w.db.jobs
    → (claim_next now worker_id job_types lease_seconds w).0 ≡ ok (some a)
    → (j : Job) × IsNext now job_types w.db.jobs j
      × (a ≡ claimed now worker_id lease_seconds j)
      × (by_key job_key j.id (claim_next now worker_id job_types lease_seconds w).1.db.jobs
          ≡ some (claimed now worker_id lease_seconds j))
claim_next-some now worker_id lease_seconds job_types a w d e =
    elim (claim_next-IsNext now worker_id lease_seconds job_types w d) [
      | inl (r, _, _) ↦ absurd (ground (arith, e, r))
      | inr (j, n, r, rows) ↦ (j, n, ground (arith, e, r), ground (arith, rows j.id))
    ]

not_claimable :
    (t : ℕ) (job_types : List String) (k c : Job) (jobs : List Job)
    → c.status ≡ running
    → by_key job_key c.id jobs ≡ some c
    → by_key job_key k.id jobs ≡ some k
    → is_claimable t job_types k ≡ true
    → k.id ≢ c.id
not_claimable t job_types k c jobs s row row' e same =
    ground (arith, s, subst (λ i. by_key job_key i jobs ≡ some k) same row', row, e)

-- If the ids of the jobs are unique and one claim gives a job, the next claim never gives the
-- same job, whatever its time, worker and filter: a claimed job stays out of the queue even after
-- its lease has expired.
pub claim_next-exclusive :
    (now t worker_id other lease_seconds lease_seconds' : ℕ) (job_types job_types' : List String)
    (a b : Job) (w : World)
    → DistinctBy job_key w.db.jobs
    → (claim_next now worker_id job_types lease_seconds w).0 ≡ ok (some a)
    → (claim_next t other job_types' lease_seconds'
        (claim_next now worker_id job_types lease_seconds w).1).0
      ≡ ok (some b)
    → b.id ≢ a.id
claim_next-exclusive now t worker_id other lease_seconds lease_seconds' job_types job_types' a b w d
      e f same =
    let (j, n, x, row) = claim_next-some now worker_id lease_seconds job_types a w d e in
    let (k, m, y, _) =
      claim_next-some t other lease_seconds' job_types' b
        (claim_next now worker_id job_types lease_seconds w).1
        (DistinctBy-claim_next now worker_id lease_seconds job_types w d) f in
    not_claimable t job_types' k (claimed now worker_id lease_seconds j)
      (claim_next now worker_id job_types lease_seconds w).1.db.jobs refl row m.is_row m.claimable
      (sym (ap (λ (i : Job). i.id) y) ∙ same ∙ ap (λ (i : Job). i.id) x)

heartbeat-row :
    (now job_id worker_id lease_seconds : ℕ) (j : Job) (w : World)
    → DistinctBy job_key w.db.jobs
    → by_key job_key job_id w.db.jobs ≡ some j
    → heartbeat now job_id worker_id lease_seconds w ≡ (
        if holds_lease worker_id j
        then (
          ok (some (beaten now lease_seconds j)),
          set_jobs (update_where (has_id job_id) (beaten now lease_seconds)) w,
        )
        else (ok none, w))
unfolding heartbeat beat_found
heartbeat-row now job_id worker_id lease_seconds j w d e = ground (
  arith,
  e,
  scalar-select_and job_key (holds_lease worker_id) job_id w.db.jobs d,
  find_sound (λ x. job_key x == job_id) w.db.jobs j e,
)

heartbeat-no_row :
    (now job_id worker_id lease_seconds : ℕ) (w : World)
    → DistinctBy job_key w.db.jobs
    → by_key job_key job_id w.db.jobs ≡ none
    → heartbeat now job_id worker_id lease_seconds w ≡ (ok none, w)
unfolding heartbeat beat_found
heartbeat-no_row now job_id worker_id lease_seconds w d e =
    ground (arith, e, scalar-select_and job_key (holds_lease worker_id) job_id w.db.jobs d)

-- If the ids of the jobs are unique, a heartbeat renews the lease of the job exactly when it is
-- running and the worker owns it; otherwise it answers none. No other row changes.
heartbeat-owner :
    (now job_id worker_id lease_seconds : ℕ) (w : World)
    → DistinctBy job_key w.db.jobs
    → let row = keep_if (holds_lease worker_id) (by_key job_key job_id w.db.jobs) in
      let (r, w') = heartbeat now job_id worker_id lease_seconds w in
      (r ≡ ok (map_some (beaten now lease_seconds) row))
      × ((i : ℕ)
          → by_key job_key i w'.db.jobs ≡ (
              if is_some row && job_id == i
              then map_some (beaten now lease_seconds) row
              else by_key job_key i w.db.jobs))
heartbeat-owner now job_id worker_id lease_seconds w d =
    elim (Option-cases (by_key job_key job_id w.db.jobs)) [
      | inl e ↦ rw (heartbeat-no_row now job_id worker_id lease_seconds w d e, e) (refl, λ i. refl)
      | inr (j, e) ↦
          rw (heartbeat-row now job_id worker_id lease_seconds j w d e, e)
            (
              ground arith,
              λ i. ground (
                arith,
                e,
                by_key-update_key job_key (beaten now lease_seconds) (λ x. refl) job_id i w.db.jobs,
              ),
            )
    ]
