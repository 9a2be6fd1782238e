-- ===== src/Workspaces/Pack/Laws.antt =====
-- When app/routers/workspaces.py makes a review pack, and how its job ends.
use tax_return_ai.Base.{
  ℕ, ◌≡◌, refl, sym, subst, ap, ◌∙◌, Bool, true, false, none, some, List, String, Exn, http, Result,
  ok, err, arith, DistinctBy, by_key, >>=-ok, ◌<>◌, ◌∷◌, ◌>>◌, [], modify, raise, pure, ◌>>=◌,
  >>=-err, update_where, DistinctBy-update_where, Option-cases, inr, inl, Bool-cases,
}
use tax_return_ai.Models.Account.{User, TaxWorkspace}
use tax_return_ai.Models.JobRow.{Job, running, succeeded, failed, JobStatus}
use tax_return_ai.Models.Tax.{ExportPackageRow, TaxSession}
use tax_return_ai.Models.World.{World, Service, commit}
use tax_return_ai.Audit.{write_audit}
use tax_return_ai.Auth.Crypto.{Crypto}
use tax_return_ai.Auth.Password.{validate_export_password}
use tax_return_ai.Jobs.{job_key, stamped, update_status, get, Extra, has_id}
use tax_return_ai.Jobs.Runner.{update_job_status, catch, audit_status}
use tax_return_ai.Jobs.Lifecycle.{update_job_status-row}
use tax_return_ai.Review.EncryptedPack.{PackFormat, Draws, generate_encrypted_review_pack}
use tax_return_ai.Text.{Text}
use tax_return_ai.Models.Audit.{flag}
use tax_return_ai.Workspaces.Summary.{
  Summary, workspace_review_summary, summary_of, session_items, session_documents,
}
use tax_return_ai.Models.Leads.{Result-cases}
use tax_return_ai.Scope.Bridge.{
  open_workspace, get_or_create_workspace_session, session_or_new, touch_workspace_opened,
}
use tax_return_ai.Workspaces.Summary.Laws.{summary_of-IsReady, IsReady}
use tax_return_ai.Scope.{get_workspace_for_user}
use tax_return_ai.Workspaces.Pack.{
  refuse_pack, accept_pack, run_export, preparing, not_generated, generated, PackContext,
  generate_workspace_encrypted_review_pack, ident, refusal, failure_message, flag, Summary,
  workspace_review_summary, open_workspace, get_workspace_for_user,
}

-- The row of a job, by its status.
abbrev pub IsJobIn : ℕ → tax_return_ai.Models.JobRow.JobStatus → World → Type 0
IsJobIn job_id status w =
    (j : Job) × (by_key job_key job_id w.db.jobs ≡ some j) × (j.status ≡ status)

module _ (now job_id : ℕ) (j : Job) where
  refuse_pack-failed :
      (e : Exn) (w : World)
      → DistinctBy job_key w.db.jobs
      → by_key job_key job_id w.db.jobs ≡ some j
      → ((refuse_pack now job_id e w).0 ≡ err (refusal e))
        × IsJobIn job_id failed (refuse_pack now job_id e w).1
  unfolding refuse_pack
  refuse_pack-failed e w d row =
      let x = not_generated (failure_message e) in
      let (began, stays) = update_job_status-row now job_id failed x j w d row in
      let v = (update_job_status now job_id failed x w).1 in
      let same =
        >>=-ok (update_job_status now job_id failed x)
          (λ _. do modify commit; raise {A = ExportPackageRow} (refusal e)) w
          (ap (λ a. (a, v)) began) in
      (ap (λ p. p.0) same, (_, ap (λ p. by_key job_key job_id p.1.db.jobs) same ∙ stays, refl))

  accept_pack-succeeded :
      (show_export : ℕ → String) (workspace_id : ℕ) (pack : ExportPackageRow) (w : World)
      → DistinctBy job_key w.db.jobs
      → by_key job_key job_id w.db.jobs ≡ some j
      → ((accept_pack show_export now workspace_id job_id pack w).0 ≡ ok pack)
        × IsJobIn job_id succeeded (accept_pack show_export now workspace_id job_id pack w).1
  unfolding accept_pack write_audit
  accept_pack-succeeded show_export workspace_id pack w d row =
      let x = generated (show_export pack.id) in
      let u =
        (write_audit now "export_package" pack.id "encrypted_review_pack_generated"
          (("workspace_id", ident workspace_id)
            ∷ ("export_id", ident pack.id)
            ∷ ("encrypted", flag true)
            ∷ ("job_id", ident job_id)
            ∷ [])
          w).1 in
      let (began, stays) = update_job_status-row now job_id succeeded x j u d row in
      let v = (update_job_status now job_id succeeded x u).1 in
      let same =
        >>=-ok (update_job_status now job_id succeeded x) (λ _. do modify commit; pure pack) u
          (ap (λ a. (a, v)) began) in
      (ap (λ p. p.0) same, (_, ap (λ p. by_key job_key job_id p.1.db.jobs) same ∙ stays, refl))

update_job_status-jobs :
    (now job_id : ℕ) (status : JobStatus) (x : Extra) (w : World)
    → (update_job_status now job_id status x w).1.db.jobs
      ≡ update_where (has_id job_id) (stamped now status x) w.db.jobs
unfolding update_job_status update_status get audit_status write_audit
update_job_status-jobs now job_id status x w = ground arith

-- How the generation ended, in the answer of the route and in its job.
abbrev pub EndsAs : ℕ → Result ExportPackageRow → Result ExportPackageRow × World → Type 0
EndsAs job_id (ok pack) p = (p.0 ≡ ok pack) × IsJobIn job_id succeeded p.1
EndsAs job_id (err e) p = (p.0 ≡ err (refusal e)) × IsJobIn job_id failed p.1

module _ (show_export : ℕ → String) (now workspace_id job_id : ℕ)
    (generate : Service ExportPackageRow) where
  -- The `try` statement and what follows it.
  abbrev attempt : Service ExportPackageRow
  attempt = do
    pack ← catch generate (refuse_pack now job_id)
    accept_pack show_export now workspace_id job_id pack

  attempt-EndsAs :
      (r : Result ExportPackageRow) (v w : World) (j : Job)
      → generate v ≡ (r, w)
      → DistinctBy job_key w.db.jobs
      → by_key job_key job_id w.db.jobs ≡ some j
      → EndsAs job_id r (attempt v)
  attempt-EndsAs (ok pack) v w j e d row =
      let same =
        >>=-ok (catch generate (refuse_pack now job_id))
          (accept_pack show_export now workspace_id job_id) v {a = pack} {t = w}
          (ground (arith, e)) in
      subst (EndsAs job_id (ok pack)) (sym same)
        (accept_pack-succeeded now job_id j show_export workspace_id pack w d row)
  attempt-EndsAs (err x) v w j e d row =
      let done = refuse_pack-failed now job_id j x w d row in
      let handled : catch generate (refuse_pack now job_id) v ≡ refuse_pack now job_id x w =
        ground (arith, e) in
      let same =
        >>=-err (catch generate (refuse_pack now job_id))
          (accept_pack show_export now workspace_id job_id) v
          (handled ∙ ap (λ a. (a, (refuse_pack now job_id x w).1)) done.0) in
      subst (EndsAs job_id (err x)) (sym same) (refl, done.1)

  run_export-EndsAs :
      (j : Job) (w : World)
      → ((v : World) → (generate v).1.db.jobs ≡ v.db.jobs)
      → DistinctBy job_key w.db.jobs
      → by_key job_key job_id w.db.jobs ≡ some j
      → EndsAs job_id
          (generate (commit (update_job_status now job_id running preparing w).1)).0
          (run_export show_export now workspace_id job_id generate w)
  unfolding run_export
  run_export-EndsAs j w keeps d row =
      let (began, stays) = update_job_status-row now job_id running preparing j w d row in
      let v = commit (update_job_status now job_id running preparing w).1 in
      let same =
        >>=-ok (update_job_status now job_id running preparing) (λ _. do modify commit; attempt) w
          (ap (λ a. (a, (update_job_status now job_id running preparing w).1)) began) in
      subst (EndsAs job_id (generate v).0) (sym same) (
        attempt-EndsAs (generate v).0 v (generate v).1 (stamped now running preparing j) refl
          (subst (DistinctBy job_key)
            (sym (keeps v ∙ update_job_status-jobs now job_id running preparing w))
            (DistinctBy-update_where job_key (has_id job_id) (stamped now running preparing)
              (λ k. refl) w.db.jobs d))
          (ap (by_key job_key job_id) (keeps v) ∙ stays))

generate-jobs :
    (c : Crypto) (f : PackFormat) (now : ℕ) (draws : Draws) (workspace_id session_id : ℕ)
    (password : Text) (sources : Bool) (reasons : List String) (w : World)
    → (generate_encrypted_review_pack c f now draws workspace_id session_id password sources reasons
        w).1.db.jobs
      ≡ w.db.jobs
unfolding generate_encrypted_review_pack
generate-jobs c f now draws workspace_id session_id password sources reasons w = ground arith

-- If the ids of the jobs are unique and the job of an export is in the table, it ends: after a
-- pack was generated the route answers with it and the job has succeeded, and after any exception
-- of the generation the route raises it, a ValueError as status 400, and the job has failed.
pub run_export-generate :
    (c : Crypto) (f : PackFormat) (show_export : ℕ → String) (now job_id : ℕ) (draws : Draws)
    (workspace_id session_id : ℕ) (password : Text) (sources : Bool) (reasons : List String)
    (j : Job) (w : World)
    → DistinctBy job_key w.db.jobs
    → by_key job_key job_id w.db.jobs ≡ some j
    → let generate =
        generate_encrypted_review_pack c f now draws workspace_id session_id password sources
          reasons in
      EndsAs job_id
        (generate (commit (update_job_status now job_id running preparing w).1)).0
        (run_export show_export now workspace_id job_id generate w)
run_export-generate c f show_export now job_id draws workspace_id session_id password sources
      reasons j w =
    run_export-EndsAs show_export now workspace_id job_id
      (generate_encrypted_review_pack c f now draws workspace_id session_id password sources
        reasons)
      j w (generate-jobs c f now draws workspace_id session_id password sources reasons)

module _ (x : PackContext) (now : ℕ) (draws : Draws) (user : User) (token workspace_id : ℕ)
    (password : Text) (sources : Bool) where
  abbrev pub generated_pack : Service ExportPackageRow
  generated_pack =
      generate_workspace_encrypted_review_pack x now draws user token workspace_id password sources

  abbrev pub summarised : Service Summary
  summarised = workspace_review_summary x.financial_year_of x.format now user workspace_id

  abbrev pub opening : Service (TaxWorkspace × TaxSession)
  opening = open_workspace x.financial_year_of now user workspace_id

  -- The items, documents and links that a summary counts are ready for an export.
  abbrev pub IsReadyIn : TaxSession → World → Type 0
  IsReadyIn session v =
      IsReady (session_items session.id v) (session_documents session.id v) v.db.links

  summarised-IsReady :
      (s : Summary) (w : World)
      → (summarised w).0 ≡ ok s
      → s.ready_for_export ≡ true
      → (o : TaxWorkspace × TaxSession) × ((opening w).0 ≡ ok o) × IsReadyIn o.1 (opening w).1
  unfolding workspace_review_summary
  summarised-IsReady s w e t = elim (Result-cases (opening w).0) [
    | inr (y, h) ↦ absurd (ground (arith, h, e))
    | inl (o, h) ↦
        let v = (opening w).1 in
        let r =
          summary_of x.format (session_items (o.1).id v) (session_documents (o.1).id v)
            v.db.links in
        let same : r ≡ s = ground (arith, h, e) in
        (
          o,
          h,
          (summary_of-IsReady x.format (session_items (o.1).id v) (session_documents (o.1).id v)
                v.db.links).0
              (subst (λ (z : Summary). z.ready_for_export ≡ true) (sym same) t),
        )
  ]

  summarised-keeps :
      (w : World)
      → let v = (summarised w).1 in
        (v.db.jobs ≡ w.db.jobs)
        × (v.db.exports ≡ w.db.exports)
        × (v.files ≡ w.files)
        × (v.committed ≡ w.committed)
  unfolding workspace_review_summary open_workspace get_workspace_for_user
      get_or_create_workspace_session session_or_new touch_workspace_opened
  summarised-keeps w = (ground arith, ground arith, ground arith, ground arith)

  -- If the password is accepted and the summary says that the session is not ready, the route
  -- answers 409 in the world that the summary leaves, where the jobs, the packages, the files and
  -- what is committed are as before.
  generate_workspace_pack-blocked :
      (s : Summary) (w v : World)
      → validate_export_password (some password) ≡ none
      → summarised w ≡ (ok s, v)
      → s.ready_for_export ≡ false
      → (generated_pack w
          ≡ (err (http 409 ("Review pack is blocked: " <> x.show_reasons s.blocking_reasons)), v))
        × (v.db.jobs ≡ w.db.jobs)
        × (v.db.exports ≡ w.db.exports)
        × (v.files ≡ w.files)
        × (v.committed ≡ w.committed)
  unfolding generate_workspace_encrypted_review_pack
  generate_workspace_pack-blocked s w v p e b =
      let (jobs, exports, files, committed) = summarised-keeps w in
      let same : v ≡ (summarised w).1 = sym (ap (λ z. z.1) e) in
      (
        ground (arith, p, e, b),
        ap (λ (z : World). z.db.jobs) same ∙ jobs,
        ap (λ (z : World). z.db.exports) same ∙ exports,
        ap (λ (z : World). z.files) same ∙ files,
        ap (λ (z : World). z.committed) same ∙ committed,
      )

  -- Whoever gets a review pack from the route gave a password that validate_export_password
  -- accepts, and the session of the workspace was ready in the world in which the summary reads
  -- it: it has an item, each item counts as confirmed or excluded, and no document waits for a
  -- manual review.
  pub generate_workspace_pack-IsReady :
      (pack : ExportPackageRow) (w : World)
      → (generated_pack w).0 ≡ ok pack
      → (validate_export_password (some password) ≡ none)
        × ((o : TaxWorkspace × TaxSession) × ((opening w).0 ≡ ok o) × IsReadyIn o.1 (opening w).1)
  unfolding generate_workspace_encrypted_review_pack
  generate_workspace_pack-IsReady pack w e =
      elim (Option-cases (validate_export_password (some password))) [
        | inr (m, q) ↦ absurd (ground (arith, q, e))
        | inl p ↦ elim (Result-cases (summarised w).0) [
          | inr (y, h) ↦ absurd (ground (arith, p, h, e))
          | inl (s, h) ↦ elim (Bool-cases s.ready_for_export) [
            | inl t ↦ (p, summarised-IsReady s w h t)
            | inr b ↦
                let (same, _, _, _, _) =
                  generate_workspace_pack-blocked s w (summarised w).1 p
                    (ap (λ z. (z, (summarised w).1)) h) b in
                absurd (ground (arith, e, same))
          ]
        ]
      ]
