-- ===== src/Ingestion/Background.antt =====
-- `_run_ingestion_pipeline` of app/routers/documents.py: the background task of an upload. Its time
-- limit is left out, since no service of the model takes time.
use tax_return_ai.Base.{
  ℕ, ◌≡◌, refl, true, List, Option, none, some, Result, ok, err, Exn, String, All, DistinctBy,
  by_key, is_some, ◌>>=◌, ◌>>◌, pure, modify, gets, first, select, ◌==◌, Keeps, >>=-Keeps, arith,
  >>=-ok, ap, ◌∙◌, >>=-Ends_kept, Ends, All-IsIn, find-IsIn, DistinctBy-update_where,
  by_key-update_where, subst, sym, key_eq, find_sound,
}
use tax_return_ai.Models.Tax.{Document}
use tax_return_ai.Models.World.{World, Service, commit}
use tax_return_ai.Jobs.{job_key, update_status, get, Extra, has_id, stamped}
use tax_return_ai.Jobs.Runner.{catch, run_job_sync, update_job_status, starting, audit_status}
use tax_return_ai.Models.JobRow.{Job, JobStatus, running, succeeded, failed}
use tax_return_ai.Ingestion.Steps.{process_upload}
use tax_return_ai.Ingestion.Finished.{HasSucceeded, IsDone, process_upload-HasSucceeded}
use tax_return_ai.Ingestion.Stable.{IsStable}
use tax_return_ai.Audit.{write_audit}
use tax_return_ai.Auth.Crypto.{Crypto}
use tax_return_ai.Security.FieldEncryption.{TextCodec}
use tax_return_ai.Classification.{
  get_session_field_key, ClassificationFormat, key_of_user, Providers,
}
use tax_return_ai.Ingestion.{IngestionFormat, IngestionCall}
use tax_return_ai.Ingestion.Ocr.{OcrProviders}
use tax_return_ai.Config.{Settings}
use tax_return_ai.Jobs.Lifecycle.{run_job_sync-outcome, outcome}
use tax_return_ai.Ingestion.Kept.{process_upload-Keeps}

-- The table of jobs has distinct ids, and the job is in it.
abbrev pub HasJob : ℕ → World → Type 0
HasJob job_id w = DistinctBy job_key w.db.jobs × (is_some (by_key job_key job_id w.db.jobs) ≡ true)

update_status-HasJob :
    (job_id now k : ℕ) (status : JobStatus) (x : Extra)
    → Keeps (HasJob job_id) (update_status now k status x)
unfolding update_status get
update_status-HasJob job_id now k status x = record {
  kept = λ w h. (
    DistinctBy-update_where job_key (has_id k) (stamped now status x) (λ j. refl) w.db.jobs h.0,
    ground (
      arith,
      h.1,
      by_key-update_where job_key (has_id k) (stamped now status x) (λ j. refl) job_id w.db.jobs,
    ),
  );
}

HasJob-IsStable : (job_id : ℕ) → IsStable (HasJob job_id)
unfolding write_audit get_session_field_key key_of_user
HasJob-IsStable job_id = record {
  uuid4_kept = record { kept = λ w h. h };
  write_audit_kept = λ now entity_type entity_id action details. record { kept = λ w h. h };
  update_status_kept = update_status-HasJob job_id;
  update_document_kept = λ document_id f. record { kept = λ w h. h };
  add_item_kept = λ i. record { kept = λ w h. h };
  add_link_kept = λ l. record { kept = λ w h. h };
  add_classification_kept = λ r. record { kept = λ w h. h };
  commit_kept = record { kept = λ w h. h };
  get_session_field_key_kept =
      λ now session_id. record { kept = λ w h. (ground (arith, h.0), ground (arith, h.1)) };
  add_page_kept = λ x e. record { kept = λ w h. h };
}

-- The row that is found is one of those that all have a property.
found_row :
    (Q : Job → Type 0) (job_id : ℕ) (jobs : List Job) (j : Job)
    → All Q jobs
    → by_key job_key job_id jobs ≡ some j
    → Q j
found_row Q job_id jobs j all e = All-IsIn Q j jobs all (find-IsIn _ jobs j e)

audit_status-HasJob :
    (job_id now k : ℕ) (status : JobStatus) (x : Extra) (j : Option Job)
    → Keeps (HasJob job_id) (audit_status now k status x j)
unfolding audit_status write_audit
audit_status-HasJob job_id now k status x none = record { kept = λ w h. h }
audit_status-HasJob job_id now k status x (some j) = record { kept = λ w h. h }

row_of : (o : Option Job) → is_some o ≡ true → (j : Job) × (o ≡ some j)
row_of none e = absurd (ground (arith, e))
row_of (some j) e = (j, refl)

-- How a job ends.
abbrev pub ending : {A : Type 0} → Result A → JobStatus
ending (ok a) = succeeded
ending (err e) = failed

-- The answer of `pipeline_fn`: the document with its status, and the one that it duplicates.
abbrev pub PipelineAnswer : Type 0
PipelineAnswer = Option Document × Option ℕ

module _ (c : Crypto) (u : TextCodec) (p : ClassificationFormat) (g : IngestionFormat)
    (o : OcrProviders) (providers : String → String → Providers) (s : Settings) (now : ℕ)
    (nonces : ℕ → ℕ) (processing_time_ms : ℕ) (show : PipelineAnswer → String)
    (describe : Exn → String) where
  unfoldable pub pipeline_fn : IngestionCall → Service PipelineAnswer
  pipeline_fn k = do
    duplicate_of ← process_upload c u p g o providers s now nonces processing_time_ms k
    modify commit
    document ← gets (λ w. first (select (λ (d : Document). d.id == k.document_id) w.db.documents))
    pure (document, duplicate_of)

  unfoldable pub run_ingestion_pipeline : IngestionCall → Service (Unit {0})
  unfolding pipeline_fn
  run_ingestion_pipeline k =
      catch (do run_job_sync show describe now now now k.job_id (pipeline_fn k); modify commit)
        (λ e. pure tt)

  process_upload-HasJob :
      (k : IngestionCall)
      → Keeps
          (HasJob k.job_id)
          (process_upload c u p g o providers s now nonces processing_time_ms k)
  process_upload-HasJob k = record {
    kept =
        process_upload-Keeps (HasJob-IsStable k.job_id) c u p g o providers s now nonces
          processing_time_ms k;
  }

  upload-HasSucceeded :
      (k : IngestionCall)
      → Ends
          (HasSucceeded k.job_id)
          (process_upload c u p g o providers s now nonces processing_time_ms k)
  upload-HasSucceeded k = record {
    reached = process_upload-HasSucceeded c u p g o providers s now nonces processing_time_ms k;
  }

  -- What follows `process_upload`.
  abbrev answer_of : IngestionCall → Option ℕ → Service PipelineAnswer
  answer_of k duplicate_of = do
    modify commit
    document ← gets (λ w. first (select (λ (d : Document). d.id == k.document_id) w.db.documents))
    pure (document, duplicate_of)

  pipeline_fn-HasJob : (k : IngestionCall) → Keeps (HasJob k.job_id) (pipeline_fn k)
  unfolding pipeline_fn
  pipeline_fn-HasJob k =
      >>=-Keeps {m = process_upload c u p g o providers s now nonces processing_time_ms k}
        {f = answer_of k} (process_upload-HasJob k) (λ duplicate_of. record { kept = λ w h. h })

  pipeline_fn-HasSucceeded : (k : IngestionCall) → Ends (HasSucceeded k.job_id) (pipeline_fn k)
  unfolding pipeline_fn
  pipeline_fn-HasSucceeded k =
      >>=-Ends_kept {m = process_upload c u p g o providers s now nonces processing_time_ms k}
        {f = answer_of k} (upload-HasSucceeded k) (λ duplicate_of. record { kept = λ w h. h })

  -- The world in which the work starts.
  abbrev pub at_start : IngestionCall → World → World
  at_start k w = (update_job_status now k.job_id running starting w).1

  at_start-HasJob :
      (k : IngestionCall) (w : World) → HasJob k.job_id w → HasJob k.job_id (at_start k w)
  unfolding update_job_status audit_status write_audit update_status get
  at_start-HasJob k w h =
      (>>=-Keeps {m = update_status now k.job_id running starting}
          {f = audit_status now k.job_id running starting}
          (update_status-HasJob k.job_id now k.job_id running starting)
          (audit_status-HasJob k.job_id now k.job_id running starting)).kept
        w h

  ended :
      (r : Result PipelineAnswer) (j : Job)
      → ((a : PipelineAnswer) → r ≡ ok a → j.status ≡ succeeded)
      → (outcome show describe now now r j).status ≡ ending r
  ended (err e) j h = refl
  ended (ok a) j h = ground (arith, h a refl)

  -- The run of the job, before the last commit.
  ran :
      (k : IngestionCall) (w : World)
      → HasJob k.job_id w
      → let v = run_job_sync show describe now now now k.job_id (pipeline_fn k) w in
        (j : Job) × (v.0 ≡ ok (some j))
        × (by_key job_key k.job_id v.1.db.jobs ≡ some j)
        × (j.status ≡ ending (pipeline_fn k (at_start k w)).0)
  ran k w h =
      let start = at_start k w in
      let (r, w₂) = pipeline_fn k start in
      let h₂ = (pipeline_fn-HasJob k).kept start (at_start-HasJob k w h) in
      let (i, e) = row_of (by_key job_key k.job_id w.db.jobs) h.1 in
      let (j, e₂) = row_of (by_key job_key k.job_id w₂.db.jobs) h₂.1 in
      let (answer, row) =
        run_job_sync-outcome show describe now now now k.job_id (pipeline_fn k) r i j w w₂ h.0 e
          refl h₂.0 e₂ in
      (
        outcome show describe now now r j,
        answer,
        row,
        ended r j (λ a q.
            (found_row (IsDone k.job_id) k.job_id w₂.db.jobs j
              ((pipeline_fn-HasSucceeded k).reached start a q) e₂
              (key_eq job_key k.job_id j (find_sound _ w₂.db.jobs j e₂))).0),
      )

  -- If the ids of the jobs are unique and the job of an upload is in the table, its background
  -- task ends with everything committed and the job in the table, succeeded if the ingestion has
  -- answered, and failed if it has raised any exception.
  pub run_ingestion_pipeline-ending :
      (k : IngestionCall) (w : World)
      → HasJob k.job_id w
      → let v = (run_ingestion_pipeline k w).1 in
        (j : Job) × (by_key job_key k.job_id v.db.jobs ≡ some j)
        × (j.status ≡ ending (pipeline_fn k (at_start k w)).0)
        × (v.committed ≡ v.db)
  unfolding run_ingestion_pipeline
  run_ingestion_pipeline-ending k w h =
      let (j, answer, row, status) = ran k w h in
      let job_run = run_job_sync show describe now now now k.job_id (pipeline_fn k) in
      let v = (job_run w).1 in
      let e =
        >>=-ok job_run (λ _. modify commit) w (ap (λ (x : Result (Option Job)). (x, v)) answer) in
      let same : run_ingestion_pipeline k w ≡ (ok tt, commit v) =
        ap (λ (x : Result (Unit {0}) × World). catch (λ _. x) (λ e. pure tt) w) e in
      (
        j,
        ap (λ x. by_key job_key k.job_id x.1.db.jobs) same ∙ row,
        status,
        subst (λ (x : World). x.committed ≡ x.db) (sym (ap (λ x. x.1) same)) refl,
      )
