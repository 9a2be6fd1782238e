-- ===== src/Ingestion/Finished.antt =====
-- How a run of app/services/ingestion/pipeline.py leaves its job.
use tax_return_ai.Base.{
  provider_not_configured, if-Ends, ℕ, ◌≡◌, refl, List, [], ◌∷◌, All, update_where, arith,
  Bool-cases, inl, inr, Ends, Keeps, >>-Ends, >>=-Ends, >>=-Ends_kept, pure, ◌==◌, String, none,
  ◌>>=◌, some, Exn, Option, raise-Ends, Result, ok, err, modify, query, ◌>>◌, scalar_one_or_none,
  select,
}
use tax_return_ai.Ingestion.{done, IngestionFormat, OcrResult, Service, IngestionCall}
use tax_return_ai.Jobs.{has_id, stamped, update_status, get}
use tax_return_ai.Models.JobRow.{Job, succeeded}
use tax_return_ai.Models.World.{World, Service, commit}
use tax_return_ai.Models.Tax.{Document, TaxItem}
use tax_return_ai.Auth.Crypto.{Crypto}
use tax_return_ai.Security.FieldEncryption.{TextCodec}
use tax_return_ai.Classification.{ClassificationFormat, Providers}
use tax_return_ai.Ingestion.Ocr.{OcrProviders}
use tax_return_ai.Config.{Settings}
use tax_return_ai.Jobs.Runner.{catch}
use tax_return_ai.Base.{ok}
use tax_return_ai.Ingestion.Classifying.{after_items, classification_stopped, run_classification}
use tax_return_ai.Ingestion.Steps.{
  store_text, write_blocked, without_text, with_text, run_ocr_pipeline, process_upload,
  process_document, process_checked, found_document,
}

-- Every row with the id of the job is marked as succeeded, at 100 %.
abbrev pub IsDone : ℕ → Job → Type 0
IsDone job_id j = j.id ≡ job_id → (j.status ≡ succeeded) × (j.progress ≡ some 100)

abbrev pub HasSucceeded : ℕ → World → Type 0
HasSucceeded job_id w = All (IsDone job_id) w.db.jobs

stamped-IsDone :
    (now job_id : ℕ) (message summary : String) (jobs : List Job)
    → All
        (IsDone job_id)
        (update_where (has_id job_id) (stamped now succeeded (done message summary)) jobs)
stamped-IsDone now job_id message summary [] = tt
stamped-IsDone now job_id message summary (j ∷ jobs) = elim (Bool-cases (has_id job_id j)) [
  | inl e ↦ (ground (arith, e), stamped-IsDone now job_id message summary jobs)
  | inr e ↦ (ground (arith, e), stamped-IsDone now job_id message summary jobs)
]

update_status-HasSucceeded :
    (now job_id : ℕ) (message summary : String)
    → Ends (HasSucceeded job_id) (update_status now job_id succeeded (done message summary))
unfolding update_status get
update_status-HasSucceeded now job_id message summary = record {
  reached = λ w a e. stamped-IsDone now job_id message summary w.db.jobs;
}

commit_kept :
    {A : Type 0} (job_id : ℕ) (a : A)
    → Keeps (HasSucceeded job_id) (modify commit >> pure {S = World} a)
commit_kept job_id a = record { kept = λ w h. h }

-- A step that ends with that write.
then_done :
    (now job_id : ℕ) (message summary : String)
    → Ends
        (HasSucceeded job_id)
        (update_status now job_id succeeded (done message summary) >>= λ _. pure {S = World} tt)
then_done now job_id message summary =
    >>=-Ends_kept {f = λ _. pure tt} (update_status-HasSucceeded now job_id message summary)
      (λ _. record { kept = λ s h. h })

ruleset finished_rules = (>>-Ends, >>=-Ends, raise-Ends, if-Ends, then_done)

module _ {P : World → Type 0} {A : Type 0} where
  Ends-caught :
      (handler : Exn → Service A)
      → ((e : Exn) → Ends P (handler e))
      → (r : Result A) (v : World) (a : A) → ((b : A) → r ≡ ok b → P v)
      → (catch (λ _. (r, v)) handler v).0 ≡ ok a
      → P (catch (λ _. (r, v)) handler v).1
  Ends-caught handler k (ok b) v a h e = h b refl
  Ends-caught handler k (err x) v a h e = (k x).reached v a e

  catch-Ends :
      (m : Service A) (handler : Exn → Service A)
      → Ends P m
      → ((e : Exn) → Ends P (handler e))
      → Ends P (catch m handler)
  catch-Ends m handler em k = record {
    reached = λ w a e. Ends-caught handler k (m w).0 (m w).1 a (em.reached w) e;
  }

module _ (c : Crypto) (u : TextCodec) (p : ClassificationFormat) (g : IngestionFormat)
    (o : OcrProviders) (providers : String → String → Providers) (s : Settings) (now : ℕ)
    (nonces : ℕ → ℕ) (processing_time_ms : ℕ) where
  after_items-HasSucceeded :
      (doc : Document) (job_id : ℕ) (items : List TaxItem)
      → Ends
          (HasSucceeded job_id)
          (after_items c u p g o providers s now nonces processing_time_ms doc job_id items)
  unfolding after_items
  after_items-HasSucceeded doc job_id [] = search finished_rules
  after_items-HasSucceeded doc job_id (i ∷ items) = search finished_rules

  classification_stopped-HasSucceeded :
      (doc : Document) (job_id : ℕ) (e : Exn)
      → Ends
          (HasSucceeded job_id)
          (classification_stopped c u p g o providers s now nonces processing_time_ms doc job_id e)
  unfolding classification_stopped
  classification_stopped-HasSucceeded doc job_id provider_not_configured = search finished_rules
  classification_stopped-HasSucceeded doc job_id _ = search finished_rules

  run_classification-HasSucceeded :
      (doc : Document) (job_id n : ℕ) (t : String)
      → Ends
          (HasSucceeded job_id)
          (run_classification c u p g o providers s now nonces processing_time_ms doc job_id n t)
  unfolding run_classification
  run_classification-HasSucceeded doc job_id n t = search (
    finished_rules,
    catch-Ends,
    after_items-HasSucceeded doc job_id,
    classification_stopped-HasSucceeded doc job_id,
  )

  store_text-HasSucceeded :
      (doc : Document) (job_id : ℕ) (r : OcrResult) (key : Option ℕ)
      → Ends
          (HasSucceeded job_id)
          (store_text c u p g o providers s now nonces processing_time_ms doc job_id r key)
  unfolding store_text write_blocked without_text with_text
  store_text-HasSucceeded doc job_id r none = search finished_rules
  store_text-HasSucceeded doc job_id r (some key) =
      search (finished_rules, run_classification-HasSucceeded doc job_id) depth 12

  run_ocr_pipeline-HasSucceeded :
      (doc : Document) (file_data : ℕ) (mime_type : String) (job_id : ℕ)
      → Ends (HasSucceeded job_id) (
          run_ocr_pipeline c u p g o providers s now nonces processing_time_ms doc file_data
            mime_type job_id)
  unfolding run_ocr_pipeline
  run_ocr_pipeline-HasSucceeded doc file_data mime_type job_id =
      search (finished_rules, store_text-HasSucceeded doc job_id) depth 12

  process_checked-HasSucceeded :
      (k : IngestionCall) (doc : Document) (duplicate : Option Document)
      → Ends
          (HasSucceeded k.job_id)
          (process_checked c u p g o providers s now nonces processing_time_ms k doc duplicate)
  unfolding process_checked
  process_checked-HasSucceeded k doc none =
      run_ocr_pipeline-HasSucceeded doc k.file_data k.mime_type k.job_id
  process_checked-HasSucceeded k doc (some d) = search finished_rules

  process_document-HasSucceeded :
      (k : IngestionCall) (doc : Document)
      → Ends
          (HasSucceeded k.job_id)
          (process_document c u p g o providers s now nonces processing_time_ms k doc)
  unfolding process_document
  process_document-HasSucceeded k doc =
      search
        (>>-Ends, >>=-Ends, >>=-Ends_kept, process_checked-HasSucceeded k doc, commit_kept k.job_id)
        depth 12

  found_document-HasSucceeded :
      (k : IngestionCall) (doc : Option Document)
      → Ends
          (HasSucceeded k.job_id)
          (found_document c u p g o providers s now nonces processing_time_ms k doc)
  unfolding found_document
  found_document-HasSucceeded k none = search finished_rules
  found_document-HasSucceeded k (some doc) = process_document-HasSucceeded k doc

  -- An ingestion that answers, whatever its providers find, leaves its job succeeded at one
  -- hundred percent.
  pub process_upload-HasSucceeded :
      (k : IngestionCall) (w : World) (duplicate_of : Option ℕ)
      → (process_upload c u p g o providers s now nonces processing_time_ms k w).0 ≡ ok duplicate_of
      → HasSucceeded k.job_id
          (process_upload c u p g o providers s now nonces processing_time_ms k w).1
  unfolding process_upload
  process_upload-HasSucceeded k =
      (>>=-Ends
        (query (λ w.
          scalar_one_or_none (select (λ (d : Document). d.id == k.document_id) w.db.documents)))
        (found_document-HasSucceeded k)).reached
