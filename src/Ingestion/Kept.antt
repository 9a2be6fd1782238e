-- ===== src/Ingestion/Kept.antt =====
-- What a run of app/services/ingestion/pipeline.py keeps.
use tax_return_ai.Base.{
  ℕ, refl, List, [], ◌∷◌, Keeps, >>-Keeps, >>=-Keeps, Option, none, some, Exn,
  provider_not_configured, ok, err, Result, String, query-Keeps, suc, scalar_one_or_none, select,
  ◌==◌,
}
use tax_return_ai.Models.Tax.{Document, TaxItem}
use tax_return_ai.Models.World.{World, Service}
use tax_return_ai.Auth.Crypto.{Crypto}
use tax_return_ai.Ingestion.{
  IngestionFormat, IngestionCall, OcrPage, check_hash_duplicate, OcrResult,
}
use tax_return_ai.Security.FieldEncryption.{TextCodec}
use tax_return_ai.Jobs.Runner.{catch}
use tax_return_ai.Classification.{ClassificationFormat, Providers}
use tax_return_ai.Ingestion.Ocr.{OcrProviders}
use tax_return_ai.Config.{Settings}
use tax_return_ai.Ingestion.Classifying.{
  after_items, classification_stopped, run_classification, classify_text, financial_year_of,
}
use tax_return_ai.Ingestion.Steps.{
  found_document, store_text, process_upload, process_checked, store_pages, page_of,
  run_ocr_pipeline, process_document, write_blocked, without_text, record_check, with_text,
}
use tax_return_ai.Workspaces.Items.{default_key_version}
use tax_return_ai.Models.Tax.{plain}
use tax_return_ai.Security.FieldEncryption.{encrypt_text_covered}
use tax_return_ai.Ingestion.Stable.{
  IsStable, stable_rules, classify_document-Keeps, uuid4-Keeps, add_page-Keeps,
}

module _ {P : World → Type 0} {A : Type 0} where
  Keeps-caught :
      (handler : Exn → Service A)
      → ((e : Exn) → Keeps P (handler e))
      → (r : Result A) (v : World) → P v
      → P (catch (λ _. (r, v)) handler v).1
  Keeps-caught handler k (ok b) v h = h
  Keeps-caught handler k (err x) v h = (k x).kept v h

  catch-Keeps :
      (m : Service A) (handler : Exn → Service A)
      → Keeps P m
      → ((e : Exn) → Keeps P (handler e))
      → Keeps P (catch m handler)
  catch-Keeps m handler km k = record {
    kept = λ w h. Keeps-caught handler k (m w).0 (m w).1 (km.kept w h);
  }

module _ {P : World → Type 0} (stable : IsStable P) (c : Crypto) (u : TextCodec)
    (p : ClassificationFormat) (g : IngestionFormat) (o : OcrProviders)
    (providers : String → String → Providers) (s : Settings) (now : ℕ) (nonces : ℕ → ℕ)
    (processing_time_ms : ℕ) where
  store_pages-Keeps :
      (document_id : ℕ) (method : String) (key n : ℕ) (pages : List OcrPage)
      → Keeps P (
          store_pages c u p g o providers s now nonces processing_time_ms document_id method key n
            pages)
  unfolding store_pages page_of
  store_pages-Keeps document_id method key n [] = search stable_rules
  store_pages-Keeps document_id method key n (page ∷ pages) = >>=-Keeps (uuid4-Keeps stable) λ id.
      >>-Keeps
        (add_page-Keeps stable
          (page_of c u p g o providers s now nonces processing_time_ms id document_id n method key
            page)
          (
            refl,
            encrypt_text_covered c u (nonces n) key default_key_version (some (plain page.text)),
          ))
        (store_pages-Keeps document_id method key (suc n) pages)

  after_items-Keeps :
      (doc : Document) (job_id : ℕ) (items : List TaxItem)
      → Keeps P (after_items c u p g o providers s now nonces processing_time_ms doc job_id items)
  unfolding after_items
  after_items-Keeps doc job_id [] = search stable_rules depth 14
  after_items-Keeps doc job_id (i ∷ items) = search stable_rules depth 14

  classification_stopped-Keeps :
      (doc : Document) (job_id : ℕ) (e : Exn)
      → Keeps P
          (classification_stopped c u p g o providers s now nonces processing_time_ms doc job_id e)
  unfolding classification_stopped
  classification_stopped-Keeps doc job_id provider_not_configured = search stable_rules depth 14
  classification_stopped-Keeps doc job_id _ = search stable_rules depth 14

  run_classification-Keeps :
      (doc : Document) (job_id n : ℕ) (t : String)
      → Keeps P
          (run_classification c u p g o providers s now nonces processing_time_ms doc job_id n t)
  unfolding run_classification classify_text financial_year_of
  run_classification-Keeps doc job_id n t =
      search
        (
          stable_rules,
          catch-Keeps,
          classify_document-Keeps stable c u p now,
          after_items-Keeps doc job_id,
          classification_stopped-Keeps doc job_id,
        )
        depth 14

  store_text-Keeps :
      (doc : Document) (job_id : ℕ) (r : OcrResult) (key : Option ℕ)
      → Keeps P (store_text c u p g o providers s now nonces processing_time_ms doc job_id r key)
  unfolding store_text write_blocked without_text with_text
  store_text-Keeps doc job_id r none = search stable_rules depth 14
  store_text-Keeps doc job_id r (some key) =
      search (stable_rules, store_pages-Keeps doc.id, run_classification-Keeps doc job_id) depth 14

  process_checked-Keeps :
      (k : IngestionCall) (doc : Document) (duplicate : Option Document)
      → Keeps P
          (process_checked c u p g o providers s now nonces processing_time_ms k doc duplicate)
  unfolding process_checked run_ocr_pipeline
  process_checked-Keeps k doc none = search (stable_rules, store_text-Keeps doc k.job_id) depth 14
  process_checked-Keeps k doc (some d) = search stable_rules depth 14

  found_document-Keeps :
      (k : IngestionCall) (doc : Option Document)
      → Keeps P (found_document c u p g o providers s now nonces processing_time_ms k doc)
  unfolding found_document process_document check_hash_duplicate record_check
  found_document-Keeps k none = search stable_rules depth 14
  found_document-Keeps k (some doc) = search (stable_rules, process_checked-Keeps k doc) depth 14

  -- An ingestion keeps what its writes keep, whatever it answers or raises.
  pub process_upload-Keeps :
      (k : IngestionCall) (w : World)
      → P w
      → P (process_upload c u p g o providers s now nonces processing_time_ms k w).1
  unfolding process_upload
  process_upload-Keeps k =
      (>>=-Keeps
        (query-Keeps (λ w.
          scalar_one_or_none (select (λ (d : Document). d.id == k.document_id) w.db.documents)))
        (found_document-Keeps k)).kept
