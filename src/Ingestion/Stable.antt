-- ===== src/Ingestion/Stable.antt =====
-- The writes of app/services/ingestion/pipeline.py, and what keeps a predicate of the world under
-- all of them.
use tax_return_ai.Base.{
  ℕ, ◌≡◌, refl, true, false, List, [], ◌∷◌, ◌++◌, All, arith, Keeps, >>-Keeps, >>=-Keeps,
  keeps_rules, modify, Option, none, some, Exn, provider_not_configured, ok, err, String, inl, inr,
}
use tax_return_ai.Models.Tax.{Document, DocumentPage, TaxItem, ClassificationRow, DocumentItem}
use tax_return_ai.Audit.{write_audit}
use tax_return_ai.Jobs.{update_status, Extra}
use tax_return_ai.Ingestion.{add_page}
use tax_return_ai.Workspaces.Items.{add_item, add_link}
use tax_return_ai.Workspaces.Manual.{update_document}
use tax_return_ai.Classification.{
  get_session_field_key, add_classification, ClassificationFormat, Providers, ClassificationCall,
  ClassificationResult, Provider, call_provider,
}
use tax_return_ai.Models.Audit.{Details}
use tax_return_ai.Models.JobRow.{JobStatus}
use tax_return_ai.Auth.Crypto.{Crypto}
use tax_return_ai.Security.FieldEncryption.{TextCodec, is_covered}
use tax_return_ai.Classification.Classify.{
  record_results, create_items, record_failure, classify_with, classify_document,
}
use tax_return_ai.Config.{Settings}
use tax_return_ai.Models.World.{World, commit, uuid4}

-- A page that does not hold its text in the clear, in neither of its two columns.
abbrev pub IsHidden : DocumentPage → Type 0
IsHidden p = (p.text ≡ none) × (is_covered p.text_enc ≡ true)

-- What no write of the pipeline breaks.
pub record IsStable (P : World → Type 0) : Type 0 where
  pub uuid4_kept : Keeps P uuid4
  pub write_audit_kept :
      (now : ℕ) (entity_type : String) (entity_id : ℕ) (action : String) (details : Details)
      → Keeps P (write_audit now entity_type entity_id action details)
  pub update_status_kept :
      (now job_id : ℕ) (status : JobStatus) (x : Extra)
      → Keeps P (update_status now job_id status x)
  pub update_document_kept :
      (document_id : ℕ) (f : Document → Document) → Keeps P (modify (update_document document_id f))
  pub add_item_kept : (i : TaxItem) → Keeps P (modify (add_item i))
  pub add_link_kept : (l : DocumentItem) → Keeps P (modify (add_link l))
  pub add_classification_kept : (r : ClassificationRow) → Keeps P (modify (add_classification r))
  pub commit_kept : Keeps P (modify commit)
  pub get_session_field_key_kept :
      (now session_id : ℕ) → Keeps P (get_session_field_key now session_id)
  pub add_page_kept : (x : DocumentPage) (h : IsHidden x) → Keeps P (modify (add_page x))

module _ {P : World → Type 0} where
  pub uuid4-Keeps : IsStable P → Keeps P uuid4
  uuid4-Keeps stable = stable.uuid4_kept

  pub write_audit-Keeps :
      IsStable P
      → (now : ℕ) (entity_type : String) (entity_id : ℕ) (action : String) (details : Details)
      → Keeps P (write_audit now entity_type entity_id action details)
  write_audit-Keeps stable now entity_type entity_id action details =
      stable.write_audit_kept now entity_type entity_id action details

  pub update_status-Keeps :
      IsStable P
      → (now job_id : ℕ) (status : JobStatus) (x : Extra)
      → Keeps P (update_status now job_id status x)
  update_status-Keeps stable now job_id status x = stable.update_status_kept now job_id status x

  pub update_document-Keeps :
      IsStable P
      → (document_id : ℕ) (f : Document → Document)
      → Keeps P (modify (update_document document_id f))
  update_document-Keeps stable document_id f = stable.update_document_kept document_id f

  pub add_item-Keeps : IsStable P → (i : TaxItem) → Keeps P (modify (add_item i))
  add_item-Keeps stable i = stable.add_item_kept i

  pub add_link-Keeps : IsStable P → (l : DocumentItem) → Keeps P (modify (add_link l))
  add_link-Keeps stable l = stable.add_link_kept l

  pub add_classification-Keeps :
      IsStable P → (r : ClassificationRow) → Keeps P (modify (add_classification r))
  add_classification-Keeps stable r = stable.add_classification_kept r

  pub commit-Keeps : IsStable P → Keeps P (modify commit)
  commit-Keeps stable = stable.commit_kept

  pub get_session_field_key-Keeps :
      IsStable P → (now session_id : ℕ) → Keeps P (get_session_field_key now session_id)
  get_session_field_key-Keeps stable now session_id =
      stable.get_session_field_key_kept now session_id

  pub add_page-Keeps :
      IsStable P → (x : DocumentPage) (h : IsHidden x) → Keeps P (modify (add_page x))
  add_page-Keeps stable x h = stable.add_page_kept x h

pub ruleset stable_rules = (
  keeps_rules, uuid4-Keeps, write_audit-Keeps, update_status-Keeps, update_document-Keeps,
  add_item-Keeps, add_link-Keeps, add_classification-Keeps, commit-Keeps,
  get_session_field_key-Keeps, add_page-Keeps,
)

module _ {P : World → Type 0} (stable : IsStable P) (c : Crypto) (u : TextCodec)
    (p : ClassificationFormat) (now : ℕ) (nonces : ℕ → ℕ) where
  create_items-Keeps :
      (k : ClassificationCall) (key n : ℕ) (results : List ClassificationResult)
      → Keeps P (create_items c u p now nonces k key n results)
  unfolding create_items
  create_items-Keeps k key n [] = search stable_rules
  create_items-Keeps k key n (r ∷ results) =
      search (stable_rules, λ (m : ℕ). create_items-Keeps k key m results) depth 14

  record_results-Keeps :
      (k : ClassificationCall) (name : String) (key : ℕ) (answered : List ClassificationResult)
      → Keeps P (record_results c u p now nonces k name key answered)
  unfolding record_results
  record_results-Keeps k name key answered = search (stable_rules, create_items-Keeps k) depth 14

  record_failure-Keeps :
      (k : ClassificationCall) (name : String) (key : ℕ) (e : Exn)
      → Keeps P (record_failure c u p now nonces k name key e)
  unfolding record_failure
  record_failure-Keeps k name key provider_not_configured = search stable_rules depth 14
  record_failure-Keeps k name key _ = search stable_rules depth 14

  classify_with-Keeps :
      (k : ClassificationCall) (provider : Provider) (key : Option ℕ)
      → Keeps P (classify_with c u p now nonces k provider key)
  unfolding classify_with
  classify_with-Keeps k provider none = search stable_rules depth 14
  classify_with-Keeps k provider (some key) =
      elim (call_provider provider.classify)
        as (λ r. Keeps P {A = List TaxItem} (elim r [
          | ok results ↦ record_results c u p now nonces k provider.name key results
          | err e ↦ record_failure c u p now nonces k provider.name key e
        ])) [
          | ok rs ↦ record_results-Keeps k provider.name key rs
          | err e ↦ record_failure-Keeps k provider.name key e
        ]

  pub classify_document-Keeps :
      (providers : Providers) (s : Settings) (k : ClassificationCall)
      → Keeps P (classify_document c u p now nonces providers s k)
  unfolding classify_document
  classify_document-Keeps providers s k = search (stable_rules, classify_with-Keeps k) depth 14
