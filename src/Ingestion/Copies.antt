-- ===== src/Ingestion/Copies.antt =====
-- What app/services/ingestion/pipeline.py does with a file that another document of the session has.
use tax_return_ai.Base.{
  ℕ, ◌≡◌, refl, Keeps, >>-Keeps, keeps_rules, >>=-at, first, select, modify, Option, none, some,
  sym, subst, String, ◌>>◌, pure, ◌>>=◌, query, scalar_one_or_none, ◌==◌, pure-Keeps,
}
use tax_return_ai.Models.Tax.{Document}
use tax_return_ai.Audit.{write_audit}
use tax_return_ai.Workspaces.Manual.{update_document}
use tax_return_ai.Jobs.{update_status, get, Extra}
use tax_return_ai.Auth.Crypto.{Crypto}
use tax_return_ai.Security.FieldEncryption.{TextCodec}
use tax_return_ai.Models.JobRow.{JobStatus, running}
use tax_return_ai.Classification.{ClassificationFormat, Providers}
use tax_return_ai.Models.Audit.{Details}
use tax_return_ai.Ingestion.{
  IngestionFormat, IngestionCall, check_hash_duplicate, Service, progress_at, id_of, started,
  is_copy,
}
use tax_return_ai.Ingestion.Ocr.{OcrProviders}
use tax_return_ai.Config.{Settings}
use tax_return_ai.Ingestion.Steps.{
  record_check, process_document, process_checked, process_upload, found_document,
}
use tax_return_ai.Models.World.{World, commit, Service}

-- The tables of what a pipeline extracts are those of `w`.
abbrev pub HasSameRows : World → World → Type 0
HasSameRows w v =
    (v.db.pages ≡ w.db.pages)
    × (v.db.items ≡ w.db.items)
    × (v.db.links ≡ w.db.links)
    × (v.db.classifications ≡ w.db.classifications)

module _ (w : World) where
  write_audit-HasSameRows :
      (now : ℕ) (entity_type : String) (entity_id : ℕ) (action : String) (details : Details)
      → Keeps (HasSameRows w) (write_audit now entity_type entity_id action details)
  unfolding write_audit
  write_audit-HasSameRows now entity_type entity_id action details = record { kept = λ v h. h }

  update_status-HasSameRows :
      (now job_id : ℕ) (status : JobStatus) (x : Extra)
      → Keeps (HasSameRows w) (update_status now job_id status x)
  unfolding update_status get
  update_status-HasSameRows now job_id status x = record { kept = λ v h. h }

  update_document-HasSameRows :
      (document_id : ℕ) (f : Document → Document)
      → Keeps (HasSameRows w) (modify (update_document document_id f))
  update_document-HasSameRows document_id f = record { kept = λ v h. h }

  commit-HasSameRows : Keeps (HasSameRows w) (modify commit)
  commit-HasSameRows = record { kept = λ v h. h }

module _ (c : Crypto) (u : TextCodec) (p : ClassificationFormat) (g : IngestionFormat)
    (o : OcrProviders) (providers : String → String → Providers) (s : Settings) (now : ℕ)
    (nonces : ℕ → ℕ) (processing_time_ms : ℕ) where
  -- What follows the check, as `process_document` has it.
  after_check : IngestionCall → Document → Option Document → Service (Option ℕ)
  after_check k doc duplicate = do
    record_check c u p g o providers s now nonces processing_time_ms k doc
        (g.sha256_bytes k.file_data) duplicate
    update_status now k.job_id running (progress_at 20 "Hash check complete")
    process_checked c u p g o providers s now nonces processing_time_ms k doc duplicate
    modify commit
    pure (id_of duplicate)

  record_check-HasSameRows :
      (w : World) (k : IngestionCall) (doc : Document) (file_hash : ℕ) (d : Option Document)
      → Keeps
          (HasSameRows w)
          (record_check c u p g o providers s now nonces processing_time_ms k doc file_hash d)
  unfolding record_check
  record_check-HasSameRows w k doc file_hash d =
      search (keeps_rules, write_audit-HasSameRows w, update_document-HasSameRows w)

  process_checked-HasSameRows :
      (w : World) (k : IngestionCall) (doc d : Document)
      → Keeps
          (HasSameRows w)
          (process_checked c u p g o providers s now nonces processing_time_ms k doc (some d))
  unfolding process_checked
  process_checked-HasSameRows w k doc d = search (keeps_rules, update_status-HasSameRows w)

  after_check-HasSameRows :
      (w : World) (k : IngestionCall) (doc d : Document)
      → Keeps (HasSameRows w) (after_check k doc (some d))
  unfolding after_check
  after_check-HasSameRows w k doc d = >>-Keeps (record_check-HasSameRows w k doc _ (some d)) (
      >>-Keeps (update_status-HasSameRows w now k.job_id running _) (
        >>-Keeps (process_checked-HasSameRows w k doc d)
          (>>-Keeps (commit-HasSameRows w) (pure-Keeps _))))

  -- Another document of the session with the contents of the file.
  abbrev pub copy_of : IngestionCall → World → Option Document
  copy_of k w =
      first
        (select (is_copy k.session_id (g.sha256_bytes k.file_data) k.document_id) w.db.documents)

  process_document-HasSameRows :
      (k : IngestionCall) (doc d : Document) (w : World)
      → copy_of k w ≡ some d
      → HasSameRows w
          (process_document c u p g o providers s now nonces processing_time_ms k doc w).1
  unfolding process_document after_check check_hash_duplicate update_status get
  process_document-HasSameRows k doc d w e =
      let v = (update_status now k.job_id running started w).1 in
      let same : HasSameRows w v = (refl, refl, refl, refl) in
      >>=-at (HasSameRows w) (update_status now k.job_id running started)
        (λ _.
          check_hash_duplicate k.session_id (g.sha256_bytes k.file_data) k.document_id
          >>= after_check k doc)
        w
        (λ _.
          subst (λ x. HasSameRows w (after_check k doc x v).1) (sym e)
            ((after_check-HasSameRows w k doc d).kept v same))
        same

  found-HasSameRows :
      (k : IngestionCall) (doc : Option Document) (d : Document) (w : World)
      → copy_of k w ≡ some d
      → HasSameRows w (found_document c u p g o providers s now nonces processing_time_ms k doc w).1
  unfolding found_document
  found-HasSameRows k none d w e = (refl, refl, refl, refl)
  found-HasSameRows k (some doc) d w e = process_document-HasSameRows k doc d w e

  -- If another document of the session has the contents of the file, in any status, an ingestion
  -- adds no page, item, link or classification, whatever it answers or raises.
  pub process_upload-HasSameRows :
      (k : IngestionCall) (d : Document) (w : World)
      → copy_of k w ≡ some d
      → HasSameRows w (process_upload c u p g o providers s now nonces processing_time_ms k w).1
  unfolding process_upload
  process_upload-HasSameRows k d w e =
      >>=-at (HasSameRows w)
        (query (λ v.
          scalar_one_or_none (select (λ (x : Document). x.id == k.document_id) v.db.documents)))
        (found_document c u p g o providers s now nonces processing_time_ms k) w
        (λ doc. found-HasSameRows k doc d w e) (refl, refl, refl, refl)
