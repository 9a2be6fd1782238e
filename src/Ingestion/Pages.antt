-- ===== src/Ingestion/Pages.antt =====
-- The pages that app/services/ingestion/pipeline.py stores never hold a text in the clear.
use tax_return_ai.Base.{All, All-append, [], ◌∷◌, arith, String, ℕ}
use tax_return_ai.Models.World.{World}
use tax_return_ai.Ingestion.Stable.{IsHidden, IsStable}
use tax_return_ai.Audit.{write_audit}
use tax_return_ai.Auth.Crypto.{Crypto}
use tax_return_ai.Jobs.{update_status, get}
use tax_return_ai.Security.FieldEncryption.{TextCodec}
use tax_return_ai.Classification.{
  ClassificationFormat, get_session_field_key, key_of_user, Providers,
}
use tax_return_ai.Ingestion.{IngestionFormat, IngestionCall}
use tax_return_ai.Ingestion.Ocr.{OcrProviders}
use tax_return_ai.Config.{Settings}
use tax_return_ai.Ingestion.Steps.{process_upload}
use tax_return_ai.Ingestion.Kept.{process_upload-Keeps}

-- No page holds its text in the clear.
abbrev pub AllHidden : World → Type 0
AllHidden w = All IsHidden w.db.pages

AllHidden-IsStable : IsStable AllHidden
unfolding write_audit update_status get get_session_field_key key_of_user
AllHidden-IsStable = record {
  uuid4_kept = record { kept = λ w h. h };
  write_audit_kept = λ now entity_type entity_id action details. record { kept = λ w h. h };
  update_status_kept = λ now job_id status x. record { kept = λ w h. h };
  update_document_kept = λ document_id f. record { kept = λ w h. h };
  add_item_kept = λ i. record { kept = λ w h. h };
  add_link_kept = λ l. record { kept = λ w h. h };
  add_classification_kept = λ r. record { kept = λ w h. h };
  commit_kept = record { kept = λ w h. h };
  get_session_field_key_kept = λ now session_id. record { kept = λ w h. ground (arith, h) };
  add_page_kept = λ x e. record { kept = λ w h. All-append IsHidden w.db.pages (x ∷ []) h (e, tt) };
}

module _ (c : Crypto) (u : TextCodec) (p : ClassificationFormat) (g : IngestionFormat)
    (o : OcrProviders) (providers : String → String → Providers) (s : Settings) (now : ℕ)
    (nonces : ℕ → ℕ) (processing_time_ms : ℕ) where
  -- If no page of the database holds a text in the clear, this holds after an ingestion too,
  -- whatever it answers or raises: the column for the plain text is empty, and the sealed column
  -- holds an envelope, or a text that is empty or begins with the envelope prefix.
  pub process_upload-AllHidden :
      (k : IngestionCall) (w : World)
      → AllHidden w
      → AllHidden (process_upload c u p g o providers s now nonces processing_time_ms k w).1
  process_upload-AllHidden =
      process_upload-Keeps AllHidden-IsStable c u p g o providers s now nonces processing_time_ms
