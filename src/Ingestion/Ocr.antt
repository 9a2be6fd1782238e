-- ===== src/Ingestion/Ocr.antt =====
-- app/ocr/dispatch.py: which provider extracts the text of a file. The providers, the decoding of
-- bytes and the lowering of a media type are arguments.
use tax_return_ai.Base.{ℕ, String, ◌<>◌, some, List, [], ◌∷◌, if◌then◌else◌, Result, ok, err}
use tax_return_ai.Documents.{is_among, normalized_content_type}
use tax_return_ai.Ingestion.{OcrResult, full_text, is_blank}

abbrev pub pdf_mimes : List String
pdf_mimes = "application/pdf" ∷ []

abbrev pub image_mimes : List String
image_mimes =
    "image/png" ∷ "image/jpeg" ∷ "image/jpg" ∷ "image/tiff" ∷ "image/webp" ∷ "image/bmp" ∷ []

abbrev pub pass_through_mimes : List String
pass_through_mimes =
    "text/plain" ∷ "text/csv" ∷ "text/html" ∷ "application/json" ∷ "application/xml"
    ∷ "application/octet-stream" ∷ []

-- `extract` of a provider: the bytes and the media type.
pub record OcrProviders : Type 0 where
  pub pdfplumber : ℕ → String → Result OcrResult
  pub tesseract : ℕ → String → Result OcrResult
  pub decode : ℕ → String

abbrev pub page_result : String → ℕ → String → OcrResult
page_result t confidence method = record {
  pages = record { page_number = 1; text = t; confidence = some confidence } ∷ [];
  method = method;
}

-- What tesseract finds, if it finds a text.
abbrev pub or_found : (OcrResult → OcrResult) → OcrResult → Result OcrResult → Result OcrResult
or_found change otherwise (err e) = err e
or_found change otherwise (ok r) = if is_blank (full_text r) then ok otherwise else ok (change r)

abbrev pub as_fallback : OcrResult → OcrResult
as_fallback r = record { pages = r.pages; method = "pdfplumber_fallback_tesseract" }

abbrev pub or_fallback : Result OcrResult → Result OcrResult → Result OcrResult
or_fallback (err e) fallback = err e
or_fallback (ok r) fallback =
    if is_blank (full_text r) then or_found as_fallback r fallback else ok r

module _ (o : OcrProviders) where
  unfoldable pub extract_text : ℕ → String → Result OcrResult
  unfolding normalized_content_type
  extract_text bytes mime_type =
      let mime = normalized_content_type mime_type in
      if is_among pass_through_mimes mime
      then ok (page_result (o.decode bytes) 10000 "identity")
      else if is_among pdf_mimes mime
      then or_fallback (o.pdfplumber bytes mime_type) (o.tesseract bytes mime_type)
      else if is_among image_mimes mime
      then o.tesseract bytes mime_type
      else or_found (λ r. r) (page_result "" 0 ("unsupported_type:" <> mime_type))
          (o.tesseract bytes mime_type)
