-- ===== src/Documents/Upload.antt =====
-- What an upload of app/routers/documents.py accepts, and what it leaves.
use tax_return_ai.Base.{
  if◌then◌else◌, ℕ, ◌+◌, ◌≡◌, ◌≤◌, ◌<◌, refl, Bool, true, false, not, Option, none, some, List, [],
  ◌∷◌, ◌++◌, ◌==◌, ltb, first, select, ok, err, http, arith, Bool-cases, inl, inr, ◌>>◌, raise_if,
  Result, update_where, ◌>>=◌, raise, modify, pure, ◌∙◌, ap,
}
use tax_return_ai.Config.{Settings}
use tax_return_ai.Models.Tax.{Document}
use tax_return_ai.Models.JobRow.{Job, queued}
use tax_return_ai.Models.World.{World, Service, commit}
use tax_return_ai.Audit.{write_audit}
use tax_return_ai.Jobs.{create, job_of}
use tax_return_ai.Jobs.Runner.{create_job, catch}
use tax_return_ai.Models.Leads.{Result-cases}
use tax_return_ai.Documents.{
  UploadFile, UploadCall, by_age, has_hash, is_recoverable, is_supported, max_size, check_duplicate,
  add_upload, check_file, upload_document, new_document, Service, replaced, catch, ingestion_job,
  commit,
}

-- The three tests of `check_file`, on any size, limit and type.
three_tests : ℕ → ℕ → Bool → Service (Unit {0})
three_tests size limit supported = do
  raise_if (size == 0) (http 400 "empty_file")
  raise_if (not supported) (http 415 "unsupported_file_type")
  raise_if (ltb limit size) (http 400 "file_too_large")

three_tests-pass :
    (size limit : ℕ) (b : Bool) (w : World)
    → 0 < size
    → b ≡ true
    → size ≤ limit
    → three_tests size limit b w ≡ (ok tt, w)
unfolding three_tests
three_tests-pass size limit b w h₁ h₂ h₃ = ground arith

three_tests_sound :
    (size limit : ℕ) (b : Bool) (w : World)
    → (three_tests size limit b w).0 ≡ ok tt
    → (0 < size) × (b ≡ true) × (size ≤ limit)
unfolding three_tests
three_tests_sound size limit b w e = (ground arith, ground arith, ground arith)

-- There is no copy, or its processing has failed.
abbrev pub is_free : Option Document → Bool
is_free none = true
is_free (some d) = is_recoverable d.status

abbrev pub marked : Option Document → List Document → List Document
marked none documents = documents
marked (some d) documents = update_where (λ (e : Document). e.id == d.id) replaced documents

module _ (sha256_hex : ℕ → ℕ) (s : Settings) where
  -- What the three tests ask of a file.
  abbrev pub IsUploadable : UploadFile → Type 0
  IsUploadable f = (0 < f.size) × (is_supported f ≡ true) × (f.size ≤ max_size s)

  -- The oldest document of the session with the contents of the file.
  abbrev pub oldest_copy : UploadCall → UploadFile → World → Option Document
  oldest_copy k f w =
      first (by_age (select (has_hash k.session_id (sha256_hex f.contents)) w.db.documents))

  check_file-pass :
      (f : UploadFile) (w : World) → IsUploadable f → check_file sha256_hex s f w ≡ (ok tt, w)
  unfolding check_file three_tests
  check_file-pass f w (h₁, h₂, h₃) =
      three_tests-pass f.size (max_size s) (is_supported f) w h₁ h₂ h₃

  check_file-IsUploadable :
      (f : UploadFile) (w : World) → (check_file sha256_hex s f w).0 ≡ ok tt → IsUploadable f
  unfolding check_file three_tests
  check_file-IsUploadable f w e = three_tests_sound f.size (max_size s) (is_supported f) w e

  -- X
  upload_document-duplicate :
      (now : ℕ) (k : UploadCall) (f : UploadFile) (w : World) (d : Document)
      → IsUploadable f
      → oldest_copy k f w ≡ some d
      → is_recoverable d.status ≡ false
      → upload_document sha256_hex s now k f w ≡ (err (http 409 "duplicate_file"), w)
  unfolding upload_document check_duplicate
  upload_document-duplicate now k f w d h e r = ground (arith, check_file-pass f w h, e, r)

  -- The document and the job of an upload in the tables of `v`, over those of `w`.
  abbrev pub IsReceived : ℕ → UploadCall → UploadFile → Document × Job → World → World → Type 0
  IsReceived now k f (d, job) w v =
      (d ≡ new_document now d.id k f (sha256_hex f.contents))
      × (v.db.documents ≡ marked (oldest_copy k f w) w.db.documents ++ d ∷ [])
      × (v.db.jobs ≡ w.db.jobs ++ job ∷ [])
      × (job.status ≡ queued)
      × (job.document_id ≡ some d.id)
      × (job.requires_encryption ≡ true)
      × (v.committed ≡ v.db)

  accepted : ℕ → UploadCall → UploadFile → World → Option Document → Result (Document × Job) × World
  accepted now k f w copy =
      ((check_duplicate sha256_hex s copy >> add_upload sha256_hex s now k f) >>= λ d.
      catch (create_job sha256_hex now k.capability_token (ingestion_job k d.id))
        (λ e. raise (http 503 "temporary_processing_failure"))
      >>= λ job. modify commit >> pure (d, job))
        w

  upload_document-accepted :
      (now : ℕ) (k : UploadCall) (f : UploadFile) (w : World)
      → IsUploadable f
      → upload_document sha256_hex s now k f w ≡ accepted now k f w (oldest_copy k f w)
  unfolding upload_document accepted
  upload_document-accepted now k f w h = ground (arith, check_file-pass f w h)

  -- The document and the job that an upload makes: the row of the audit takes the id between.
  abbrev made : ℕ → UploadCall → UploadFile → World → Document × Job
  made now k f w = (
    new_document now w.next_id k f (sha256_hex f.contents),
    job_of now (w.next_id + 1 + 1) (record (ingestion_job k w.next_id) {
      capability_token_hash =
          if k.capability_token == 0 then none else some (sha256_hex k.capability_token);
    }),
  )

  accepted-received :
      (now : ℕ) (k : UploadCall) (f : UploadFile) (w : World) (copy : Option Document)
      → is_free copy ≡ true
      → let v = (accepted now k f w copy).1 in
        ((accepted now k f w copy).0 ≡ ok (made now k f w))
        × (v.db.documents ≡ marked copy w.db.documents ++ (made now k f w).0 ∷ [])
        × (v.db.jobs ≡ w.db.jobs ++ (made now k f w).1 ∷ [])
        × (v.committed ≡ v.db)
  unfolding accepted check_duplicate add_upload create_job create write_audit
  accepted-received now k f w none t = (refl, refl, refl, refl)
  accepted-received now k f w (some d) t = rw t (refl, refl, refl, refl)

  received :
      (now : ℕ) (k : UploadCall) (f : UploadFile) (w : World)
      → IsUploadable f
      → is_free (oldest_copy k f w) ≡ true
      → (r : Document × Job) × (v : World) × (upload_document sha256_hex s now k f w ≡ (ok r, v))
        × IsReceived now k f r w v
  received now k f w h t =
      let (e, documents, jobs, committed) = accepted-received now k f w (oldest_copy k f w) t in
      (
        made now k f w,
        (accepted now k f w (oldest_copy k f w)).1,
        upload_document-accepted now k f w h
            ∙ ap (λ x. (x, (accepted now k f w (oldest_copy k f w)).1)) e,
        (refl, documents, jobs, refl, refl, refl, committed),
      )

  checked_first :
      (now : ℕ) (k : UploadCall) (f : UploadFile) (w : World) (r : Document × Job)
      → (upload_document sha256_hex s now k f w).0 ≡ ok r
      → IsUploadable f
  unfolding upload_document
  checked_first now k f w r e = elim (Result-cases (check_file sha256_hex s f w).0) [
    | inl (u, h) ↦ check_file-IsUploadable f w h
    | inr (y, h) ↦ absurd (ground (arith, h, e))
  ]

  free_of :
      (now : ℕ) (k : UploadCall) (f : UploadFile) (w : World) (r : Document × Job)
      (copy : Option Document)
      → IsUploadable f
      → oldest_copy k f w ≡ copy
      → (upload_document sha256_hex s now k f w).0 ≡ ok r
      → is_free copy ≡ true
  free_of now k f w r none h c e = refl
  free_of now k f w r (some d) h c e = elim (Bool-cases (is_recoverable d.status)) [
    | inl t ↦ t
    | inr t ↦
        absurd (ground (arith, e, ap (λ x. x.0) (upload_document-duplicate now k f w d h c t)))
  ]

  -- An upload is answered exactly when the file is not empty, of a supported type and not too
  -- large, and the oldest document of the session with the same digest, if there is one, has
  -- failed or was not classified. Then the document stands at the end of its table as it was
  -- sent, the queued job for it at the end of the table of jobs, only the old copy is changed,
  -- and everything is committed.
  pub upload_document-IsReceived :
      (now : ℕ) (k : UploadCall) (f : UploadFile) (w : World)
      → ((r : Document × Job)
          → (upload_document sha256_hex s now k f w).0 ≡ ok r
          → IsUploadable f × (is_free (oldest_copy k f w) ≡ true))
        × (IsUploadable f × (is_free (oldest_copy k f w) ≡ true)
            → (r : Document × Job) × (v : World) × (upload_document sha256_hex s now k f w
                ≡ (ok r, v))
              × IsReceived now k f r w v)
  upload_document-IsReceived now k f w = (
    λ r e.
        let h = checked_first now k f w r e in
        (h, free_of now k f w r (oldest_copy k f w) h refl e),
    λ (h, t). received now k f w h t,
  )
