-- ===== src/Review/EncryptedPack/Archive.antt =====
-- What is in an encrypted review pack of app/services/export/encrypted_pack.py.
use tax_return_ai.Base.{
  if◌then◌else◌, ◌+◌, sym, subst, ok, none, true, false, inl, inr, scalar_one_or_none, ℕ, ◌≡◌, refl,
  some, List, arith, String, select, ◌==◌, map, ◌++◌, ◌∷◌, [], Bool, ap, Option, ok, ◌∙◌,
}
use tax_return_ai.Models.Tax.{TaxItem, ExportPackageRow, Document}
use tax_return_ai.Auth.Crypto.{Crypto, IsSound}
use tax_return_ai.Text.{Text}
use tax_return_ai.Models.World.{World}
use tax_return_ai.Base.Dict.{lookup, insert, lookup-insert}
use tax_return_ai.Models.Leads.{Result-cases}
use tax_return_ai.Review.EncryptedPack.{
  pack_row, envelope_of, extracted_line, evidence_line, build_evidence_index_csv, PackEnvelope,
  PackContents, PackFormat, PackReport, Draws, derive_key, generate_encrypted_review_pack,
  report_of, filename_of, sealed_pack, final_contents, encrypt_bytes, World,
}

same_key : (k b : ℕ) (o : Option ℕ) → (if k == k then some b else o) ≡ some b
same_key k b o = ground arith

module _ (c : Crypto) (f : PackFormat) where
  -- A review pack as a row and a file: whoever has the password opens the file that the row names,
  -- and finds an entry and a line of evidence for each item of the session.
  pub record IsOpened (password : Text) (session_id : ℕ) (v w : World) (r : ExportPackageRow)
      : Type 0 where
    pub path : ℕ
    pub envelope : PackEnvelope
    pub ciphertext : ℕ
    pub contents : PackContents
    pub has_path : r.storage_path ≡ some path
    pub has_file : lookup path w.files ≡ some (f.file envelope ciphertext)
    pub has_digest : r.sha256 ≡ some (c.sha256_hex (f.file envelope ciphertext))
    pub opens :
        c.decrypt (derive_key c password envelope.salt).1 envelope.nonce ciphertext
        ≡ some (f.archive contents)
    pub has_items :
        contents.extracted
        ≡ map extracted_line (select (λ i. i.session_id == session_id) v.db.items)
    pub has_evidence :
        contents.evidence ≡ map evidence_line (select (λ i. i.session_id == session_id) v.db.items)
    pub is_listed : w.db.exports ≡ v.db.exports ++ r ∷ []

  pack_file-IsOpened :
      IsSound c
      → (now id workspace_id session_id : ℕ) (draws : Draws) (password : Text) (report : PackReport)
        (filename : String) (documents : List Document) (blocking : List String) (v w : World)
      → let items = select (λ (i : TaxItem). i.session_id == session_id) v.db.items in
        let pack = sealed_pack c f now draws password report items in
        let r =
          pack_row c f now id workspace_id session_id filename pack documents items blocking in
        w.files ≡ insert (f.path_in_exports filename) pack.0 v.files
        → w.db.exports ≡ v.db.exports ++ r ∷ []
        → IsOpened password session_id v w r
  unfolding sealed_pack encrypt_bytes final_contents build_evidence_index_csv
  pack_file-IsOpened sound now id workspace_id session_id draws password report filename documents
        blocking v w stored row =
      let items = select (λ (i : TaxItem). i.session_id == session_id) v.db.items in
      let contents = final_contents c f now draws password report items in
      let (kdf, key) = derive_key c password draws.salt₂ in
      let bytes = (sealed_pack c f now draws password report items).0 in
      let path = f.path_in_exports filename in
      record {
        path = path;
        envelope = envelope_of c kdf draws.salt₂ draws.nonce₂;
        ciphertext = c.encrypt key draws.nonce₂ (f.archive contents);
        contents = contents;
        has_path = refl;
        has_file =
            ap (lookup path) stored
            ∙ lookup-insert path path bytes v.files
            ∙ same_key path bytes (lookup path v.files);
        has_digest = refl;
        opens = sound.decrypt-encrypt _ _ _;
        has_items = refl;
        has_evidence = refl;
        is_listed = row;
      }

  -- With sound cryptographic functions, if a review pack is generated, its row is appended to the
  -- table and names a path; the file there has the digest of the row and is an envelope and a
  -- ciphertext, which the key of the password and of the salt of the envelope opens to an archive
  -- with an entry and a line of evidence for each item of the session.
  pub generate_encrypted_review_pack-IsOpened :
      IsSound c
      → (now : ℕ) (draws : Draws) (workspace_id session_id : ℕ) (password : Text) (include : Bool)
        (blocking : List String) (r : ExportPackageRow) (w : World)
      → let made =
          generate_encrypted_review_pack c f now draws workspace_id session_id password include
            blocking w in
        made.0 ≡ ok r → IsOpened password session_id w made.1 r
  unfolding generate_encrypted_review_pack
  generate_encrypted_review_pack-IsOpened sound now draws workspace_id session_id password true
        blocking r w e =
      absurd (ground (arith, e))
  generate_encrypted_review_pack-IsOpened sound now draws workspace_id session_id password false
        blocking r w e =
      elim (Result-cases
        (scalar_one_or_none (select (λ s. s.id == session_id) w.db.tax_sessions))) [
          | inr (x, g) ↦ absurd (ground (arith, e, g))
          | inl (none, g) ↦ absurd (ground (arith, e, g))
          | inl (some session, g) ↦
              let documents =
                select (λ (d : Document). d.session_id == session_id) w.db.documents in
              let items = select (λ (i : TaxItem). i.session_id == session_id) w.db.items in
              let report = report_of now workspace_id session documents items blocking in
              let pack = sealed_pack c f now draws password report items in
              let filename = filename_of c f draws.export_id in
              let row =
                pack_row c f now w.next_id workspace_id session_id filename pack documents items
                  blocking in
              let v : World = record w {
                db = record (w.db) { exports = w.db.exports ++ row ∷ [] };
                files = insert (f.path_in_exports filename) pack.0 w.files;
                next_id = w.next_id + 1;
              } in
              let step : generate_encrypted_review_pack c f now draws workspace_id session_id
                    password false blocking w
                  ≡ (ok row, v) =
                rw g refl in
              subst (λ z. IsOpened password session_id w z r) (sym (ap (λ z. z.1) step))
                (subst (IsOpened password session_id w v) {x = row} (ground (arith, step, e)) (
                  pack_file-IsOpened sound now w.next_id workspace_id session_id draws password
                    report filename documents blocking w v refl refl))
        ]
