-- ===== src/Workspaces/Pages/Exposed.antt =====
-- What the route on the pages of a document leaves in the table.
use tax_return_ai.Base.{
  ℕ, ◌≡◌, ◌≢◌, false, List, [], ◌∷◌, All, some, none, ok, err, arith, DistinctBy, by_key,
  by_key-update_key, inl, inr, ◌∙◌, refl, Option, subst, sym, ap, Bool, true,
}
use tax_return_ai.Models.Leads.{Result-cases}
use tax_return_ai.Models.Tax.{plain, sealed, DocumentPage, FieldText}
use tax_return_ai.Models.World.{World}
use tax_return_ai.Auth.Crypto.{Crypto}
use tax_return_ai.Security.FieldEncryption.{TextCodec, decrypt_text, is_encrypted}
use tax_return_ai.Workspaces.Pages.{
  page_key, with_page_text, write_text, text_of_page, decrypt_pages,
}

-- The table has the page.
abbrev pub IsStored : World → DocumentPage → Type 0
IsStored w p = by_key page_key p.id w.db.pages ≡ some p

IsStored-write_text :
    (k : ℕ) (t : Option FieldText) (w : World) (ps : List DocumentPage)
    → All (λ p. page_key p ≢ k) ps
    → All (IsStored w) ps
    → All (IsStored (write_text k t w)) ps
IsStored-write_text k t w [] other stored = tt
IsStored-write_text k t w (p ∷ ps) other stored = (
  ground (
    arith,
    stored.0,
    other.0,
    by_key-update_key page_key (with_page_text t) (λ x. refl) k p.id w.db.pages,
  ),
  IsStored-write_text k t w ps other.1 stored.1,
)

module _ (c : Crypto) (u : TextCodec) where
  decrypt_pages-others :
      (j : ℕ) (ps : List DocumentPage) (key : ℕ) (w : World)
      → All (λ p. page_key p ≢ j) ps
      → by_key page_key j ((decrypt_pages c u ps key w).1).db.pages ≡ by_key page_key j w.db.pages
  unfolding decrypt_pages
  decrypt_pages-others j [] key w other = refl
  decrypt_pages-others j (p ∷ ps) key w other = elim (Result-cases (text_of_page c u p key)) [
    | inl (t, e) ↦ ground (
      arith,
      e,
      other.0,
      by_key-update_key page_key (with_page_text t) (λ x. refl) p.id j w.db.pages,
      decrypt_pages-others j ps key (write_text p.id t w) other.1,
    )
    | inr (x, e) ↦ ground (arith, e)
  ]

  decrypt_pages-step :
      (p : DocumentPage) (ps : List DocumentPage) (t : Option FieldText) (key : ℕ) (w : World)
      → text_of_page c u p key ≡ ok t
      → decrypt_pages c u (p ∷ ps) key w ≡ (
        (elim (decrypt_pages c u ps key (write_text p.id t w)).0 [
          | ok rest ↦ ok (with_page_text t p ∷ rest)
          | err x ↦ err x
        ]),
        (decrypt_pages c u ps key (write_text p.id t w)).1,
      )
  unfolding decrypt_pages
  decrypt_pages-step p ps t key w e = ground (arith, e)

  pub decrypt_pages-IsStored :
      (ps qs : List DocumentPage) (key : ℕ) (w : World)
      → DistinctBy page_key ps
      → All (IsStored w) ps
      → (decrypt_pages c u ps key w).0 ≡ ok qs
      → All (IsStored (decrypt_pages c u ps key w).1) qs
  unfolding decrypt_pages
  decrypt_pages-IsStored [] qs key w distinct stored e =
      subst (All (IsStored w)) {x = []} (ground (arith, e)) tt
  decrypt_pages-IsStored (p ∷ ps) qs key w distinct stored e =
      elim (Result-cases (text_of_page c u p key)) [
        | inr (x, f) ↦ absurd (ground (arith, e, f))
        | inl (t, f) ↦
            let w' = write_text p.id t w in
            let step = decrypt_pages-step p ps t key w f in
            elim (Result-cases (decrypt_pages c u ps key w').0) [
              | inr (x, g) ↦ absurd (ground (arith, e, g, step))
              | inl (rest, g) ↦
                  let v = (decrypt_pages c u ps key w').1 in
                  let head : IsStored v (with_page_text t p) =
                    decrypt_pages-others p.id ps key w' distinct.0
                    ∙ ground (
                      arith,
                      stored.0,
                      by_key-update_key page_key (with_page_text t) (λ x. refl) p.id p.id
                          w.db.pages,
                    ) in
                  let tail =
                    decrypt_pages-IsStored ps rest key w' distinct.1
                      (IsStored-write_text p.id t w ps distinct.0 stored.1) g in
                  subst (λ z. All (IsStored z) qs) (sym (ap (λ z. z.1) step))
                    (subst (All (IsStored v)) {x = with_page_text t p ∷ rest}
                      (ground (arith, e, g, step)) (head, tail))
            ]
      ]

-- A text that is the envelope of another.
abbrev pub is_envelope : Option FieldText → Bool
is_envelope (some (sealed e)) = true
is_envelope _ = false

pub is_encrypted_envelope : (t : Option FieldText) → is_encrypted t ≡ false → is_envelope t ≡ false
unfolding is_encrypted
is_encrypted_envelope none e = refl
is_encrypted_envelope (some (plain s)) e = refl
is_encrypted_envelope (some (sealed x)) e = e

-- The text of the page is in the clear.
abbrev pub IsPlain : DocumentPage → Type 0
IsPlain p = is_envelope p.text ≡ false

module _ (c : Crypto) (u : TextCodec) where
  decrypt_text-plain :
      (field t : Option FieldText) (key : ℕ)
      → decrypt_text c u field key ≡ ok t
      → is_envelope t ≡ false
  unfolding decrypt_text
  decrypt_text-plain none t key e = ground (arith, e)
  decrypt_text-plain (some (plain s)) t key e = ground (arith, e)
  decrypt_text-plain (some (sealed x)) t key e = ground (arith, e)

  text_of_page-plain :
      (p : DocumentPage) (t : Option FieldText) (key : ℕ)
      → text_of_page c u p key ≡ ok t
      → is_envelope t ≡ false
  unfolding text_of_page
  text_of_page-plain p t key e = ground (
    arith,
    e,
    decrypt_text-plain p.text_enc t key,
    decrypt_text-plain p.text t key,
    is_encrypted_envelope p.text,
  )

  pub decrypt_pages-IsPlain :
      (ps qs : List DocumentPage) (key : ℕ) (w : World)
      → (decrypt_pages c u ps key w).0 ≡ ok qs
      → All IsPlain qs
  unfolding decrypt_pages
  decrypt_pages-IsPlain [] qs key w e = subst (All IsPlain) {x = []} (ground (arith, e)) tt
  decrypt_pages-IsPlain (p ∷ ps) qs key w e = elim (Result-cases (text_of_page c u p key)) [
    | inr (x, f) ↦ absurd (ground (arith, e, f))
    | inl (t, f) ↦
        let w' = write_text p.id t w in
        let step = decrypt_pages-step c u p ps t key w f in
        elim (Result-cases (decrypt_pages c u ps key w').0) [
          | inr (x, g) ↦ absurd (ground (arith, e, g, step))
          | inl (rest, g) ↦
              subst (All IsPlain) {x = with_page_text t p ∷ rest} (ground (arith, e, g, step))
                (text_of_page-plain p t key f, decrypt_pages-IsPlain ps rest key w' g)
        ]
  ]
