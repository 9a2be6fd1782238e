-- ===== src/Security/FieldEncryption.antt =====
-- app/services/security/field_encryption.py: the encryption of one text field. A text that begins
-- with the prefix of an envelope is taken for an encrypted one, as there.
use tax_return_ai.Base.{
  ◌||◌, ℕ, take, subst, ◌≡◌, refl, arith, String, Option, none, some, Bool, true, false, Result, ok,
  err, invalid_tag, if◌then◌else◌, Bool-cases, inl, inr,
}
use tax_return_ai.Models.Tax.{Envelope, FieldText, plain, sealed}
use tax_return_ai.Text.{codes, eq_text}
use tax_return_ai.Auth.Crypto.{Crypto, IsSound}

-- `str.encode("utf-8")` and `bytes.decode("utf-8")`; `load_envelope` is what `json.loads` and
-- `_b64d` make of a text with the prefix: the nonce and the ciphertext, or an exception.
pub record TextCodec : Type 0 where
  pub encode : String → ℕ
  pub decode : ℕ → String
  pub load_envelope : String → Result (ℕ × ℕ)

abbrev pub is_empty : String → Bool
is_empty String.[] = true
is_empty (String.◌∷◌ c s) = false

empty_eq : (s : String) → is_empty s ≡ true → plain "" ≡ plain s
empty_eq String.[] e = refl
empty_eq (String.◌∷◌ c s) e = absurd (ground (arith, e))

-- `value.startswith("enc::")`
unfoldable pub has_prefix : String → Bool
has_prefix s = eq_text (take 5 (codes s)) (codes "enc::")

empty_prefix : has_prefix "" ≡ false
unfolding has_prefix
empty_prefix = refl

unfoldable pub is_encrypted : Option FieldText → Bool
is_encrypted none = false
is_encrypted (some (plain s)) = has_prefix s
is_encrypted (some (sealed e)) = true

-- A field without a text in the clear: what is not absent or empty is an envelope, or begins as one.
abbrev pub is_covered : Option FieldText → Bool
is_covered none = true
is_covered (some (plain s)) = is_empty s || has_prefix s
is_covered (some (sealed e)) = true

module _ (c : Crypto) (u : TextCodec) where
  abbrev pub envelope_of : ℕ → ℕ → String → String → Envelope
  envelope_of nonce key key_version s = record {
    version = "v1";
    alg = "AES-256-GCM";
    nonce = nonce;
    ciphertext = c.encrypt key nonce (u.encode s);
    key_version = key_version;
  }

  -- The nonce is the one that `secrets.token_bytes(12)` draws.
  unfoldable pub encrypt_text : ℕ → Option FieldText → ℕ → String → Option FieldText
  encrypt_text nonce none key key_version = none
  encrypt_text nonce (some (sealed e)) key key_version = some (sealed e)
  encrypt_text nonce (some (plain s)) key key_version =
      if is_empty s
      then some (plain "")
      else if has_prefix s
      then some (plain s)
      else some (sealed (envelope_of nonce key key_version s))

  pub encrypt_text_covered :
      (nonce key : ℕ) (key_version : String) (field : Option FieldText)
      → is_covered (encrypt_text nonce field key key_version) ≡ true
  unfolding encrypt_text
  encrypt_text_covered nonce key key_version none = refl
  encrypt_text_covered nonce key key_version (some (plain s)) = ground arith
  encrypt_text_covered nonce key key_version (some (sealed e)) = refl

  decrypted : Option ℕ → Result (Option FieldText)
  decrypted none = err invalid_tag
  decrypted (some bytes) = ok (some (plain (u.decode bytes)))

  loaded : ℕ → Result (ℕ × ℕ) → Result (Option FieldText)
  loaded key (err e) = err e
  loaded key (ok (nonce, ciphertext)) = decrypted (c.decrypt key nonce ciphertext)

  unfoldable pub decrypt_text : Option FieldText → ℕ → Result (Option FieldText)
  unfolding decrypted loaded
  decrypt_text none key = ok none
  decrypt_text (some (plain s)) key =
      if has_prefix s then loaded key (u.load_envelope s) else ok (some (plain s))
  decrypt_text (some (sealed e)) key = decrypted (c.decrypt key e.nonce e.ciphertext)

  -- With sound cryptographic functions, a text that decoding gives back from its encoding, and
  -- that does not begin with the envelope prefix, is decrypted again by the key that encrypted it.
  pub decrypt_text-encrypt_text :
      IsSound c
      → (nonce key : ℕ) (key_version s : String) → u.decode (u.encode s) ≡ s
      → has_prefix s ≡ false
      → decrypt_text (encrypt_text nonce (some (plain s)) key key_version) key ≡ ok (some (plain s))
  unfolding decrypt_text encrypt_text decrypted
  decrypt_text-encrypt_text sound nonce key key_version s utf8 n = elim (Bool-cases (is_empty s)) [
    | inl e ↦
        subst (λ t. decrypt_text (encrypt_text nonce (some t) key key_version) key ≡ ok (some t))
          (empty_eq s e) (rw empty_prefix refl)
    | inr e ↦ rw (e, n) (rw (sound.decrypt-encrypt key nonce (u.encode s), utf8) refl)
  ]
