-- ===== src/Auth/Crypto.antt =====
-- The cryptographic functions that app/services/auth/service.py calls in hashlib, argon2 and
-- cryptography, as an interface, and the service's own use of them: the key derivations and the
-- wrapping of the data key. Digests, keys, nonces and ciphertexts are byte strings that are only
-- handed on, so they are numbers.
use tax_return_ai.Base.{
  ℕ, ◌≡◌, ◌≢◌, arith, Bool, true, false, String, Option, none, some, ◌==◌, if◌then◌else◌, Result,
  ok, err, value_error, invalid_tag,
}
use tax_return_ai.Models.Account.{Kdf, argon2id, pbkdf2_sha256_600k, WrappedDek, wrap, other_text}
use tax_return_ai.Text.{Text}

pub record Crypto : Type 0 where
  -- the hex digest of a text, and its first 36 characters
  pub sha256_hex : ℕ → ℕ
  pub head36 : ℕ → ℕ
  -- `hash_secret_raw`: `none` where the import or the call raises
  pub argon2 : Text → ℕ → Option ℕ
  pub pbkdf2 : Text → ℕ → ℕ
  -- SHA-256 of a digest with the suffix `:dek-wrap:v1`, and with `:field-encryption:v1`
  pub wrap_digest : ℕ → ℕ
  pub field_digest : ℕ → ℕ
  -- AES-256-GCM: the arguments are the key, the nonce and the text
  pub encrypt : ℕ → ℕ → ℕ → ℕ
  pub decrypt : ℕ → ℕ → ℕ → Option ℕ

-- What the services rely on: digests do not collide and are never empty, and a ciphertext is
-- opened by the key and the nonce that sealed it.
pub record IsSound (c : Crypto) : Type 0 where
  pub sha256_inj : (a b : ℕ) → c.sha256_hex a ≡ c.sha256_hex b → a ≡ b
  pub sha256_ne_empty : (a : ℕ) → c.sha256_hex a ≢ 0
  pub decrypt-encrypt : (k n p : ℕ) → c.decrypt k n (c.encrypt k n p) ≡ some p

module _ (c : Crypto) where
  argon2_or_pbkdf2 : Text → ℕ → Option ℕ → Kdf × ℕ
  argon2_or_pbkdf2 secret salt (some digest) = (argon2id, digest)
  argon2_or_pbkdf2 secret salt none = (pbkdf2_sha256_600k, c.pbkdf2 secret salt)

  unfoldable pub hash_secret : Text → ℕ → Kdf × ℕ
  unfolding argon2_or_pbkdf2
  hash_secret secret salt = argon2_or_pbkdf2 secret salt (c.argon2 secret salt)

  unfoldable pub hash_secret_for_kdf : Text → ℕ → Kdf → ℕ
  unfolding argon2_or_pbkdf2
  hash_secret_for_kdf secret salt argon2id = (argon2_or_pbkdf2 secret salt (c.argon2 secret salt)).1
  hash_secret_for_kdf secret salt pbkdf2_sha256_600k = c.pbkdf2 secret salt

  -- The loop over the two names.
  unfoldable pub verify_hash_any_kdf : Text → ℕ → ℕ → Bool × Kdf
  unfolding hash_secret_for_kdf
  verify_hash_any_kdf secret salt expected_hash =
      if hash_secret_for_kdf secret salt argon2id == expected_hash
      then (true, argon2id)
      else if hash_secret_for_kdf secret salt pbkdf2_sha256_600k == expected_hash
      then (true, pbkdf2_sha256_600k)
      else (false, pbkdf2_sha256_600k)

  unfoldable pub derive_field_encryption_key : Text → ℕ → Kdf → ℕ
  unfolding hash_secret_for_kdf
  derive_field_encryption_key secret salt kdf = c.field_digest (hash_secret_for_kdf secret salt kdf)

  unfoldable pub derive_kek : Text → ℕ → Kdf → ℕ
  unfolding hash_secret_for_kdf
  derive_kek secret salt kdf = c.wrap_digest (hash_secret_for_kdf secret salt kdf)

  unfoldable pub wrap_dek : ℕ → ℕ → ℕ → String → WrappedDek
  wrap_dek nonce dek kek key_version = wrap (record {
    version = "dek_wrapped_v1";
    alg = "AES-256-GCM";
    nonce = nonce;
    ciphertext = c.encrypt kek nonce dek;
    key_version = key_version;
  })

  opened : Option ℕ → Result ℕ
  opened none = err invalid_tag
  opened (some dek) = ok dek

  unfoldable pub unwrap_dek : WrappedDek → ℕ → Result ℕ
  unfolding opened
  unwrap_dek other_text kek = err (value_error "Invalid wrapped DEK format")
  unwrap_dek (wrap p) kek = opened (c.decrypt kek p.nonce p.ciphertext)

  -- With sound cryptographic functions, a wrapped data key is opened by the key that wrapped it.
  pub unwrap_dek-wrap_dek :
      IsSound c
      → (nonce dek kek : ℕ) (v : String) → unwrap_dek (wrap_dek nonce dek kek v) kek ≡ ok dek
  unfolding unwrap_dek wrap_dek
  unwrap_dek-wrap_dek sound nonce dek kek v = rw (sound.decrypt-encrypt kek nonce dek, opened)

  -- The name that hash_secret returns makes hash_secret_for_kdf reproduce the digest that it
  -- returns, whether or not argon2 is available.
  pub hash_secret_for_kdf-hash_secret :
      (secret : Text) (salt : ℕ)
      → hash_secret_for_kdf secret salt (hash_secret secret salt).0 ≡ (hash_secret secret salt).1
  unfolding hash_secret hash_secret_for_kdf
  hash_secret_for_kdf-hash_secret secret salt = ground arith
