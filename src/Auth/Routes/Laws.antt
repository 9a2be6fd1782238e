-- ===== src/Auth/Routes/Laws.antt =====
-- What a refused unlock leaves behind (app/routers/auth.py).
use tax_return_ai.Base.{ℕ, ◌≡◌, arith, false, ◌==◌, some, http, err}
use tax_return_ai.Config.{Settings}
use tax_return_ai.Models.Account.{User}
use tax_return_ai.Models.World.{World}
use tax_return_ai.Audit.{write_audit}
use tax_return_ai.Text.{Text}
use tax_return_ai.Auth.Crypto.{Crypto, hash_secret_for_kdf}
use tax_return_ai.Auth.Sessions.{Request, active_user}
use tax_return_ai.Auth.Account.{Entropy, verify_unlock}
use tax_return_ai.Auth.Routes.{transaction, failed, unlock_auth}

module _ (c : Crypto) (s : Settings) where
  -- If there is an active user and the password does not give the stored hash, the unlock route
  -- answers 401, and the database is as it was last committed and the key cache as it was: not
  -- even the attempt is recorded.
  pub unlock_auth-refused :
      (now : ℕ) (password : Text) (request : Request) (r : Entropy) (u : User) (w : World)
      → active_user w ≡ some u
      → (hash_secret_for_kdf c password u.password_salt u.password_kdf == u.password_hash) ≡ false
      → let (answer, w') = unlock_auth c s now password request r w in
        (answer ≡ err (http 401 "Invalid master password"))
        × (w'.db ≡ w.committed)
        × (w'.committed ≡ w.committed)
        × (w'.key_cache ≡ w.key_cache)
  unfolding unlock_auth transaction failed verify_unlock write_audit
  unlock_auth-refused now password request r u w e f =
      (ground (arith, e, f), ground (arith, e, f), ground (arith, e, f), ground (arith, e, f))
