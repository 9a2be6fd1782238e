-- ===== src/Auth/Password.antt =====
-- app/services/auth/service.py: `validate_master_password` and `generate_recovery_key`, and
-- `validate_export_password` of app/services/export/encrypted_pack.py.
use tax_return_ai.Base.{
  ◌≤◌, ◌≡◌, ◌↔◌, Bool, false, String, Option, none, some, List, [], ◌∷◌, ltb, ◌==◌, if◌then◌else◌,
  map, length, any, arith,
}
use tax_return_ai.Text.{Text, codes, is_digit, is_alpha, all_some, lower, strip, eq_text}

abbrev pub common_weak_passwords : List Text
common_weak_passwords = map codes (
    "password" ∷ "password123" ∷ "123456789012" ∷ "1234567890" ∷ "qwerty123" ∷ "letmein123"
    ∷ "admin123456" ∷ "welcome123" ∷ "changeme123" ∷ [])

abbrev pub is_in : List Text → Text → Bool
is_in l s = any (eq_text s) l

-- The checks on the stripped password.
check_normalized : Text → Option String
check_normalized s =
    if ltb (length s) 12
    then some "Master password must be at least 12 characters."
    else if all_some is_digit s
    then some "Master password cannot be numbers only."
    else if all_some is_alpha s
    then some "Master password cannot be letters only."
    else if is_in common_weak_passwords (lower s)
    then some "Master password is too common. Choose a stronger password."
    else none

unfoldable pub validate_master_password : Text → Option String
unfolding check_normalized
validate_master_password password = check_normalized (strip password)

abbrev pub weak_passwords : List Text
weak_passwords =
    map codes ("password" ∷ "password123" ∷ "123456789012" ∷ "qwerty123456" ∷ "letmein123456" ∷ [])

-- `None` as the password is `none`.
unfoldable pub validate_export_password : Option Text → Option String
validate_export_password none = some "Export password is required."
validate_export_password (some password) =
    if length (strip password) == 0
    then some "Export password cannot be empty."
    else if ltb (length password) 12
    then some "Export password must be at least 12 characters."
    else if is_in weak_passwords (lower password)
    then some "Export password is too common. Choose a stronger password."
    else none

-- A master password is accepted exactly when it has twelve characters or more after stripping,
-- and is then neither all digits nor all letters nor, in lower case, on the list of common
-- passwords.
pub validate_master_password_iff :
    (p : Text)
    → (validate_master_password p ≡ none) ↔ (
        (12 ≤ length (strip p))
        × (all_some is_digit (strip p) ≡ false)
        × (all_some is_alpha (strip p) ≡ false)
        × (is_in common_weak_passwords (lower (strip p)) ≡ false))
unfolding validate_master_password
validate_master_password_iff p = ground arith
