-- ===== src/Text.antt =====
-- Passwords as lists of ASCII codes, with the methods of `str` that the validation uses.
use Prim.Native.Char.{code}
use Prim.Native.String.{String}
use tax_return_ai.Base.{
  ℕ, ◌+◌, ◌≡◌, refl, Bool, true, false, ◌&&◌, ◌||◌, List, [], ◌∷◌, leb, ◌==◌, if◌then◌else◌, map,
  arith,
}
use mathlib.Core.List.{reverse}

abbrev pub Text : Type 0
Text = List ℕ

abbrev pub codes : String → Text
codes String.[] = []
codes (String.◌∷◌ c s) = code c ∷ codes s

abbrev pub is_space : ℕ → Bool
is_space c = c == 32 || (leb 9 c && leb c 13) || (leb 28 c && leb c 31)

abbrev pub is_digit : ℕ → Bool
is_digit c = leb b'0' c && leb c b'9'

abbrev pub is_upper : ℕ → Bool
is_upper c = leb b'A' c && leb c b'Z'

abbrev pub is_alpha : ℕ → Bool
is_alpha c = is_upper c || (leb b'a' c && leb c b'z')

abbrev pub all : (ℕ → Bool) → Text → Bool
all p [] = true
all p (c ∷ s) = p c && all p s

-- `s.isdigit()` and `s.isalpha()`: false of the empty text
abbrev pub all_some : (ℕ → Bool) → Text → Bool
all_some p [] = false
all_some p (c ∷ s) = all p (c ∷ s)

abbrev pub lower : Text → Text
lower s = map (λ c. if is_upper c then c + 32 else c) s

-- `s.lstrip()` and `s.strip()`
abbrev pub lstrip : Text → Text
lstrip [] = []
lstrip (c ∷ s) = let rest = lstrip s in if is_space c then rest else c ∷ s

abbrev pub strip : Text → Text
strip s = reverse (lstrip (reverse (lstrip s)))

abbrev pub eq_text : Text → Text → Bool
eq_text [] [] = true
eq_text [] (d ∷ t) = false
eq_text (c ∷ s) [] = false
eq_text (c ∷ s) (d ∷ t) = c == d && eq_text s t

pub eq_text_sound : (a b : Text) → eq_text a b ≡ true → a ≡ b
eq_text_sound [] [] e = refl
eq_text_sound [] (d ∷ t) e = absurd (ground (arith, e))
eq_text_sound (c ∷ s) [] e = absurd (ground (arith, e))
eq_text_sound (c ∷ s) (d ∷ t) e = ground (arith, e, eq_text_sound s t)

pub eq_text_refl : (a : Text) → eq_text a a ≡ true
eq_text_refl [] = refl
eq_text_refl (c ∷ s) = ground (arith, eq_text_refl s)

strip_example : strip (codes " a b ") ≡ codes "a b"
strip_example = refl
