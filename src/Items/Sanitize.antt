-- ===== src/Items/Sanitize.antt =====
-- app/utils/sanitize.py: `re.sub(r"<[^>]*>", "", text)` on a text, and what it leaves.
use Prim.Native.Char.{code}
use tax_return_ai.Base.{
  ◌≡◌, refl, Bool, true, false, ◌||◌, ◌&&◌, String, ◌==◌, if◌then◌else◌, arith,
}

-- Whether a `>` is left.
abbrev pub has_close : String → Bool
has_close String.[] = false
has_close (String.◌∷◌ c s) = code c == b'>' || has_close s

-- The scan: in a tag it drops the text up to its `>`, and outside it a `<` that is closed
-- starts a tag. After a `<` that is not closed there can be no further tag.
unfoldable pub strip_from : Bool → String → String
strip_from inside String.[] = ""
strip_from inside (String.◌∷◌ c s) =
    let kept = strip_from false s in
    let dropped = strip_from true s in
    if inside
    then if code c == b'>' then kept else dropped
    else if code c == b'<' && has_close s
    then dropped
    else String.◌∷◌ c kept

unfoldable pub strip_html : String → String
unfolding strip_from
strip_html s = strip_from false s

-- Whether a `<` is followed by a `>`.
abbrev pub has_tag : String → Bool
has_tag String.[] = false
has_tag (String.◌∷◌ c s) = (code c == b'<' && has_close s) || has_tag s

has_close-strip_from :
    (inside : Bool) (s : String) → has_close s ≡ false → has_close (strip_from inside s) ≡ false
unfolding strip_from
has_close-strip_from inside String.[] e = refl
has_close-strip_from inside (String.◌∷◌ c s) e =
    ground (arith, e, has_close-strip_from false s, has_close-strip_from true s)

has_tag-strip_from : (inside : Bool) (s : String) → has_tag (strip_from inside s) ≡ false
unfolding strip_from
has_tag-strip_from inside String.[] = refl
has_tag-strip_from inside (String.◌∷◌ c s) =
    ground
      (arith, has_tag-strip_from false s, has_tag-strip_from true s, has_close-strip_from false s)

strip_from-no_tag : (s : String) → has_tag s ≡ false → strip_from false s ≡ s
unfolding strip_from
strip_from-no_tag String.[] e = refl
strip_from-no_tag (String.◌∷◌ c s) e = ground (arith, e, strip_from-no_tag s)

-- A text from which the tags have been stripped has no less-than sign before a greater-than sign,
-- stripping it again changes nothing, and a text without such a pair stays as it is.
strip_html-no_tag :
    (s : String)
    → (has_tag (strip_html s) ≡ false)
      × (strip_html (strip_html s) ≡ strip_html s)
      × (has_tag s ≡ false → strip_html s ≡ s)
unfolding strip_html
strip_html-no_tag s = (
  has_tag-strip_from false s,
  strip_from-no_tag (strip_from false s) (has_tag-strip_from false s),
  strip_from-no_tag s,
)
