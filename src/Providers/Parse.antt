-- ===== src/Providers/Parse.antt =====
-- `parse_json_response` of app/ai/providers/shared.py, for any decoder.
use tax_return_ai.Base.{
  ℕ, suc, ◌-◌, Bool, true, false, ◌&&◌, Option, none, some, [], ◌∷◌, ◌==◌, if◌then◌else◌, drop,
  length, map_some,
}
use tax_return_ai.Text.{Text, codes, strip}

abbrev pub starts_with : Text → Text → Bool
starts_with [] s = true
starts_with (c ∷ p) [] = false
starts_with (c ∷ p) (d ∷ s) = c == d && starts_with p s

-- The text after the first occurrence of a mark, and before it.
abbrev pub after_mark : Text → Text → Option Text
after_mark mark [] = none
after_mark mark (c ∷ s) =
    let rest = after_mark mark s in
    if starts_with mark (c ∷ s) then some (drop (length mark) (c ∷ s)) else rest

abbrev pub before_mark : Text → Text → Option Text
before_mark mark [] = none
before_mark mark (c ∷ s) =
    let rest = before_mark mark s in
    if starts_with mark (c ∷ s) then some [] else map_some (λ t. c ∷ t) rest

abbrev pub fence_mark : Text
fence_mark = codes "```"

abbrev pub drop_json : Text → Text
drop_json s = if starts_with (codes "json") s then drop 4 s else s

-- The group of the regular expression, which is stripped after it: no later match can succeed where
-- the first mark is not closed.
abbrev pub closed_fence : Option Text → Option Text
closed_fence none = none
closed_fence (some s) = before_mark fence_mark (drop_json s)

unfoldable pub fenced : Text → Option Text
fenced t = closed_fence (after_mark fence_mark t)

abbrev pub depth_after : ℕ → ℕ → ℕ
depth_after depth c = if c == b'{' then suc depth else if c == b'}' then depth - 1 else depth

-- The loop of the third strategy, from a depth: the text up to the brace that closes it.
unfoldable pub block_from : ℕ → Text → Option Text
block_from depth [] = none
block_from depth (c ∷ s) =
    let rest = map_some (λ t. c ∷ t) (block_from (depth_after depth c) s) in
    if c == b'}' && depth == 1 then some (c ∷ []) else rest

unfoldable pub first_block : Text → Option Text
unfolding block_from
first_block [] = none
first_block (c ∷ s) = let rest = first_block s in if c == b'{' then block_from 0 (c ∷ s) else rest

module _ {J : Type 0} (loads : Text → Option J) where
  abbrev pub loads_some : Option Text → Option J
  loads_some none = none
  loads_some (some t) = loads t

  -- The next strategy, if one has found nothing.
  abbrev pub or_next : Option J → Option J → Option J
  or_next none next = next
  or_next (some v) next = some v

  unfoldable pub parse_json_response : Text → Option J
  unfolding fenced first_block
  parse_json_response raw =
      let t = strip raw in
      or_next (loads t)
        (or_next (loads_some (map_some strip (fenced t))) (loads_some (first_block t)))
