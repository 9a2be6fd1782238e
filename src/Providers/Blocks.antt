-- ===== src/Providers/Blocks.antt =====
-- What the third strategy of `parse_json_response` cuts out of an answer.
use tax_return_ai.Base.{
  ℕ, zero, suc, ◌+◌, ◌≡◌, ◌<◌, refl, true, false, some, [], ◌∷◌, ◌++◌, ◌==◌, arith, count, take,
  length, Bool-cases, Option-cases, inl, inr, ap, ◌↔◌, ◌&&◌, subst, ◌∙◌, sym,
}
use tax_return_ai.Text.{Text}
use tax_return_ai.Providers.Parse.{block_from, depth_after, first_block}

abbrev pub opens : Text → ℕ
opens t = count (λ c. c == b'{') t

abbrev pub closes : Text → ℕ
closes t = count (λ c. c == b'}') t

-- From a depth, a text closes all that is open at its end, and not before.
abbrev pub IsClosed : ℕ → Text → Type 0
IsClosed depth b =
    (depth + opens b ≡ closes b)
    × ((n : ℕ) → n < length b → closes (take n b) < depth + opens (take n b))

-- What stands before the end of a text, after one more character.
open_before :
    (depth c : ℕ) (b : Text) (n : ℕ)
    → 0 < depth
    → (c == b'}' && depth == 1) ≡ false
    → ((m : ℕ) → m < length b → closes (take m b) < depth_after depth c + opens (take m b))
    → n < length (c ∷ b)
    → closes (take n (c ∷ b)) < depth + opens (take n (c ∷ b))
open_before depth c b zero h e before small = ground arith
open_before depth c b (suc m) h e before small = ground (arith, before m)

open_first :
    (depth c n : ℕ) → 0 < depth → n < 1 → closes (take n (c ∷ [])) < depth + opens (take n (c ∷ []))
open_first depth c zero h small = ground arith
open_first depth c (suc m) h small = absurd (ground (arith, small))

IsClosed-cons :
    (depth c : ℕ) (b : Text)
    → 0 < depth
    → (c == b'}' && depth == 1) ≡ false
    → IsClosed (depth_after depth c) b
    → IsClosed depth (c ∷ b)
IsClosed-cons depth c b h e (same, before) =
    (ground (arith, same), λ n small. open_before depth c b n h e before small)

IsClosed-tail :
    (depth c : ℕ) (b : Text)
    → 0 < depth
    → (c == b'}' && depth == 1) ≡ false
    → IsClosed depth (c ∷ b)
    → IsClosed (depth_after depth c) b
IsClosed-tail depth c b h e (same, before) =
    (ground (arith, same), λ n small. ground (arith, before (suc n)))

IsClosed-here :
    (depth c : ℕ) (t b : Text)
    → (c == b'}' && depth == 1) ≡ true
    → c ∷ [] ≡ b
    → ((post : Text) × (c ∷ t ≡ b ++ post)) × IsClosed depth b
IsClosed-here depth c t b q e =
    subst (λ x. ((post : Text) × (c ∷ t ≡ x ++ post)) × IsClosed depth x) e
      ((t, refl), (ground (arith, q), λ n small. open_first depth c n (ground (arith, q)) small))

IsClosed-more :
    (depth c : ℕ) (t b b' post : Text)
    → c ∷ b' ≡ b
    → t ≡ b' ++ post
    → IsClosed depth (c ∷ b')
    → ((post : Text) × (c ∷ t ≡ b ++ post)) × IsClosed depth b
IsClosed-more depth c t b b' post e split inner =
    subst (λ x. ((post : Text) × (c ∷ t ≡ x ++ post)) × IsClosed depth x) e
      ((post, ap (λ x. c ∷ x) split), inner)

-- A text that is closed by its first brace ends there.
ends_here :
    (depth c : ℕ) (b : Text) → (c == b'}' && depth == 1) ≡ true → IsClosed depth (c ∷ b) → b ≡ []
ends_here depth c [] q whole = refl
ends_here depth c (d ∷ b) q (same, before) = absurd (ground (arith, q, before 1))

block_from-IsClosed :
    (depth : ℕ) (t b : Text)
    → 0 < depth
    → block_from depth t ≡ some b
    → ((post : Text) × (t ≡ b ++ post)) × IsClosed depth b
unfolding block_from
block_from-IsClosed depth [] b h e = absurd (ground (arith, e))
block_from-IsClosed depth (c ∷ t) b h e = elim (Bool-cases (c == b'}' && depth == 1)) [
  | inl q ↦ IsClosed-here depth c t b q (ground (arith, q, e))
  | inr q ↦ elim (Option-cases (block_from (depth_after depth c) t)) [
    | inl n ↦ absurd (ground (arith, q, n, e))
    | inr (b', n) ↦
        let ((post, split), inner) =
          block_from-IsClosed (depth_after depth c) t b' (ground (arith, q, h)) n in
        IsClosed-more depth c t b b' post (ground (arith, q, n, e)) split
          (IsClosed-cons depth c b' h q inner)
  ]
]

block_from_closed :
    (depth : ℕ) (b post : Text)
    → 0 < depth
    → IsClosed depth b
    → block_from depth (b ++ post) ≡ some b
unfolding block_from
block_from_closed depth [] post h (same, before) = absurd (ground (arith, h, same))
block_from_closed depth (c ∷ b) post h whole = elim (Bool-cases (c == b'}' && depth == 1)) [
  | inl q ↦ rw (ends_here depth c b q whole) (ground (arith, q))
  | inr q ↦ ground (
    arith,
    q,
    block_from_closed (depth_after depth c) b post (ground (arith, q, h))
        (IsClosed-tail depth c b h q whole),
  )
]

-- The block of an answer: what stands before it has no opening brace, and it is closed by its last
-- character, and not before.
abbrev pub IsFirstBlock : Text → Text → Type 0
IsFirstBlock t b =
    (pre : Text) × (inner : Text) × (post : Text) × (t ≡ pre ++ b ++ post)
    × (b ≡ b'{' ∷ inner)
    × (opens pre ≡ 0)
    × IsClosed 1 inner

IsFirstBlock-here :
    (c : ℕ) (t b : Text)
    → (c == b'{') ≡ true
    → block_from 0 (c ∷ t) ≡ some b
    → IsFirstBlock (c ∷ t) b
unfolding block_from
IsFirstBlock-here c t b q e = elim (Option-cases (block_from 1 t)) [
  | inl n ↦ absurd (ground (arith, q, n, e))
  | inr (inner, n) ↦
      let ((post, split), closed) = block_from-IsClosed 1 t inner (omega arith) n in
      let head : b ≡ c ∷ inner = ground (arith, q, n, e) in
      (
        [],
        inner,
        post,
        ap (λ x. c ∷ x) split ∙ ap (λ x. x ++ post) (sym head),
        head ∙ ap (λ x. x ∷ inner) (ground (arith, q)),
        refl,
        closed,
      )
]

first_block-IsFirstBlock : (t b : Text) → first_block t ≡ some b → IsFirstBlock t b
unfolding first_block
first_block-IsFirstBlock [] b e = absurd (ground (arith, e))
first_block-IsFirstBlock (c ∷ t) b e = elim (Bool-cases (c == b'{')) [
  | inl q ↦ IsFirstBlock-here c t b q (ground (arith, q, e))
  | inr q ↦
      let (pre, inner, post, split, head, none_open, closed) =
        first_block-IsFirstBlock t b (ground (arith, q, e)) in
      (c ∷ pre, inner, post, ap (λ x. c ∷ x) split, head, ground (arith, q, none_open), closed)
]

first_block_found :
    (pre inner post : Text)
    → opens pre ≡ 0
    → IsClosed 1 inner
    → first_block (pre ++ (b'{' ∷ inner) ++ post) ≡ some (b'{' ∷ inner)
unfolding first_block block_from
first_block_found [] inner post none_open closed =
    ground (arith, block_from_closed 1 inner post (omega arith) closed)
first_block_found (c ∷ pre) inner post none_open closed =
    ground (arith, none_open, first_block_found pre inner post (ground (arith, none_open)) closed)

-- The third strategy of parse_json_response cuts a block out of an answer exactly when the block
-- begins at the first opening brace, ends where as many braces have been closed as opened, and at
-- no place before has as many closed as opened.
pub first_block_iff : (t b : Text) → (first_block t ≡ some b) ↔ IsFirstBlock t b
first_block_iff t b = (
  first_block-IsFirstBlock t b,
  λ (pre, inner, post, split, head, none_open, closed).
      rw split (rw head (first_block_found pre inner post none_open closed)),
)
