-- ===== src/SqlPolicy/Placeholder/Skips.antt =====
-- How far the skip functions of sqlpolicy/placeholder.go go over well-formed text.
use mathlib.Core.Option
use native.Mathlib.Nat.{suc-add, zero-add}
use web_db.Prelude.{
  ℕ, suc, ◌+◌, ◌≡◌, ◌≢◌, refl, ap, ◌∙◌, inl, inr, Bool, true, false, List, [], ◌∷◌, ◌++◌, some,
  Bytes, All, length, length-append, arith, Bool-cases, ◌==◌, ◌&&◌,
}
use web_db.SqlPolicy.EcmLexer.Tokens.{Item, char, doubled, escaped, IsItem, NotHead, NoClose}
use web_db.SqlPolicy.Placeholder.{
  Rules, scan_from, skip_quoted, skip_line_comment, skip_block_comment, read_tag, has_prefix,
  find_closing, skip_dollar_quoted,
}
use web_db.SqlPolicy.Placeholder.Tokens.{item_list, push_all, HasPrefix, StaysOpen, LineEnds}

-- Bytes that are passed over are not looked at.
pub pass_over :
    (r : Rules) (a k before : Bytes) (n : ℕ)
    → scan_from r before (length a + n) (a ++ k) ≡ scan_from r (push_all before a) n k
unfolding scan_from
pass_over r [] k before n = rw zero-add
pass_over r (c ∷ a) k before n = rw suc-add (pass_over r a k (c ∷ before) n)

skip_escaped :
    (q : ℕ) (escapes : Bool) (d : ℕ) (x : Bytes)
    → escapes ≡ true
    → skip_quoted q escapes (b'\\' ∷ d ∷ x)
      ≡ Option.map (λ n. suc (suc n)) (skip_quoted q escapes x)
unfolding skip_quoted
skip_escaped q true d x h = refl
skip_escaped q false d x h = cc

module _ (q : ℕ) (escapes : Bool) (no_backslash : q ≢ b'\\') where
  skip_char :
      (c d : ℕ) (x : Bytes)
      → IsItem q escapes (char c)
      → skip_quoted q escapes (c ∷ d ∷ x) ≡ Option.map suc (skip_quoted q escapes (d ∷ x))
  unfolding skip_quoted
  skip_char c d x h = ground arith

  skip_doubled :
      (x : Bytes)
      → skip_quoted q escapes (q ∷ q ∷ x) ≡ Option.map (λ n. suc (suc n)) (skip_quoted q escapes x)
  unfolding skip_quoted
  skip_doubled x =
      let no : (q == b'\\') ≡ false = ground arith in
      let same : (q == q) ≡ true = ground arith in rw (no, same)

  skip_items :
      (items : List Item) (k : Bytes)
      → All (IsItem q escapes) items
      → NotHead q k
      → skip_quoted q escapes (item_list q items ++ (q ∷ k))
        ≡ some (suc (length (item_list q items)))
  skip_items [] [] h f = unfold skip_quoted in ground arith
  skip_items [] (c ∷ k) h f = unfold skip_quoted in ground arith
  skip_items (char c ∷ []) k h f = rw (skip_char c q k h.0, skip_items [] k tt f)
  skip_items (char c ∷ char d ∷ items) k h f =
      rw (skip_char c d _ h.0, skip_items (char d ∷ items) k h.1 f)
  skip_items (char c ∷ doubled ∷ items) k h f =
      rw (skip_char c q _ h.0, skip_items (doubled ∷ items) k h.1 f)
  skip_items (char c ∷ escaped d ∷ items) k h f =
      rw (skip_char c b'\\' _ h.0, skip_items (escaped d ∷ items) k h.1 f)
  skip_items (doubled ∷ items) k h f = rw (skip_doubled _, skip_items items k h.1 f)
  skip_items (escaped c ∷ items) k h f =
      rw (skip_escaped q escapes c _ h.0, skip_items items k h.1 f)

pub skip_quoted_items :
    (q : ℕ) (escapes : Bool) (items : List Item) (k : Bytes)
    → q ≢ b'\\'
    → All (IsItem q escapes) items
    → NotHead q k
    → skip_quoted q escapes (item_list q items ++ (q ∷ k)) ≡ some (length (item_list q items) + 1)
skip_quoted_items q escapes items k b h f =
    skip_items q escapes b items k h f ∙ ap some (omega arith)

pub skip_line_body :
    (body k : Bytes)
    → All (λ c. c ≢ b'\n') body
    → LineEnds k
    → skip_line_comment (body ++ k) ≡ length body
unfolding skip_line_comment
skip_line_body [] [] h e = refl
skip_line_body [] (c ∷ k) h e = ground arith
skip_line_body (c ∷ body) k h e = ground (arith, skip_line_body body k h.1 e)

pub skip_block_body :
    (body k : Bytes)
    → NoClose body
    → skip_block_comment (body ++ (b'*' ∷ b'/' ∷ k)) ≡ some (length body + 2)
unfolding skip_block_comment
skip_block_body [] k h = refl
skip_block_body (c ∷ []) k h = ground arith
skip_block_body (c ∷ d ∷ body) k h = ground (arith, skip_block_body (d ∷ body) k h.1)

read_tag_lem :
    (tag k : Bytes) → All (λ c. c ≢ b'$') tag → read_tag (tag ++ (b'$' ∷ k)) ≡ some (tag, k)
unfolding read_tag
read_tag_lem [] k h = refl
read_tag_lem (c ∷ tag) k h = ground (arith, read_tag_lem tag k h.1)

has_prefix-append : (p k : Bytes) → has_prefix (p ++ (b'$' ∷ [])) (p ++ (b'$' ∷ k)) ≡ true
unfolding has_prefix
has_prefix-append [] k = refl
has_prefix-append (c ∷ p) k = ground (arith, has_prefix-append p k)

has_prefix-HasPrefix : (p s : Bytes) → has_prefix p s ≡ true → HasPrefix p s
unfolding has_prefix
has_prefix-HasPrefix [] s h = tt
has_prefix-HasPrefix (c ∷ p) [] h = absurd (ground arith)
has_prefix-HasPrefix (c ∷ p) (d ∷ s) h = (ground arith, has_prefix-HasPrefix p s (ground arith))

find_closing_lem :
    (closing body k : Bytes)
    → has_prefix closing k ≡ true
    → StaysOpen closing body (b'$' ∷ k)
    → find_closing closing (body ++ (b'$' ∷ k)) ≡ some (length body + suc (length closing))
unfolding find_closing
find_closing_lem closing [] k p h = ground arith
find_closing_lem closing (c ∷ body) k p h =
    elim (Bool-cases (c == b'$' && has_prefix closing (body ++ (b'$' ∷ k)))) [
      | inl e ↦ absurd (h.0 (ground arith, has_prefix-HasPrefix closing _ (ground arith)))
      | inr e ↦ ground (arith, find_closing_lem closing body k p h.1)
    ]

pub skip_dollar_body :
    (tag body k : Bytes)
    → All (λ c. c ≢ b'$') tag
    → StaysOpen (tag ++ (b'$' ∷ [])) body (b'$' ∷ (tag ++ (b'$' ∷ k)))
    → skip_dollar_quoted (tag ++ (b'$' ∷ (body ++ (b'$' ∷ (tag ++ (b'$' ∷ k))))))
      ≡ some (length tag + suc (length body + suc (length tag + 1)))
unfolding skip_dollar_quoted
skip_dollar_body tag body k h o = ground (
  arith,
  read_tag_lem tag (body ++ (b'$' ∷ (tag ++ (b'$' ∷ k)))) h,
  find_closing_lem (tag ++ (b'$' ∷ [])) body (tag ++ (b'$' ∷ k)) (has_prefix-append tag k) o,
  length-append tag (b'$' ∷ []),
)
