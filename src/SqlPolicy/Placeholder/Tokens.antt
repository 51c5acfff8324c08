-- ===== src/SqlPolicy/Placeholder/Tokens.antt =====
-- The shapes of the tokens that sqlpolicy/placeholder.go tells apart in SQL text: their bytes, and
-- what stands before and behind them. `Dialects` says which tokens each language has.
use web_db.Prelude.{ℕ, ◌≤◌, ◌≡◌, List, [], ◌∷◌, ◌++◌, Bytes}
use web_db.SqlPolicy.EcmLexer.Tokens.{Item, char, doubled, escaped}

-- `mark` is a `$` or a `?` that is no placeholder and opens nothing.
pub data Token : Type 0 where
  plain mark : ℕ → Token
  dash slash : Token
  quoted : ℕ → List Item → Token
  block hash_line dash_line : Bytes → Token
  dollar : Bytes → Bytes → Token

abbrev pub item_list : ℕ → List Item → Bytes
item_list q [] = []
item_list q (char c ∷ is) = c ∷ item_list q is
item_list q (doubled ∷ is) = q ∷ q ∷ item_list q is
item_list q (escaped c ∷ is) = b'\\' ∷ c ∷ item_list q is

-- The bytes of a token, in front of `k`. A line comment leaves its line's end to what follows.
abbrev pub token_bytes : Token → Bytes → Bytes
token_bytes (plain c) k = c ∷ k
token_bytes (mark c) k = c ∷ k
token_bytes dash k = b'-' ∷ k
token_bytes slash k = b'/' ∷ k
token_bytes (quoted q items) k = q ∷ (item_list q items ++ (q ∷ k))
token_bytes (block body) k = b'/' ∷ b'*' ∷ (body ++ (b'*' ∷ b'/' ∷ k))
token_bytes (hash_line body) k = b'#' ∷ (body ++ k)
token_bytes (dash_line body) k = b'-' ∷ b'-' ∷ (body ++ k)
token_bytes (dollar tag body) k = b'$' ∷ (tag ++ (b'$' ∷ (body ++ (b'$' ∷ (tag ++ (b'$' ∷ k))))))

-- The bytes `s` put in front of a text that is read backwards.
abbrev pub push_all : Bytes → Bytes → Bytes
push_all before [] = before
push_all before (c ∷ s) = push_all (c ∷ before) s

-- What stands before the text behind the token, backwards.
abbrev pub after_token : Token → Bytes → Bytes
after_token (plain c) before = c ∷ before
after_token (mark c) before = c ∷ before
after_token dash before = b'-' ∷ before
after_token slash before = b'/' ∷ before
after_token (quoted q items) before = q ∷ push_all (q ∷ before) (item_list q items)
after_token (block body) before = b'/' ∷ b'*' ∷ push_all (b'*' ∷ b'/' ∷ before) body
after_token (hash_line body) before = push_all (b'#' ∷ before) body
after_token (dash_line body) before = push_all (b'-' ∷ b'-' ∷ before) body
after_token (dollar tag body) before =
    b'$' ∷ push_all (b'$' ∷ push_all (b'$' ∷ push_all (b'$' ∷ before) tag) body) tag

abbrev pub render : List Token → Bytes → Bytes
render [] k = k
render (t ∷ ts) k = token_bytes t (render ts k)

-- A line comment ends where its text does, or at a line's end.
abbrev pub LineEnds : Bytes → Type 0
LineEnds [] = Unit
LineEnds (c ∷ _) = c ≡ b'\n'

-- White space, a control character or the text's end.
abbrev pub SpaceFirst : Bytes → Type 0
SpaceFirst [] = Unit
SpaceFirst (c ∷ _) = c ≤ b' '

abbrev pub HasPrefix : Bytes → Bytes → Type 0
HasPrefix [] s = Unit
HasPrefix (c ∷ p) [] = ⊥
HasPrefix (c ∷ p) (d ∷ s) = (c ≡ d) × HasPrefix p s

-- Before the closing mark of a dollar quote, no closing mark begins inside `body`.
abbrev pub StaysOpen : Bytes → Bytes → Bytes → Type 0
StaysOpen closing [] k = Unit
StaysOpen closing (c ∷ body) k =
    ¬ ((c ≡ b'$') × HasPrefix closing (body ++ k)) × StaysOpen closing body k

abbrev pub after_tokens : List Token → Bytes → Bytes
after_tokens [] before = before
after_tokens (t ∷ ts) before = after_tokens ts (after_token t before)
