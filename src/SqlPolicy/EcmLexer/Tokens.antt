-- ===== src/SqlPolicy/EcmLexer/Tokens.antt =====
-- The lexical structure of MySQL text, described without the lexer: the tokens, their bytes, and
-- what may follow them.
use web_db.Prelude.{
  ℕ, ◌≤◌, ◌≡◌, ◌≢◌, ◌⊎◌, Bool, true, false, not, List, [], ◌∷◌, ◌++◌, Bytes, All, ◌==◌,
  if◌then◌else◌,
}
use web_db.SqlPolicy.Types.{MySqlLexerMode}

-- One character of a quoted text: itself, the quote written twice, or one behind a backslash.
pub data Item : Type 0 where
  char : ℕ → Item
  doubled : Item
  escaped : ℕ → Item

-- `plain` is any byte that opens nothing; a `dash` and a `slash` that open no comment stand apart.
pub data Token : Type 0 where
  plain : ℕ → Token
  dash slash : Token
  quoted : ℕ → List Item → Token
  block : Bytes → Token
  hash_line dash_line : Bytes → Token

abbrev pub item_bytes : ℕ → Item → Bytes → Bytes
item_bytes q (char c) k = c ∷ k
item_bytes q doubled k = q ∷ q ∷ k
item_bytes q (escaped c) k = b'\\' ∷ c ∷ k

abbrev pub items_bytes : ℕ → List Item → Bytes → Bytes
items_bytes q [] k = k
items_bytes q (i ∷ is) k = item_bytes q i (items_bytes q is k)

-- The bytes of a token, in front of `k`.
abbrev pub token_bytes : Token → Bytes → Bytes
token_bytes (plain c) k = c ∷ k
token_bytes dash k = b'-' ∷ k
token_bytes slash k = b'/' ∷ k
token_bytes (quoted q items) k = q ∷ items_bytes q items (q ∷ k)
token_bytes (block body) k = b'/' ∷ b'*' ∷ (body ++ (b'*' ∷ b'/' ∷ k))
token_bytes (hash_line body) k = b'#' ∷ (body ++ (b'\n' ∷ k))
token_bytes (dash_line body) k = b'-' ∷ b'-' ∷ (body ++ (b'\n' ∷ k))

abbrev pub render : List Token → Bytes → Bytes
render [] k = k
render (t ∷ ts) k = token_bytes t (render ts k)

abbrev pub NotHead : ℕ → Bytes → Type 0
NotHead c [] = Unit
NotHead c (d ∷ _) = d ≢ c

-- No `*/` inside.
abbrev pub NoClose : Bytes → Type 0
NoClose [] = Unit
NoClose (c ∷ rest) = (c ≡ b'*' → NotHead b'/' rest) × NoClose rest

-- A dash before such bytes opens a line comment: a second dash, and white space or the end.
abbrev pub OpensLine : Bytes → Type 0
OpensLine [] = ⊥
OpensLine (d ∷ []) = d ≡ b'-'
OpensLine (d ∷ e ∷ _) = (d ≡ b'-') × (e ≤ b' ')

-- Backslashes escape in strings, unless the session says otherwise; never in quoted names.
abbrev pub escapes_in : MySqlLexerMode → ℕ → Bool
escapes_in mode q =
    if q == b'`'
    then false
    else if q == b'"'
    then (if mode.ansi_quotes then false else not mode.no_backslash_escapes)
    else not mode.no_backslash_escapes

abbrev pub IsItem : ℕ → Bool → Item → Type 0
IsItem q escapes (char c) = (c ≢ q) × (escapes ≡ true → c ≢ b'\\')
IsItem q escapes doubled = Unit
IsItem q escapes (escaped c) = escapes ≡ true

abbrev pub IsQuote : ℕ → Type 0
IsQuote q = (q ≡ b'\'') ⊎ (q ≡ b'"') ⊎ (q ≡ b'`')

-- The token `t` may stand before the bytes `k`.
abbrev pub IsToken : MySqlLexerMode → Token → Bytes → Type 0
IsToken mode (plain c) k =
    (c ≢ b'\'') × (c ≢ b'"') × (c ≢ b'`') × (c ≢ b'#') × (c ≢ b'-') × (c ≢ b'/')
IsToken mode dash k = ¬ OpensLine k
IsToken mode slash k = NotHead b'*' k
IsToken mode (quoted q items) k = IsQuote q × All (IsItem q (escapes_in mode q)) items × NotHead q k
IsToken mode (block body) k = NoClose body × NotHead b'!' body
IsToken mode (hash_line body) k = All (λ c. c ≢ b'\n') body
IsToken mode (dash_line body) k =
    All (λ c. c ≢ b'\n') body × OpensLine (b'-' ∷ (body ++ (b'\n' ∷ k)))

-- The tokens `ts` make up a text that ends where the bytes `k` begin.
abbrev pub AreTokens : MySqlLexerMode → List Token → Bytes → Type 0
AreTokens mode [] k = Unit
AreTokens mode (t ∷ ts) k = IsToken mode t (render ts k) × AreTokens mode ts k
