-- ===== src/SqlPolicy/Placeholder/Dialects.antt =====
-- The tokens of PostgreSQL and of MySQL text, described by the rules of the two languages and
-- apart from sqlpolicy/placeholder.go: only `Tokens` is used here, the shapes of tokens. Where the
-- scanner is known to read a language wrongly, the description leaves the text out, and says so.
use web_db.Prelude.{ℕ, ◌≤◌, ◌≡◌, ◌≢◌, ◌⊎◌, true, false, [], ◌∷◌, ◌++◌, List, Bytes, All}
use web_db.SqlPolicy.EcmLexer.Tokens.{IsItem, NotHead, NoClose}
use web_db.SqlPolicy.Placeholder.Tokens.{
  Token, plain, mark, dash, slash, quoted, block, hash_line, dash_line, dollar, LineEnds,
  SpaceFirst, StaysOpen, render, after_token,
}

-- A digit, a letter of ASCII, and what may follow the first letter of a PostgreSQL name.
abbrev pub IsDigit : ℕ → Type 0
IsDigit c = (b'0' ≤ c) × (c ≤ b'9')

abbrev pub IsAscii : ℕ → Type 0
IsAscii c = ((b'a' ≤ c) × (c ≤ b'z')) ⊎ ((b'A' ≤ c) × (c ≤ b'Z'))

abbrev pub InName : ℕ → Type 0
InName c = IsAscii c ⊎ IsDigit c ⊎ (c ≡ b'_') ⊎ (c ≡ b'$') ⊎ (0x80 ≤ c)

-- The text, read backwards, does not end inside a name.
abbrev pub OutsideName : Bytes → Type 0
OutsideName [] = Unit
OutsideName (c ∷ _) = ¬ InName c

-- An `E` that is a word of its own makes the string behind it one with escapes.
abbrev pub EndsInE : Bytes → Type 0
EndsInE [] = ⊥
EndsInE (c ∷ before) = ((c ≡ b'E') ⊎ (c ≡ b'e')) × OutsideName before

-- Behind a `$`: neither a digit, nor another `$`, nor a letter, nor an underscore.
abbrev pub NoDollarUse : Bytes → Type 0
NoDollarUse [] = Unit
NoDollarUse (c ∷ _) = ¬ InName c

-- The tag of a dollar quote is empty or begins with a letter of ASCII or an underscore. (The
-- scanner does not know all the other letters.)
abbrev pub IsTag : Bytes → Type 0
IsTag [] = Unit
IsTag (c ∷ tag) = (IsAscii c ⊎ (c ≡ b'_')) × All (λ d. d ≢ b'$') tag

abbrev pub NoDigit : Bytes → Type 0
NoDigit [] = Unit
NoDigit (c ∷ _) = ¬ IsDigit c

-- No `/*` inside.
abbrev pub NoOpen : Bytes → Type 0
NoOpen [] = Unit
NoOpen (c ∷ rest) = (c ≡ b'/' → NotHead b'*' rest) × NoOpen rest

-- PostgreSQL. A `#` and a `?` are parts of operators; `--` opens a comment whatever follows. Left
-- out: backticks, which the scanner takes for quotes, nested comments, which it takes to end at the
-- first `*/`, a `$` inside a name before a letter, which it takes to open a dollar quote, and a `?`
-- before a digit, which it takes for a placeholder.
abbrev pub IsPgToken : Bytes → Token → Bytes → Type 0
IsPgToken before (plain c) k =
    (c ≢ b'\'') × (c ≢ b'"') × (c ≢ b'`') × (c ≢ b'-') × (c ≢ b'/') × (c ≢ b'$') × (c ≢ b'?')
IsPgToken before (mark c) k = ((c ≡ b'?') × NoDigit k) ⊎ ((c ≡ b'$') × NoDollarUse k)
IsPgToken before dash k = NotHead b'-' k
IsPgToken before slash k = NotHead b'*' k
IsPgToken before (quoted q items) k =
    (((q ≡ b'\'') × EndsInE before × All (IsItem q true) items)
      ⊎ ((q ≡ b'\'') × ¬ EndsInE before × All (IsItem q false) items)
      ⊎ ((q ≡ b'"') × All (IsItem q false) items))
    × NotHead q k
IsPgToken before (block body) k = NoClose body × NoOpen (body ++ (b'*' ∷ []))
IsPgToken before (hash_line body) k = ⊥
IsPgToken before (dash_line body) k = All (λ c. c ≢ b'\n') body × LineEnds k
IsPgToken before (dollar tag body) k =
    OutsideName before
    × IsTag tag
    × StaysOpen (tag ++ (b'$' ∷ [])) body (b'$' ∷ (tag ++ (b'$' ∷ k)))

-- MySQL. A `$` is a part of a name, and a `?` always a placeholder; `--` opens a comment only
-- before white space and at the end. Left out: backslashes in double quotes, which the scanner
-- does not take for escapes, and comments that MySQL executes.
abbrev pub OpensMySqlLine : Bytes → Type 0
OpensMySqlLine [] = ⊥
OpensMySqlLine (d ∷ rest) = (d ≡ b'-') × SpaceFirst rest

abbrev pub IsMySqlToken : Token → Bytes → Type 0
IsMySqlToken (plain c) k =
    (c ≢ b'\'')
    × (c ≢ b'"')
    × (c ≢ b'`')
    × (c ≢ b'-')
    × (c ≢ b'#')
    × (c ≢ b'/')
    × (c ≢ b'$')
    × (c ≢ b'?')
IsMySqlToken (mark c) k = c ≡ b'$'
IsMySqlToken dash k = ¬ OpensMySqlLine k
IsMySqlToken slash k = NotHead b'*' k
IsMySqlToken (quoted q items) k =
    (((q ≡ b'\'') × All (IsItem q true) items)
      ⊎ ((q ≡ b'"') × All (λ i. IsItem q true i × IsItem q false i) items)
      ⊎ ((q ≡ b'`') × All (IsItem q false) items))
    × NotHead q k
IsMySqlToken (block body) k = NoClose body × NotHead b'!' body
IsMySqlToken (hash_line body) k = All (λ c. c ≢ b'\n') body × LineEnds k
IsMySqlToken (dash_line body) k = All (λ c. c ≢ b'\n') body × LineEnds k × SpaceFirst (body ++ k)
IsMySqlToken (dollar tag body) k = ⊥

-- The tokens `ts` make up the text from `before`, read backwards, up to `k`.
abbrev pub ArePgTokens : Bytes → List Token → Bytes → Type 0
ArePgTokens before [] k = Unit
ArePgTokens before (t ∷ ts) k =
    IsPgToken before t (render ts k) × ArePgTokens (after_token t before) ts k

abbrev pub AreMySqlTokens : List Token → Bytes → Type 0
AreMySqlTokens [] k = Unit
AreMySqlTokens (t ∷ ts) k = IsMySqlToken t (render ts k) × AreMySqlTokens ts k
