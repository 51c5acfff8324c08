-- ===== src/SqlPolicy/Placeholder/Reading.antt =====
-- How the scanner of sqlpolicy/placeholder.go reads tokens under the arguments that it is given. The
-- lemmas about the scanner rest on this; `Dialects` describes the two languages apart from it.
use web_db.Prelude.{ℕ, ◌≡◌, ◌≢◌, ◌⊎◌, Bool, true, false, List, [], ◌∷◌, ◌++◌, Bytes, All}
use web_db.SqlPolicy.EcmLexer.Tokens.{IsItem, NotHead, NoClose}
use web_db.SqlPolicy.Placeholder.{Rules, is_dollar_quote_start}
use web_db.SqlPolicy.Placeholder.Tokens.{
  Token, plain, mark, dash, slash, quoted, block, hash_line, dash_line, dollar, LineEnds,
  SpaceFirst, StaysOpen, render, after_token,
}

-- `--` opens a line comment: always, or only before white space and at the end.
abbrev pub OpensLine : Rules → Bytes → Type 0
OpensLine r [] = ⊥
OpensLine r (d ∷ rest) = (d ≡ b'-') × (r.dash_dash_space ≡ true → SpaceFirst rest)

-- Whether backslashes escape in the quoted text that `q` opens.
abbrev pub EscapesIn : Rules → Bytes → ℕ → Bool → Type 0
EscapesIn r before q escapes =
    ((q ≡ b'\'') × (escapes ≡ r.backslash_escapes before))
    ⊎ (((q ≡ b'"') ⊎ (q ≡ b'`')) × (escapes ≡ false))

-- The token `t` may stand between `before`, read backwards, and `k`.
abbrev pub IsRead : Rules → Bytes → Token → Bytes → Type 0
IsRead r before (plain c) k =
    (c ≢ b'\'')
    × (c ≢ b'"')
    × (c ≢ b'`')
    × (c ≢ b'-')
    × (c ≡ b'#' → r.hash_comment ≡ false)
    × (c ≢ b'/')
    × (c ≢ b'$')
    × (c ≢ b'?')
IsRead r before (mark c) k =
    (r.is_placeholder c k ≡ false)
    × ((c ≡ b'?') ⊎ ((c ≡ b'$') × (r.dollar_quotes ≡ true → is_dollar_quote_start k ≡ false)))
IsRead r before dash k = ¬ OpensLine r k
IsRead r before slash k = NotHead b'*' k
IsRead r before (quoted q items) k =
    (escapes : Bool) × EscapesIn r before q escapes × All (IsItem q escapes) items × NotHead q k
IsRead r before (block body) k = NoClose body
IsRead r before (hash_line body) k =
    (r.hash_comment ≡ true) × All (λ c. c ≢ b'\n') body × LineEnds k
IsRead r before (dash_line body) k =
    All (λ c. c ≢ b'\n') body × LineEnds k × OpensLine r (b'-' ∷ (body ++ k))
IsRead r before (dollar tag body) k =
    (r.dollar_quotes ≡ true)
    × All (λ c. c ≢ b'$') tag
    × (is_dollar_quote_start (tag ++ (b'$' ∷ (body ++ (b'$' ∷ (tag ++ (b'$' ∷ k)))))) ≡ true)
    × (r.is_placeholder b'$' (tag ++ (b'$' ∷ (body ++ (b'$' ∷ (tag ++ (b'$' ∷ k)))))) ≡ false)
    × StaysOpen (tag ++ (b'$' ∷ [])) body (b'$' ∷ (tag ++ (b'$' ∷ k)))

abbrev pub AreRead : Rules → Bytes → List Token → Bytes → Type 0
AreRead r before [] k = Unit
AreRead r before (t ∷ ts) k =
    IsRead r before t (render ts k) × AreRead r (after_token t before) ts k
