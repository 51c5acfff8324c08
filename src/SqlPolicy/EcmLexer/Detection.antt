-- ===== src/SqlPolicy/EcmLexer/Detection.antt =====
-- The lexer finds an executable comment exactly where one stands outside quotes and comments.
use web_db.Prelude.{
  ℕ, ◌≡◌, refl, ◌≢◌, inl, inr, List, [], ◌∷◌, ◌++◌, Bytes, All, ◌==◌, if◌then◌else◌, arith, ◌∙◌,
}
use web_db.SqlPolicy.Types.{MySqlLexerMode}
use web_db.SqlPolicy.EcmLexer.{
  LexerState, normal, single_quote, double_quote, double_quote_ident, backtick, block_comment,
  line_comment, move, scan_from,
}
use web_db.SqlPolicy.EcmLexer.Tokens.{
  Item, char, doubled, escaped, Token, plain, dash, slash, quoted, block, hash_line, dash_line,
  items_bytes, escapes_in, render, token_bytes, IsItem, IsToken, AreTokens, NoClose, NotHead,
  IsQuote,
}

-- The state that a quote character opens.
abbrev pub opened_by : MySqlLexerMode → ℕ → LexerState
opened_by mode q =
    if q == b'`'
    then backtick
    else if q == b'"'
    then (if mode.ansi_quotes then double_quote_ident else double_quote)
    else single_quote

module _ (mode : MySqlLexerMode) where
  scan_line :
      (body k : Bytes)
      → All (λ c. c ≢ b'\n') body
      → scan_from mode line_comment 0 (body ++ (b'\n' ∷ k)) ≡ scan_from mode normal 0 k
  unfolding scan_from move
  scan_line [] k h = refl
  scan_line (c ∷ body) k h = ground (arith, scan_line body k h.1)

  scan_block :
      (body k : Bytes)
      → NoClose body
      → scan_from mode block_comment 0 (body ++ (b'*' ∷ b'/' ∷ k)) ≡ scan_from mode normal 0 k
  unfolding scan_from move
  scan_block [] k h = refl
  scan_block (c ∷ []) k h = ground arith
  scan_block (c ∷ d ∷ body) k h = ground (arith, scan_block (d ∷ body) k h.1)

  module _ (q : ℕ) (quote : IsQuote q) where
    -- Inside quotes the lexer follows the items, and leaves at the closing quote.
    scan_quoted :
        (items : List Item) (k : Bytes)
        → All (IsItem q (escapes_in mode q)) items
        → NotHead q k
        → scan_from mode (opened_by mode q) 0 (items_bytes q items (q ∷ k))
          ≡ scan_from mode normal 0 k
    unfolding scan_from move
    scan_quoted [] [] h f = ground arith
    scan_quoted [] (c ∷ k) h f = ground arith
    scan_quoted (char c ∷ items) k h f = ground (arith, scan_quoted items k h.1 f)
    scan_quoted (doubled ∷ items) k h f = ground (arith, scan_quoted items k h.1 f)
    scan_quoted (escaped c ∷ items) k h f = ground (arith, scan_quoted items k h.1 f)

  pub scan_open_quote :
      (q : ℕ) (k : Bytes)
      → IsQuote q
      → scan_from mode normal 0 (q ∷ k) ≡ scan_from mode (opened_by mode q) 0 k
  unfolding scan_from move
  scan_open_quote q k (inl e) = rw e
  scan_open_quote q k (inr (inl e)) = rw e (ground arith)
  scan_open_quote q k (inr (inr e)) = rw e

  -- One token takes the lexer back to the normal state.
  scan_token :
      (t : Token) (k : Bytes)
      → IsToken mode t k
      → scan_from mode normal 0 (token_bytes t k) ≡ scan_from mode normal 0 k
  unfolding scan_from move
  scan_token (plain c) k h = ground arith
  scan_token dash [] h = refl
  scan_token dash (d ∷ []) h = ground arith
  scan_token dash (d ∷ e ∷ k) h = ground arith
  scan_token slash [] h = refl
  scan_token slash (d ∷ []) h = ground arith
  scan_token slash (d ∷ e ∷ k) h = ground arith
  scan_token (quoted q items) k h =
      scan_open_quote q (items_bytes q items (q ∷ k)) h.0 ∙ scan_quoted q h.0 items k h.1 h.2
  scan_token (block []) k h = ground arith
  scan_token (block (c ∷ body)) k h = ground (arith, scan_block (c ∷ body) k h.0)
  scan_token (hash_line body) k h = scan_line body k h
  scan_token (dash_line []) k h = ground (arith, scan_line [] k h.0)
  scan_token (dash_line (c ∷ body)) k h = ground (arith, scan_line (c ∷ body) k h.0)

  pub scan_tokens :
      (ts : List Token) (k : Bytes)
      → AreTokens mode ts k
      → scan_from mode normal 0 (render ts k) ≡ scan_from mode normal 0 k
  scan_tokens [] k h = refl
  scan_tokens (t ∷ ts) k h = scan_token t (render ts k) h.0 ∙ scan_tokens ts k h.1
