-- ===== src/SqlPolicy/EcmLexer.antt =====
-- sqlpolicy/ecm_lexer.go: the lexer that looks for MySQL executable comments, `/*!...*/`.
-- The source walks an index `pos` over the bytes. Here the bytes before `pos` are gone from the
-- list, and a move says how many bytes are passed over besides the current one (`l.pos++`).
pub mod Tokens
pub mod Detection
pub mod Exposure
pub mod Exact
use web_db.Prelude.{
  ℕ, zero, suc, Bool, true, false, not, ◌&&◌, [], ◌∷◌, Bytes, leb, ◌==◌, if◌then◌else◌, Result, ok,
  err,
}
use web_db.SqlPolicy.Types.{MySqlLexerMode}

pub data LexerState : Type 0 where
  normal single_quote double_quote double_quote_ident : LexerState
  backtick block_comment line_comment : LexerState

pub data LexError : Type 0 where
  unclosed_block_comment : LexError

-- What the loop's body does at one byte: `return true, nil`, or go on.
pub data Move : Type 0 where
  found : Move
  go : LexerState → ℕ → Move

-- `l.pos+1 < n && l.input[l.pos+1] == c`
unfoldable pub next_is : ℕ → Bytes → Bool
next_is c [] = false
next_is c (d ∷ rest) = d == c

unfoldable pub is_mysql_comment_whitespace : ℕ → Bool
is_mysql_comment_whitespace c = leb c b' '

-- The tests of `case ch == '-'` on the bytes behind the dash.
unfoldable pub dash_comment : Bytes → Bool
unfolding is_mysql_comment_whitespace
dash_comment [] = false
dash_comment (d ∷ []) = d == b'-'
dash_comment (d ∷ e ∷ rest) = d == b'-' && is_mysql_comment_whitespace e

-- `case ch == '/'`: both kinds of plain comment go on behind the `*`.
unfoldable pub slash_move : Bytes → Move
slash_move [] = go normal 0
slash_move (d ∷ []) = if d == b'*' then go block_comment 1 else go normal 0
slash_move (d ∷ e ∷ rest) =
    if d == b'*'
    then (if e == b'!' then found else if e == b'+' then go block_comment 1 else go block_comment 1)
    else go normal 0

-- A byte inside quotes that are doubled to stand for themselves, with or without backslashes.
unfoldable pub quoted_move : LexerState → ℕ → Bool → ℕ → Bytes → Move
unfolding next_is
quoted_move state q escapes ch rest =
    if ch == q
    then (if next_is q rest then go state 1 else go normal 0)
    else if ch == b'\\' && escapes
    then (elim rest [ [] ↦ go state 0 | _ ∷ _ ↦ go state 1 ])
    else go state 0

-- The `switch` of `scan`.
unfoldable pub move : MySqlLexerMode → LexerState → ℕ → Bytes → Move
unfolding next_is dash_comment slash_move quoted_move
move mode normal ch rest =
    if ch == b'\''
    then go single_quote 0
    else if ch == b'"'
    then go (if mode.ansi_quotes then double_quote_ident else double_quote) 0
    else if ch == b'`'
    then go backtick 0
    else if ch == b'#'
    then go line_comment 0
    else if ch == b'-'
    then (if dash_comment rest then go line_comment 1 else go normal 0)
    else if ch == b'/'
    then slash_move rest
    else go normal 0
move mode single_quote ch rest =
    quoted_move single_quote b'\'' (not mode.no_backslash_escapes) ch rest
move mode double_quote ch rest =
    quoted_move double_quote b'"' (not mode.no_backslash_escapes) ch rest
move mode double_quote_ident ch rest = quoted_move double_quote_ident b'"' false ch rest
move mode backtick ch rest = quoted_move backtick b'`' false ch rest
move mode block_comment ch rest =
    if ch == b'*' && next_is b'/' rest then go normal 1 else go block_comment 0
move mode line_comment ch rest = if ch == b'\n' then go normal 0 else go line_comment 0

-- Behind the loop.
unfoldable pub at_end : LexerState → Result LexError Bool
at_end block_comment = err unclosed_block_comment
at_end _ = ok false

-- The loop. The number is how many bytes are still to be passed over.
unfoldable pub scan_from : MySqlLexerMode → LexerState → ℕ → Bytes → Result LexError Bool
unfolding at_end
scan_from mode state skip [] = at_end state
scan_from mode state (suc skip) (ch ∷ rest) = scan_from mode state skip rest
scan_from mode state zero (ch ∷ rest) = elim (move mode state ch rest) [
  | found ↦ ok true
  | go state' skip ↦ scan_from mode state' skip rest
]

unfoldable pub scan : MySqlLexerMode → Bytes → Result LexError Bool
scan mode input = scan_from mode normal 0 input
