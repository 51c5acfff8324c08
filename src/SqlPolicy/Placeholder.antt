-- ===== src/SqlPolicy/Placeholder.antt =====
-- sqlpolicy/placeholder.go: is there a native positional placeholder outside quotes and comments?
-- The source walks an index `i`. Here `before` holds the bytes in front of it, the last one
-- first, and the list the bytes from `i` on. Where the source's skip functions return the next
-- index, they say here how many bytes behind the current one are passed over; `none` is their
-- `false`, for a text that is not closed.

pub mod Tokens
pub mod Dialects
mod Reading
mod Agreement
mod Skips
pub mod Detection
pub mod Exact
pub mod EscapedQuotes
use mathlib.Core.Option
use web_db.Prelude.{
  ℕ, zero, suc, ◌+◌, Bool, true, false, not, ◌&&◌, ◌||◌, [], ◌∷◌, ◌++◌, Option, none, some, Bytes,
  leb, ◌==◌, if◌then◌else◌, Result, ok, err, length,
}
use web_db.SqlPolicy.Types.{Dialect, postgresql, my_sql, unknown_dialect}

pub data ScanError : Type 0 where
  unknown_dialect_error unclosed : ScanError

-- `skipSingleQuoted`, `skipDoubleQuoted` and `skipBacktick` are one function of the quote and of
-- whether backslashes escape. The list starts behind the opening quote.
unfoldable pub skip_quoted : ℕ → Bool → Bytes → Option ℕ
skip_quoted q escapes [] = none
skip_quoted q escapes (c ∷ []) = if c == q then some 1 else none
skip_quoted q escapes (c ∷ d ∷ rest) =
    let two = Option.map (λ n. suc (suc n)) (skip_quoted q escapes rest) in
    let one = Option.map suc (skip_quoted q escapes (d ∷ rest)) in
    if c == b'\\' && escapes then two else if c == q then (if d == q then two else some 1) else one

-- `skipLineComment`: up to the line's end, which stays.
unfoldable pub skip_line_comment : Bytes → ℕ
skip_line_comment [] = 0
skip_line_comment (c ∷ rest) = let n = skip_line_comment rest in if c == b'\n' then 0 else suc n

-- `skipBlockComment`, from behind the opening `/*`.
unfoldable pub skip_block_comment : Bytes → Option ℕ
skip_block_comment [] = none
skip_block_comment (c ∷ []) = none
skip_block_comment (c ∷ d ∷ rest) =
    let more = Option.map suc (skip_block_comment (d ∷ rest)) in
    if c == b'*' && d == b'/' then some 2 else more

-- `unicode.IsLetter` of a byte taken for a code point.
abbrev is_letter : ℕ → Bool
is_letter c =
    (leb b'a' c && leb c b'z')
    || (leb b'A' c && leb c b'Z')
    || c == 0xaa
    || c == 0xb5
    || c == 0xba
    || (leb 0xc0 c && leb c 0xd6)
    || (leb 0xd8 c && leb c 0xf6)
    || (leb 0xf8 c && leb c 0xff)

-- The tests on the byte behind a `$`.
unfoldable pub is_dollar_quote_start : Bytes → Bool
is_dollar_quote_start [] = false
is_dollar_quote_start (c ∷ rest) = c == b'$' || (is_letter c || c == b'_')

-- The bytes up to the next `$`, and what stands behind it.
unfoldable pub read_tag : Bytes → Option (Bytes × Bytes)
read_tag [] = none
read_tag (c ∷ rest) =
    let more = Option.map (λ r. (c ∷ r.0, r.1)) (read_tag rest) in
    if c == b'$' then some ([], rest) else more

unfoldable pub has_prefix : Bytes → Bytes → Bool
has_prefix [] s = true
has_prefix (c ∷ p) [] = false
has_prefix (c ∷ p) (d ∷ s) = c == d && has_prefix p s

-- The search for the closing `$tag$`; `closing` is `tag$`.
unfoldable pub find_closing : Bytes → Bytes → Option ℕ
unfolding has_prefix
find_closing closing [] = none
find_closing closing (c ∷ rest) =
    let more = Option.map suc (find_closing closing rest) in
    if c == b'$' && has_prefix closing rest then some (suc (length closing)) else more

-- `skipDollarQuoted`, from behind the opening `$`.
unfoldable pub skip_dollar_quoted : Bytes → Option ℕ
unfolding read_tag find_closing
skip_dollar_quoted rest = elim (read_tag rest) [
  | none ↦ none
  | some (tag, body) ↦ Option.map (λ n. suc (length tag) + n) (find_closing (tag ++ b'$' ∷ []) body)
]

-- `isDashDashComment`, on the bytes behind the second dash.
unfoldable pub is_dash_dash_comment : Bytes → Bool
is_dash_dash_comment [] = true
is_dash_dash_comment (c ∷ rest) = leb c b' '

unfoldable pub is_pg_identifier_continuation : ℕ → Bool
is_pg_identifier_continuation c =
    leb 0x80 c
    || c == b'_'
    || c == b'$'
    || (leb b'a' c && leb c b'z')
    || (leb b'A' c && leb c b'Z')
    || (leb b'0' c && leb c b'9')

unfoldable pub is_pg_escape_string : Bytes → Bool
unfolding is_pg_identifier_continuation
is_pg_escape_string [] = false
is_pg_escape_string (e ∷ []) = e == b'E' || e == b'e'
is_pg_escape_string (e ∷ c ∷ _) = (e == b'E' || e == b'e') && not (is_pg_identifier_continuation c)

-- The arguments of `scanPlaceholder`; `is_placeholder` is given the byte and those behind it.
pub record Rules : Type 0 where
  pub hash_comment : Bool
  pub dollar_quotes : Bool
  pub dash_dash_space : Bool
  pub backslash_escapes : Bytes → Bool
  pub is_placeholder : ℕ → Bytes → Bool

pub data Step : Type 0 where
  hit : Step
  fail : Step
  pass : ℕ → Step

abbrev pub of_skip : Option ℕ → Step
of_skip none = fail
of_skip (some n) = pass n

-- `case c == '-'`
abbrev pub dash_step : Rules → Bytes → Step
dash_step r [] = pass 0
dash_step r (d ∷ rest) =
    if d == b'-' && (not r.dash_dash_space || is_dash_dash_comment rest)
    then pass (skip_line_comment (d ∷ rest))
    else pass 0

-- `case c == '/'`
abbrev pub slash_step : Bytes → Step
slash_step [] = pass 0
slash_step (d ∷ rest) =
    if d == b'*' then of_skip (Option.map suc (skip_block_comment rest)) else pass 0

-- The `switch` of `scanPlaceholder`.
unfoldable pub step : Rules → Bytes → ℕ → Bytes → Step
step r before c rest =
    if c == b'\''
    then of_skip (skip_quoted b'\'' (r.backslash_escapes before) rest)
    else if c == b'"'
    then of_skip (skip_quoted b'"' false rest)
    else if c == b'`'
    then of_skip (skip_quoted b'`' false rest)
    else if c == b'-'
    then dash_step r rest
    else if c == b'#' && r.hash_comment
    then pass (skip_line_comment rest)
    else if c == b'/'
    then slash_step rest
    else if c == b'$'
    then (if r.is_placeholder c rest
        then hit
        else if r.dollar_quotes && is_dollar_quote_start rest
        then of_skip (skip_dollar_quoted rest)
        else pass 0)
    else if c == b'?'
    then (if r.is_placeholder c rest then hit else pass 0)
    else pass 0

unfoldable pub scan_from : Rules → Bytes → ℕ → Bytes → Result ScanError Bool
scan_from r before skip [] = ok false
scan_from r before (suc skip) (c ∷ rest) = scan_from r (c ∷ before) skip rest
scan_from r before zero (c ∷ rest) = elim (step r before c rest) [
  | hit ↦ ok true
  | fail ↦ err unclosed
  | pass skip ↦ scan_from r (c ∷ before) skip rest
]

unfoldable pub scan_placeholder : Rules → Bytes → Result ScanError Bool
unfolding scan_from
scan_placeholder r sql = scan_from r [] 0 sql

-- `$` and a digit
abbrev pub is_pg_placeholder : ℕ → Bytes → Bool
is_pg_placeholder c [] = false
is_pg_placeholder c (n ∷ rest) = leb b'0' n && leb n b'9'

abbrev pub pg_rules : Rules
pg_rules = record {
  hash_comment = false;
  dollar_quotes = true;
  dash_dash_space = false;
  backslash_escapes = is_pg_escape_string;
  is_placeholder = is_pg_placeholder;
}

abbrev pub my_sql_rules : Rules
my_sql_rules = record {
  hash_comment = true;
  dollar_quotes = false;
  dash_dash_space = true;
  backslash_escapes = λ before. true;
  is_placeholder = λ c rest. c == b'?';
}

unfoldable pub has_unbound_placeholder : Dialect → Bytes → Result ScanError Bool
has_unbound_placeholder postgresql sql = scan_placeholder pg_rules sql
has_unbound_placeholder my_sql sql = scan_placeholder my_sql_rules sql
has_unbound_placeholder unknown_dialect sql = err unknown_dialect_error
