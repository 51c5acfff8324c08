-- ===== src/SqlPolicy/SessionMode.antt =====
-- `MySQLLexerModeFromSession` of sqlpolicy/types.go: the modes that a MySQL session reports.
pub mod Supported
use mathlib.Core.List.{reverse}
use web_db.Prelude.{
  ◌-◌, Bool, true, false, ◌&&◌, ◌||◌, List, [], ◌∷◌, map, Bytes, leb, ◌==◌, if◌then◌else◌, Result,
  ok, err, codes, bytes_eq,
}
use web_db.SqlPolicy.Types.{MySqlLexerMode}
use web_db.SqlPolicy.Text.{trim_space}

-- `strings.Split(s, ",")`; the first argument is the piece read so far, backwards.
split_comma : Bytes → Bytes → List Bytes
split_comma piece [] = reverse piece ∷ []
split_comma piece (c ∷ cs) =
    let cut = reverse piece ∷ split_comma [] cs in
    let on = split_comma (c ∷ piece) cs in if c == b',' then cut else on

-- `strings.ToUpper`: ASCII letters, and the two others whose capitals are ASCII, U+0131 and
-- U+017F. Further letters stay as they are; their capitals are no ASCII letters either.
to_upper : Bytes → Bytes
to_upper [] = []
to_upper (c ∷ []) = (if leb b'a' c && leb c b'z' then c - 32 else c) ∷ []
to_upper (c ∷ d ∷ rest) =
    let wide_i = b'I' ∷ to_upper rest in
    let wide_s = b'S' ∷ to_upper rest in
    let one = (if leb b'a' c && leb c b'z' then c - 32 else c) ∷ to_upper (d ∷ rest) in
    if c == 0xc4 && d == 0xb1 then wide_i else if c == 0xc5 && d == 0xbf then wide_s else one

pub data SessionError : Type 0 where
  empty_token unsupported_syntax unknown_mode : SessionError

-- The cases of the `switch`.
pub data ModeName : Type 0 where
  quotes no_backslash harmless syntax unknown : ModeName

one_of : Bytes → List Bytes → Bool
one_of name [] = false
one_of name (n ∷ ns) = bytes_eq name n || one_of name ns

abbrev quote_names : List Bytes
quote_names = codes "ANSI_QUOTES" ∷ codes "ANSI" ∷ []

abbrev pub harmless_names : List Bytes
harmless_names =
    codes "ALLOW_INVALID_DATES"
    ∷ codes "ERROR_FOR_DIVISION_BY_ZERO"
    ∷ codes "NO_AUTO_VALUE_ON_ZERO"
    ∷ codes "NO_DIR_IN_CREATE"
    ∷ codes "NO_ENGINE_SUBSTITUTION"
    ∷ codes "NO_UNSIGNED_SUBTRACTION"
    ∷ codes "NO_ZERO_DATE"
    ∷ codes "NO_ZERO_IN_DATE"
    ∷ codes "ONLY_FULL_GROUP_BY"
    ∷ codes "PAD_CHAR_TO_FULL_LENGTH"
    ∷ codes "STRICT_ALL_TABLES"
    ∷ codes "STRICT_TRANS_TABLES"
    ∷ codes "TIME_TRUNCATE_FRACTIONAL"
    ∷ codes "TRADITIONAL"
    ∷ []

abbrev syntax_names : List Bytes
syntax_names =
    codes "HIGH_NOT_PRECEDENCE"
    ∷ codes "IGNORE_SPACE"
    ∷ codes "PIPES_AS_CONCAT"
    ∷ codes "REAL_AS_FLOAT"
    ∷ []

unfoldable pub mode_name : Bytes → ModeName
unfolding one_of
mode_name name =
    if one_of name quote_names
    then quotes
    else if bytes_eq name (codes "NO_BACKSLASH_ESCAPES")
    then no_backslash
    else if one_of name harmless_names
    then harmless
    else if one_of name syntax_names
    then syntax
    else unknown

abbrev pub supported : MySqlLexerMode
supported = record { no_backslash_escapes = false; ansi_quotes = false }

-- One round of the loop, on the name that it reads.
set_mode : ModeName → MySqlLexerMode → Result SessionError MySqlLexerMode
set_mode quotes mode = ok (record mode { ansi_quotes = true })
set_mode no_backslash mode = ok (record mode { no_backslash_escapes = true })
set_mode harmless mode = ok mode
set_mode syntax mode = err unsupported_syntax
set_mode unknown mode = err unknown_mode

read_name : Bytes → MySqlLexerMode → Result SessionError MySqlLexerMode
unfolding set_mode mode_name
read_name [] mode = err empty_token
read_name (c ∷ cs) mode = set_mode (mode_name (c ∷ cs)) mode

read_names : MySqlLexerMode → List Bytes → Result SessionError MySqlLexerMode
unfolding read_name
read_names mode [] = ok mode
read_names mode (name ∷ names) = elim (read_name name mode) [
  | ok mode' ↦ read_names mode' names
  | err e ↦ err e
]

-- The names that a session's text lists, trimmed and in capitals.
unfoldable pub names_of : Bytes → List Bytes
unfolding split_comma to_upper trim_space
names_of raw = map (λ part. to_upper (trim_space part)) (split_comma [] raw)

read_trimmed : Bytes → Result SessionError MySqlLexerMode
unfolding read_names names_of
read_trimmed [] = err empty_token
read_trimmed (c ∷ cs) = read_names supported (names_of (c ∷ cs))

unfoldable pub mode_from_session : Bytes → Result SessionError MySqlLexerMode
unfolding read_trimmed
mode_from_session [] = ok supported
mode_from_session (c ∷ cs) = read_trimmed (trim_space (c ∷ cs))
