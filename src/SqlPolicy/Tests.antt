-- ===== src/SqlPolicy/Tests.antt =====
-- Runs of the code of sqlpolicy on small texts, and the theorems about it at them.
use web_db.Prelude.{
  ◌≡◌, ◌≢◌, ◌⊎◌, ◌↔◌, refl, inl, true, false, List, [], ◌∷◌, some, arith, ok, codes, Bytes, All,
}
use web_db.SqlPolicy.Types.{postgresql, my_sql, stmt_select, no_features, allowed_code}
use web_db.SqlPolicy.Text.{trim_space}
use web_db.SqlPolicy.EcmLexer.{scan, scan_from, move}
use web_db.SqlPolicy.EcmLexer.Tokens as Ecm
use web_db.SqlPolicy.EcmLexer.Exposure.{Exposed}
use web_db.SqlPolicy.EcmLexer.Exact.{scan-Exposed, scan-render}
use web_db.SqlPolicy.Classifier.{Parser, normalize_sql, classify}
use web_db.SqlPolicy.Policy.{decide, apply_policy}
use web_db.SqlPolicy.Policy.Decisions.{
  SingleRead, MySqlAllowed, decide-postgresql, decide-my_sql, decide-reason_code,
}
use web_db.SqlPolicy.SessionMode.{supported, mode_from_session, names_of}
use web_db.SqlPolicy.SessionMode.Supported.{IsHarmless, mode_from_session-supported}
use web_db.SqlPolicy.Placeholder.{has_unbound_placeholder}
use web_db.SqlPolicy.Placeholder.Tokens.{
  Token, plain, mark, dash, quoted, hash_line, dollar, render,
}
use web_db.SqlPolicy.Placeholder.Dialects.{AreMySqlTokens}
use web_db.SqlPolicy.Placeholder.Exact.{has_unbound_placeholder-my_sql}

-- A parser that reads every text as one plain SELECT.
abbrev parser : Parser
parser = record {
  Ast = Unit;
  parse = λ sql. some (some tt ∷ []);
  classify_ast = λ ast. (stmt_select, no_features);
  sha256_hex = λ sql. "";
}

abbrev query : Bytes
query = codes "x'y'"

scan-Exposed_example :
    (scan supported (codes "1/*!x") ≡ ok true) ↔ Exposed supported (codes "1/*!x")
scan-Exposed_example = scan-Exposed supported (codes "1/*!x")

abbrev quoted_comment : List Ecm.Token
quoted_comment =
    Ecm.plain b'x' ∷ Ecm.quoted b'\'' (Ecm.char b'/' ∷ Ecm.char b'*' ∷ Ecm.char b'!' ∷ []) ∷ []

quoted_comment-AreTokens : Ecm.AreTokens supported quoted_comment []
quoted_comment-AreTokens = ground arith

scan-render_example : scan supported (Ecm.render quoted_comment []) ≡ ok false
scan-render_example = scan-render supported quoted_comment quoted_comment-AreTokens

decide-postgresql_example :
    ((decide parser parser postgresql query supported).allowed ≡ true) ↔ SingleRead parser query
decide-postgresql_example = decide-postgresql parser parser query supported

decided : (decide parser parser my_sql query supported).allowed ≡ true
unfolding decide normalize_sql scan scan_from move apply_policy classify
decided = refl

decide-my_sql_example : MySqlAllowed parser query supported
decide-my_sql_example = decide-my_sql parser parser query supported decided

decide-reason_code_example :
    ((decide parser parser my_sql query supported).allowed ≡ true)
    ↔ ((decide parser parser my_sql query supported).reason_code ≡ allowed_code)
decide-reason_code_example = decide-reason_code parser parser my_sql query supported

abbrev session : Bytes
session = codes "strict_all_tables, NO_ZERO_DATE"

mode_from_session-supported_example : (mode_from_session session ≡ ok supported) ↔ (
    (session ≡ []) ⊎ ((trim_space session ≢ []) × All IsHarmless (names_of (trim_space session))))
mode_from_session-supported_example = mode_from_session-supported session

session_run : mode_from_session session ≡ ok supported
unfolding mode_from_session
session_run = refl

-- `x'?$1'`
-- `x'?$1' #E'\''?$$?$$`: a string, an operator, a string with an escape, an operator, a dollar quote.
abbrev pg_text : List Token
pg_text =
    plain b'x'
    ∷ quoted b'\'' (Ecm.char b'?' ∷ Ecm.char b'$' ∷ Ecm.char b'1' ∷ [])
    ∷ plain b' '
    ∷ plain b'#'
    ∷ plain b'E'
    ∷ quoted b'\'' (Ecm.escaped b'\'' ∷ [])
    ∷ mark b'?'
    ∷ dollar [] (b'?' ∷ [])
    ∷ []

-- A `#` comment, two dashes before a digit, which open none, a string with an escape, and `$`s.
abbrev my_sql_text : List Token
my_sql_text =
    hash_line (b'?' ∷ [])
    ∷ plain b'\n'
    ∷ dash
    ∷ dash
    ∷ plain b'2'
    ∷ quoted b'\'' (Ecm.char b'?' ∷ Ecm.escaped b'\'' ∷ [])
    ∷ mark b'$'
    ∷ plain b'a'
    ∷ mark b'$'
    ∷ []

my_sql_text-AreMySqlTokens : (k : Bytes) → AreMySqlTokens my_sql_text k
my_sql_text-AreMySqlTokens k = (
  (ground arith, refl),
  (
    ground arith,
    (
      ground arith,
      (
        ground arith,
        (
          ground arith,
          ((inl (refl, ground arith), λ e. ground arith), (refl, (ground arith, (refl, tt)))),
        ),
      ),
    ),
  ),
)

has_unbound_placeholder-my_sql_example :
    has_unbound_placeholder my_sql (render my_sql_text (b'?' ∷ [])) ≡ ok true
has_unbound_placeholder-my_sql_example =
    has_unbound_placeholder-my_sql my_sql_text [] (my_sql_text-AreMySqlTokens (b'?' ∷ []))
