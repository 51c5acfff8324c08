-- ===== src/SqlPolicy/EcmLexer/Exact.antt =====
-- What a scan of a whole text answers (`scan` of sqlpolicy/ecm_lexer.go).
use web_db.Prelude.{◌≡◌, ◌↔◌, true, false, List, [], Bytes, ok}
use web_db.SqlPolicy.Types.{MySqlLexerMode}
use web_db.SqlPolicy.EcmLexer.{move, scan_from, scan}
use web_db.SqlPolicy.EcmLexer.Tokens.{Token, render, AreTokens}
use web_db.SqlPolicy.EcmLexer.Detection.{scan_tokens}
use web_db.SqlPolicy.EcmLexer.Exposure.{Exposed, exec_open, expose_whole}

-- The lexer answers true exactly when the text is a sequence of complete MySQL tokens (quoted
-- texts, comments and other bytes) and then `/*!`, in either session mode.
pub scan-Exposed :
    (mode : MySqlLexerMode) (sql : Bytes) → (scan mode sql ≡ ok true) ↔ Exposed mode sql
unfolding scan scan_from move
scan-Exposed mode sql = (
  expose_whole mode sql,
  λ e. rw e.split (scan_tokens mode e.tokens (exec_open e.after) e.are_tokens),
)

-- A text of complete MySQL tokens alone is never rejected, whatever its quoted texts and its
-- plain comments hold.
pub scan-render :
    (mode : MySqlLexerMode) (ts : List Token)
    → AreTokens mode ts []
    → scan mode (render ts []) ≡ ok false
unfolding scan scan_from
scan-render mode ts h = scan_tokens mode ts [] h
