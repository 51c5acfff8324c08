-- ===== src/SqlPolicy/Placeholder/Exact.antt =====
-- What `HasUnboundPlaceholder` of sqlpolicy/placeholder.go answers about whole texts.
use web_db.Prelude.{ℕ, ◌≡◌, refl, ◌∙◌, true, List, [], ◌∷◌, Bytes, ok}
use web_db.SqlPolicy.Types.{my_sql}
use web_db.SqlPolicy.Placeholder.{
  Rules, step, scan_from, scan_placeholder, my_sql_rules, has_unbound_placeholder, hit,
}
use web_db.SqlPolicy.Placeholder.Tokens.{Token, render, after_tokens}
use web_db.SqlPolicy.Placeholder.Dialects.{AreMySqlTokens}
use web_db.SqlPolicy.Placeholder.Agreement.{my_sql_tokens-AreRead}
use web_db.SqlPolicy.Placeholder.Detection.{scan_tokens}

scan_hit :
    (r : Rules) (before : Bytes) (c : ℕ) (k : Bytes)
    → step r before c k ≡ hit
    → scan_from r before 0 (c ∷ k) ≡ ok true
unfolding scan_from
scan_hit r before c k e = rw (e, scan_from)

-- In MySQL text a `?` behind complete tokens is found: behind strings in single quotes with their
-- backslash escapes, double-quoted text without backslashes, names in backticks, comments and
-- other bytes, by the rules of `Dialects`, and with what it leaves out of them.
pub has_unbound_placeholder-my_sql :
    (ts : List Token) (k : Bytes)
    → AreMySqlTokens ts (b'?' ∷ k)
    → has_unbound_placeholder my_sql (render ts (b'?' ∷ k)) ≡ ok true
unfolding has_unbound_placeholder scan_placeholder
has_unbound_placeholder-my_sql ts k h =
    scan_tokens my_sql_rules [] ts (b'?' ∷ k) (my_sql_tokens-AreRead [] ts _ h)
    ∙ scan_hit my_sql_rules (after_tokens ts []) b'?' k (unfold step in refl)
