-- ===== src/SqlPolicy/Placeholder/Agreement.antt =====
-- The arguments that `hasPGPlaceholder` and `hasMySQLPlaceholder` of sqlpolicy/placeholder.go give to
-- the scanner make it read the tokens of PostgreSQL and of MySQL as tokens.
use web_db.Prelude.{
  ◌≡◌, ◌≢◌, refl, sym, true, false, inl, inr, List, [], ◌∷◌, ◌++◌, Bytes, arith, All,
}
use web_db.SqlPolicy.EcmLexer.Tokens.{Item, IsItem, NotHead}
use web_db.SqlPolicy.Placeholder.{
  is_pg_escape_string, is_pg_identifier_continuation, is_dollar_quote_start, pg_rules, my_sql_rules,
  is_pg_placeholder,
}
use web_db.SqlPolicy.Placeholder.Tokens.{
  Token, plain, mark, dash, slash, quoted, block, hash_line, dash_line, dollar, render, after_token,
}
use web_db.SqlPolicy.Placeholder.Reading.{IsRead, AreRead, OpensLine}
use web_db.SqlPolicy.Placeholder.Dialects.{
  EndsInE, IsTag, NoDigit, NoDollarUse, IsPgToken, ArePgTokens, OpensMySqlLine, IsMySqlToken,
  AreMySqlTokens,
}

EndsInE-escapes : (before : Bytes) → EndsInE before → is_pg_escape_string before ≡ true
unfolding is_pg_escape_string is_pg_identifier_continuation
EndsInE-escapes [] h = absurd h
EndsInE-escapes (e ∷ []) h = ground arith
EndsInE-escapes (e ∷ c ∷ before) h = ground arith

no_escapes : (before : Bytes) → ¬ EndsInE before → is_pg_escape_string before ≡ false
unfolding is_pg_escape_string is_pg_identifier_continuation
no_escapes [] h = refl
no_escapes (e ∷ []) h = ground arith
no_escapes (e ∷ c ∷ before) h = ground arith

NoDigit-unplaced : (c : _) (k : Bytes) → NoDigit k → is_pg_placeholder c k ≡ false
NoDigit-unplaced c [] h = refl
NoDigit-unplaced c (d ∷ k) h = ground arith

NoDollarUse-unplaced : (c : _) (k : Bytes) → NoDollarUse k → is_pg_placeholder c k ≡ false
NoDollarUse-unplaced c [] h = refl
NoDollarUse-unplaced c (d ∷ k) h = ground arith

NoDollarUse-unopened : (k : Bytes) → NoDollarUse k → is_dollar_quote_start k ≡ false
unfolding is_dollar_quote_start
NoDollarUse-unopened [] h = refl
NoDollarUse-unopened (d ∷ k) h = ground arith

OpensLine-pg : (k : Bytes) → OpensLine pg_rules k → ¬ NotHead b'-' k
OpensLine-pg [] h n = absurd h
OpensLine-pg (d ∷ k) h n = n h.0

IsTag-opens : (tag k : Bytes) → IsTag tag → is_dollar_quote_start (tag ++ (b'$' ∷ k)) ≡ true
unfolding is_dollar_quote_start
IsTag-opens [] k h = refl
IsTag-opens (c ∷ tag) k h = ground arith

IsTag-unplaced : (tag k : Bytes) → IsTag tag → is_pg_placeholder b'$' (tag ++ (b'$' ∷ k)) ≡ false
IsTag-unplaced [] k h = refl
IsTag-unplaced (c ∷ tag) k h = ground arith

IsTag-closed : (tag : Bytes) → IsTag tag → All (λ c. c ≢ b'$') tag
IsTag-closed [] h = tt
IsTag-closed (c ∷ tag) h = (ground arith, h.1)

pg_token-IsRead :
    (before : Bytes) (t : Token) (k : Bytes) → IsPgToken before t k → IsRead pg_rules before t k
pg_token-IsRead before (plain c) k h = ground arith
pg_token-IsRead before (mark c) k (inl (e, n)) = (NoDigit-unplaced c k n, inl e)
pg_token-IsRead before (mark c) k (inr (e, n)) =
    (NoDollarUse-unplaced c k n, inr (e, λ _. NoDollarUse-unopened k n))
pg_token-IsRead before dash k h = λ o. OpensLine-pg k o h
pg_token-IsRead before slash k h = h
pg_token-IsRead before (quoted q items) k (inl (e, ends, are), left) =
    (true, inl (e, sym (EndsInE-escapes before ends)), are, left)
pg_token-IsRead before (quoted q items) k (inr (inl (e, ends, are)), left) =
    (false, inl (e, sym (no_escapes before ends)), are, left)
pg_token-IsRead before (quoted q items) k (inr (inr (e, are)), left) =
    (false, inr (inl e, refl), are, left)
pg_token-IsRead before (block body) k h = h.0
pg_token-IsRead before (hash_line body) k h = absurd h
pg_token-IsRead before (dash_line body) k h = (h.0, h.1, (refl, λ e. absurd (ground arith)))
pg_token-IsRead before (dollar tag body) k (out, is, stays) =
    (refl, IsTag-closed tag is, IsTag-opens tag _ is, IsTag-unplaced tag _ is, stays)

both-plain :
    (q : _) (items : List Item)
    → All (λ i. IsItem q true i × IsItem q false i) items
    → All (IsItem q false) items
both-plain q [] h = tt
both-plain q (i ∷ items) h = (h.0.1, both-plain q items h.1)

OpensLine-my_sql : (k : Bytes) → OpensLine my_sql_rules k → OpensMySqlLine k
OpensLine-my_sql [] h = absurd h
OpensLine-my_sql (d ∷ k) h = (h.0, h.1 refl)

my_sql_token-IsRead :
    (before : Bytes) (t : Token) (k : Bytes) → IsMySqlToken t k → IsRead my_sql_rules before t k
my_sql_token-IsRead before (plain c) k h = ground arith
my_sql_token-IsRead before (mark c) k h = (ground arith, inr (h, λ e. absurd (ground arith)))
my_sql_token-IsRead before dash k h = λ o. h (OpensLine-my_sql k o)
my_sql_token-IsRead before slash k h = h
my_sql_token-IsRead before (quoted q items) k (inl (e, are), left) =
    (true, inl (e, refl), are, left)
my_sql_token-IsRead before (quoted q items) k (inr (inl (e, are)), left) =
    (false, inr (inl e, refl), both-plain q items are, left)
my_sql_token-IsRead before (quoted q items) k (inr (inr (e, are)), left) =
    (false, inr (inr e, refl), are, left)
my_sql_token-IsRead before (block body) k h = h.0
my_sql_token-IsRead before (hash_line body) k h = (refl, h.0, h.1)
my_sql_token-IsRead before (dash_line body) k h = (h.0, h.1, (refl, λ _. h.2))
my_sql_token-IsRead before (dollar tag body) k h = absurd h

pub pg_tokens-AreRead :
    (before : Bytes) (ts : List Token) (k : Bytes)
    → ArePgTokens before ts k
    → AreRead pg_rules before ts k
pg_tokens-AreRead before [] k h = tt
pg_tokens-AreRead before (t ∷ ts) k h =
    (pg_token-IsRead before t (render ts k) h.0, pg_tokens-AreRead (after_token t before) ts k h.1)

pub my_sql_tokens-AreRead :
    (before : Bytes) (ts : List Token) (k : Bytes)
    → AreMySqlTokens ts k
    → AreRead my_sql_rules before ts k
my_sql_tokens-AreRead before [] k h = tt
my_sql_tokens-AreRead before (t ∷ ts) k h = (
  my_sql_token-IsRead before t (render ts k) h.0,
  my_sql_tokens-AreRead (after_token t before) ts k h.1,
)
