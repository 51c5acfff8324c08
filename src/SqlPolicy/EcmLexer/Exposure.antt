-- ===== src/SqlPolicy/EcmLexer/Exposure.antt =====
-- The other direction: where the lexer reports an executable comment, the text before it is a
-- sequence of complete tokens.
mod Ends
pub use Ends.*
use web_db.Prelude.{
  ℕ, zero, suc, ◌<◌, ◌≡◌, refl, sym, ap, subst, inl, inr, true, List, [], ◌∷◌, Bytes, ◌==◌, arith,
  Bool-cases, ok, ◌∙◌, ◌||◌, length, ==_iff,
}
use web_db.SqlPolicy.Types.{MySqlLexerMode}
use web_db.SqlPolicy.EcmLexer.{normal, dash_comment, move, scan_from, scan}
use web_db.SqlPolicy.EcmLexer.Detection.{opened_by, scan_open_quote}
use web_db.SqlPolicy.EcmLexer.Tokens.{
  Token, plain, dash, slash, quoted, block, hash_line, dash_line, render, token_bytes, IsToken,
  AreTokens, OpensLine, IsQuote,
}

abbrev pub exec_open : Bytes → Bytes
exec_open k = b'/' ∷ b'*' ∷ b'!' ∷ k

-- The text is a sequence of complete tokens and then an executable comment.
pub record Exposed (mode : MySqlLexerMode) (cs : Bytes) : Type 0 where
  pub tokens : List Token
  pub after : Bytes
  pub split : cs ≡ render tokens (exec_open after)
  pub are_tokens : AreTokens mode tokens (exec_open after)

module _ (mode : MySqlLexerMode) where
  Exposed-here : (k : Bytes) → Exposed mode (exec_open k)
  Exposed-here k = record { tokens = []; after = k; split = refl; are_tokens = tt }

  expose :
      (t : Token) (cs : Bytes) {k : Bytes}
      → cs ≡ token_bytes t k
      → IsToken mode t k
      → Exposed mode k
      → Exposed mode cs
  expose t cs e is r = record {
    tokens = t ∷ r.tokens;
    after = r.after;
    split = e ∙ ap (token_bytes t) r.split;
    are_tokens = (subst (IsToken mode t) r.split is, r.are_tokens);
  }

  module _ (n : ℕ) (go_on : (k : Bytes) → length k < n → Finds mode normal k → Exposed mode k) where
    expose_slash :
        (cs : Bytes) → length cs < n → Finds mode normal (b'/' ∷ cs) → Exposed mode (b'/' ∷ cs)
    unfolding scan_from move
    expose_slash [] l h = absurd (ground arith)
    expose_slash (d ∷ []) l h = elim (Bool-cases (d == b'*')) [
      | inl e ↦ absurd (ground arith)
      | inr e ↦
          expose slash (b'/' ∷ d ∷ []) refl (ground arith)
            (go_on (d ∷ []) (omega arith) (ground arith))
    ]
    expose_slash (d ∷ e ∷ cs) l h = elim (Bool-cases (d == b'*')) [
      | inl star ↦ elim (Bool-cases (e == b'!')) [
        | inl bang ↦ rw ((==_iff d b'*').0 star, (==_iff e b'!').0 bang) (Exposed-here cs)
        | inr other ↦
            (let r = block_end mode (e ∷ cs) (ground arith) in
              expose (block r.body) (b'/' ∷ d ∷ e ∷ cs) (ground (arith, r.split))
                (
                  r.open_until,
                  head_kept mode b'!' e r.body cs (b'/' ∷ r.rest) r.split (ground arith),
                )
                (go_on r.rest (omega (arith, r.shorter)) r.found))
      ]
      | inr plain_slash ↦
          expose slash (b'/' ∷ d ∷ e ∷ cs) refl (ground arith)
            (go_on (d ∷ e ∷ cs) (omega arith) (ground arith))
    ]

    expose_dash :
        (cs : Bytes) → length cs < n → Finds mode normal (b'-' ∷ cs) → Exposed mode (b'-' ∷ cs)
    unfolding scan_from move
    expose_dash [] l h = absurd (ground arith)
    expose_dash (d ∷ []) l h = elim (Bool-cases (d == b'-')) [
      | inl e ↦ absurd (ground arith)
      | inr e ↦
          expose dash (b'-' ∷ d ∷ []) refl (ground arith)
            (go_on (d ∷ []) (omega arith) (ground arith))
    ]
    expose_dash (d ∷ e ∷ cs) l h = elim (Bool-cases (dash_comment (d ∷ e ∷ cs))) [
      | inl opens ↦
          (let r = line_end mode (e ∷ cs) (ground arith) in
            expose (dash_line r.body) (b'-' ∷ d ∷ e ∷ cs) (ground (arith, r.split))
              (r.one_line, subst OpensLine (ap (◌∷◌ b'-') r.split) (ground arith))
              (go_on r.rest (omega (arith, r.shorter)) r.found))
      | inr stays ↦
          expose dash (b'-' ∷ d ∷ e ∷ cs) refl (ground arith)
            (go_on (d ∷ e ∷ cs) (omega arith) (ground arith))
    ]

    expose_quote :
        (q : ℕ) (cs : Bytes)
        → IsQuote q
        → length cs < n
        → Finds mode (opened_by mode q) cs
        → Exposed mode (q ∷ cs)
    expose_quote q cs quote l h =
        (let r = quote_end mode q quote cs h in
          expose (quoted q r.items) (q ∷ cs) (ap (◌∷◌ q) r.split) (quote, r.are_items, r.left)
            (go_on r.rest (omega (arith, r.shorter)) r.found))

    expose_step :
        (c : ℕ) (cs : Bytes) → length cs < n → Finds mode normal (c ∷ cs) → Exposed mode (c ∷ cs)
    unfolding scan_from move
    expose_step c cs l h = elim (Bool-cases (c == b'\'' || c == b'"' || c == b'`')) [
      | inl quote ↦
          (let is : IsQuote c = ground arith in
            expose_quote c cs is l (sym (scan_open_quote mode c cs is) ∙ h))
      | inr no_quote ↦ elim (Bool-cases (c == b'#')) [
        | inl hash ↦
            (let r = line_end mode cs (ground arith) in
              expose (hash_line r.body) (c ∷ cs) (ground (arith, r.split)) r.one_line
                (go_on r.rest (omega (arith, r.shorter)) r.found))
        | inr no_hash ↦ elim (Bool-cases (c == b'-')) [
          | inl is_dash ↦
              (let e : c ≡ b'-' = (==_iff c b'-').0 is_dash in rw e (expose_dash cs l (rw e at h)))
          | inr no_dash ↦ elim (Bool-cases (c == b'/')) [
            | inl is_slash ↦
                (let e : c ≡ b'/' = (==_iff c b'/').0 is_slash in
                  rw e (expose_slash cs l (rw e at h)))
            | inr no_slash ↦
                expose (plain c) (c ∷ cs) refl
                  (
                    ground arith,
                    ground arith,
                    ground arith,
                    ground arith,
                    ground arith,
                    ground arith,
                  )
                  (go_on cs l (ground arith))
          ]
        ]
      ]
    ]

  expose_all : (n : ℕ) (cs : Bytes) → length cs < n → Finds mode normal cs → Exposed mode cs
  unfolding scan_from
  expose_all zero cs l h = absurd (omega arith)
  expose_all (suc n) [] l h = absurd (ground arith)
  expose_all (suc n) (c ∷ cs) l h = expose_step n (expose_all n) c cs (omega arith) h

pub expose_whole :
    (mode : MySqlLexerMode) (sql : Bytes) → scan mode sql ≡ ok true → Exposed mode sql
unfolding scan
expose_whole mode sql h = expose_all mode (suc (length sql)) sql (omega arith) h
