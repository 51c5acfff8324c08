-- ===== src/SqlPolicy/EcmLexer/Exposure/Ends.antt =====
-- Where a comment or a quoted text ends that the lexer of sqlpolicy/ecm_lexer.go leaves.
use web_db.Prelude.{
  ℕ, ◌<◌, ◌≡◌, refl, ap, ◌≢◌, inl, inr, true, List, [], ◌∷◌, ◌++◌, Bytes, All, ◌==◌, arith,
  Bool-cases, ok, ◌∙◌, ◌&&◌, length, ==_iff,
}
use web_db.SqlPolicy.Types.{MySqlLexerMode}
use web_db.SqlPolicy.EcmLexer.{LexerState, normal, block_comment, line_comment, move, scan_from}
use web_db.SqlPolicy.EcmLexer.Detection.{opened_by}
use web_db.SqlPolicy.EcmLexer.Tokens.{
  Item, char, doubled, escaped, item_bytes, items_bytes, IsItem, NoClose, NotHead, IsQuote,
  escapes_in,
}

module _ (mode : MySqlLexerMode) where
  abbrev pub Finds : LexerState → Bytes → Type 0
  Finds state cs = scan_from mode state 0 cs ≡ ok true

  -- A line comment that the lexer leaves: its body, and the rest of the text.
  pub record LineEnd (cs : Bytes) : Type 0 where
    pub body : Bytes
    pub rest : Bytes
    pub split : cs ≡ body ++ (b'\n' ∷ rest)
    pub one_line : All (λ c. c ≢ b'\n') body
    pub shorter : length rest < length cs
    pub found : Finds normal rest

  pub line_end : (cs : Bytes) → Finds line_comment cs → LineEnd cs
  unfolding scan_from move
  line_end [] h = cc
  line_end (c ∷ cs) h = elim (Bool-cases (c == b'\n')) [
    | inl e ↦ record {
      body = [];
      rest = cs;
      split = ground arith;
      one_line = tt;
      shorter = omega arith;
      found = ground arith;
    }
    | inr e ↦
        (let r = line_end cs (ground arith) in
          record {
            body = c ∷ r.body;
            rest = r.rest;
            split = ap (◌∷◌ c) r.split;
            one_line = (ground arith, r.one_line);
            shorter = omega (arith, r.shorter);
            found = r.found;
          })
  ]

  pub record BlockEnd (cs : Bytes) : Type 0 where
    pub body : Bytes
    pub rest : Bytes
    pub split : cs ≡ body ++ (b'*' ∷ b'/' ∷ rest)
    pub open_until : NoClose body
    pub shorter : length rest < length cs
    pub found : Finds normal rest

  pub head_kept :
      (c d : ℕ) (body cs k : Bytes) → d ∷ cs ≡ body ++ (b'*' ∷ k) → d ≢ c → NotHead c body
  head_kept c d [] cs k e h = tt
  head_kept c d (b ∷ body) cs k e h = λ p. h (ground arith)

  pub block_end : (cs : Bytes) → Finds block_comment cs → BlockEnd cs
  unfolding scan_from move
  block_end [] h = cc
  block_end (c ∷ []) h = absurd (ground arith)
  block_end (c ∷ d ∷ cs) h = elim (Bool-cases (c == b'*')) [
    | inl star ↦ elim (Bool-cases (d == b'/')) [
      | inl close ↦ record {
        body = [];
        rest = cs;
        split = ground arith;
        open_until = tt;
        shorter = omega arith;
        found = ground arith;
      }
      | inr more ↦
          (let r = block_end (d ∷ cs) (ground arith) in
            record {
              body = c ∷ r.body;
              rest = r.rest;
              split = ap (◌∷◌ c) r.split;
              open_until = (
                λ _. head_kept b'/' d r.body cs (b'/' ∷ r.rest) r.split (ground arith),
                r.open_until,
              );
              shorter = omega (arith, r.shorter);
              found = r.found;
            })
    ]
    | inr other ↦
        (let r = block_end (d ∷ cs) (ground arith) in
          record {
            body = c ∷ r.body;
            rest = r.rest;
            split = ap (◌∷◌ c) r.split;
            open_until = (λ e. absurd (ground arith), r.open_until);
            shorter = omega (arith, r.shorter);
            found = r.found;
          })
  ]

  pub record QuoteEnd (q : ℕ) (cs : Bytes) : Type 0 where
    pub items : List Item
    pub rest : Bytes
    pub split : cs ≡ items_bytes q items (q ∷ rest)
    pub are_items : All (IsItem q (escapes_in mode q)) items
    pub left : NotHead q rest
    pub shorter : length rest < length cs
    pub found : Finds normal rest

  add_item :
      (q : ℕ) (i : Item) (cs : Bytes) (k : Bytes)
      → IsItem q (escapes_in mode q) i
      → cs ≡ item_bytes q i k
      → length k < length cs
      → QuoteEnd q k
      → QuoteEnd q cs
  add_item q i cs k is e l r = record {
    items = i ∷ r.items;
    rest = r.rest;
    split = e ∙ ap (item_bytes q i) r.split;
    are_items = (is, r.are_items);
    left = r.left;
    shorter = omega (arith, r.shorter);
    found = r.found;
  }

  close_quote : (q : ℕ) (rest : Bytes) → NotHead q rest → Finds normal rest → QuoteEnd q (q ∷ rest)
  close_quote q rest left h = record {
    items = [];
    rest = rest;
    split = refl;
    are_items = tt;
    left = left;
    shorter = omega arith;
    found = h;
  }

  pub quote_end : (q : ℕ) → IsQuote q → (cs : Bytes) → Finds (opened_by mode q) cs → QuoteEnd q cs
  unfolding scan_from move
  quote_end q quote [] h = absurd (ground arith)
  quote_end q quote (c ∷ []) h = absurd (ground arith)
  quote_end q quote (c ∷ d ∷ cs) h = elim (Bool-cases (c == q)) [
    | inl e ↦ elim (Bool-cases (d == q)) [
      | inl twice ↦
          add_item q doubled (c ∷ d ∷ cs) cs tt (ground arith) (omega arith)
            (quote_end q quote cs (ground arith))
      | inr once ↦ rw ((==_iff c q).0 e) (close_quote q (d ∷ cs) (ground arith) (ground arith))
    ]
    | inr other ↦ elim (Bool-cases (c == b'\\' && escapes_in mode q)) [
      | inl esc ↦
          add_item q (escaped d) (c ∷ d ∷ cs) cs (ground arith) (ground arith) (omega arith)
            (quote_end q quote cs (ground arith))
      | inr lone ↦
          add_item q (char c) (c ∷ d ∷ cs) (d ∷ cs) (ground arith) refl (omega arith)
            (quote_end q quote (d ∷ cs) (ground arith))
    ]
  ]
