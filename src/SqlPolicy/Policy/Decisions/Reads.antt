-- ===== src/SqlPolicy/Policy/Decisions/Reads.antt =====
-- Statements that only read, and what `applyPolicy` of sqlpolicy/policy.go makes of them.
use web_db.Prelude.{
  ◌≡◌, ◌≢◌, refl, ◌⊎◌, inl, inr, true, false, List, [], ◌∷◌, Option, none, some, Bytes, arith,
  Bool-cases, ◌≤◌,
}
use web_db.SqlPolicy.Types.{
  StatementKind, stmt_select, stmt_explain, AstFeatures, ClassificationResult,
}
use web_db.SqlPolicy.Classifier.{
  Parser, normalize_sql, classify, classify_parsed, unknown_with_error,
}
use web_db.SqlPolicy.Policy.{apply_policy, is_forbidden, is_read}

-- A statement that only reads, feature by feature.
pub record IsReadOnly (f : AstFeatures) : Type 0 where
  pub no_locking : f.has_locking_clause ≡ false
  pub no_select_into : f.has_select_into ≡ false
  pub no_outfile : f.has_into_outfile ≡ false
  pub no_into_var : f.has_into_var ≡ false
  pub no_assignment : f.has_assignment ≡ false
  pub no_analyze : f.has_explain_analyze ≡ false
  pub no_modifying_cte : f.has_modifying_cte ≡ false
  pub no_dml_ddl : f.has_explain_dml_ddl ≡ false
  pub no_nested_explain : f.has_nested_explain ≡ false
  pub no_dangerous_func : f.has_dangerous_func ≡ false

-- The parser reads the text as one statement, a SELECT or an EXPLAIN, that only reads.
pub record SingleRead (p : Parser) (sql : Bytes) : Type 1 where
  pub ast : Parser.Ast p
  pub not_blank : normalize_sql sql ≢ []
  pub parsed : Parser.parse p sql ≡ some (some ast ∷ [])
  pub reads :
      ((Parser.classify_ast p ast).0 ≡ stmt_select) ⊎ ((Parser.classify_ast p ast).0 ≡ stmt_explain)
  pub read_only : IsReadOnly (Parser.classify_ast p ast).1

is_forbidden-IsReadOnly : (f : AstFeatures) → is_forbidden f ≡ false → IsReadOnly f
is_forbidden-IsReadOnly f h = ground arith

IsReadOnly-is_forbidden : (f : AstFeatures) → IsReadOnly f → is_forbidden f ≡ false
IsReadOnly-is_forbidden f h = ground arith

is_read-cases : (k : StatementKind) → is_read k ≡ true → (k ≡ stmt_select) ⊎ (k ≡ stmt_explain)
is_read-cases stmt_select h = inl refl
is_read-cases stmt_explain h = inr refl
is_read-cases _ h = cc

apply_policy-allowed :
    (c : ClassificationResult)
    → (apply_policy c).allowed ≡ true
    → (c.parse_error ≡ false)
      × (c.statement_count ≤ 1)
      × (is_read c.statement_kind ≡ true)
      × (is_forbidden c.ast_features ≡ false)
unfolding apply_policy
apply_policy-allowed c h = elim (Bool-cases (is_forbidden c.ast_features)) [
  | inl bad ↦ absurd (ground arith)
  | inr good ↦ (ground arith, ground arith, ground arith, good)
]

apply_policy_of_read :
    (c : ClassificationResult)
    → c.parse_error ≡ false
    → c.lex_error ≡ false
    → c.statement_count ≤ 1
    → (c.statement_kind ≡ stmt_select) ⊎ (c.statement_kind ≡ stmt_explain)
    → is_forbidden c.ast_features ≡ false
    → (apply_policy c).allowed ≡ true
unfolding apply_policy
apply_policy_of_read c h1 h2 h3 (inl e) h5 = rw (h1, h2, e, h5) (ground arith)
apply_policy_of_read c h1 h2 h3 (inr e) h5 = rw (h1, h2, e, h5) (ground arith)

module _ (p : Parser) (sql : Bytes) where
  open p use {Ast, parse, classify_ast}

  allowed_parsed :
      (r : Option (List (Option Ast)))
      → (apply_policy (classify_parsed p sql r)).allowed ≡ true
      → (ast : Ast) × (r ≡ some (some ast ∷ []))
        × (((classify_ast ast).0 ≡ stmt_select) ⊎ ((classify_ast ast).0 ≡ stmt_explain))
        × IsReadOnly (classify_ast ast).1
  unfolding classify_parsed
  allowed_parsed none h = absurd (ground (arith, (apply_policy-allowed _ h).0))
  allowed_parsed (some []) h = absurd (ground (arith, (apply_policy-allowed _ h).0))
  allowed_parsed (some (none ∷ [])) h = absurd (ground (arith, (apply_policy-allowed _ h).0))
  allowed_parsed (some (some ast ∷ [])) h =
      let (no_error, single, reads, safe) = apply_policy-allowed _ h in
      (ast, refl, is_read-cases _ reads, is_forbidden-IsReadOnly _ safe)
  allowed_parsed (some (a ∷ b ∷ rest)) h = absurd (omega (arith, (apply_policy-allowed _ h).1))

  pub allowed_shape :
      (n : Bytes)
      → normalize_sql sql ≡ n
      → (apply_policy (classify p sql)).allowed ≡ true
      → SingleRead p sql
  unfolding classify
  allowed_shape [] e h =
      absurd (
        ground (arith, (apply_policy-allowed (unknown_with_error p sql) (rw (e, classify) at h)).0))
  allowed_shape (c ∷ cs) e h =
      let (ast, parsed, reads, safe) = allowed_parsed (parse sql) (rw (e, classify) at h) in
      record { ast = ast; not_blank = λ q. cc; parsed = parsed; reads = reads; read_only = safe }

  pub allowed_of_read :
      SingleRead p sql
      → (n : Bytes) → normalize_sql sql ≡ n
      → (apply_policy (classify p sql)).allowed ≡ true
  unfolding classify
  allowed_of_read r [] e = absurd (r.not_blank e)
  allowed_of_read r (c ∷ cs) e =
      rw (e, classify)
        (rw (r.parsed) (
          apply_policy_of_read _ refl refl (omega arith) r.reads
            (IsReadOnly-is_forbidden _ r.read_only)))
