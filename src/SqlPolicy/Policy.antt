-- ===== src/SqlPolicy/Policy.antt =====
-- sqlpolicy/policy.go: the decision from the lexer, the classifier and the session mode.
pub mod Decisions
use web_db.Prelude.{Bool, true, false, ◌||◌, [], ◌∷◌, Bytes, ltb, if◌then◌else◌, Result, ok, err}
use web_db.SqlPolicy.Types.{
  Dialect, postgresql, my_sql, unknown_dialect, StatementKind, stmt_select, stmt_explain,
  stmt_unknown, AstFeatures, ClassificationResult, zero_classification, StableReasonCode,
  allowed_code, parse_error_code, multiple_statements, not_allowed, unsupported, empty_sql,
  ecm_detected, PolicyDecision, MySqlLexerMode,
}
use web_db.SqlPolicy.EcmLexer.{scan, LexError}
use web_db.SqlPolicy.Classifier.{Parser, normalize_sql, classify}

abbrev pub reject : StableReasonCode → ClassificationResult → PolicyDecision
reject code c = record { allowed = false; reason_code = code; classification = c }

abbrev pub is_unknown : StatementKind → Bool
is_unknown stmt_unknown = true
is_unknown _ = false

-- `!= StmtSelect && != StmtExplain`, the other way round
abbrev pub is_read : StatementKind → Bool
is_read stmt_select = true
is_read stmt_explain = true
is_read _ = false

abbrev pub is_forbidden : AstFeatures → Bool
is_forbidden f =
    f.has_locking_clause || f.has_select_into || f.has_into_outfile || f.has_into_var
    || f.has_assignment || f.has_explain_analyze || f.has_modifying_cte || f.has_explain_dml_ddl
    || f.has_nested_explain || f.has_dangerous_func

unfoldable pub apply_policy : ClassificationResult → PolicyDecision
apply_policy c =
    if c.parse_error || c.lex_error
    then reject parse_error_code c
    else if ltb 1 c.statement_count
    then reject multiple_statements c
    else if is_unknown c.statement_kind
    then reject unsupported c
    else if is_read c.statement_kind
    then (if is_forbidden c.ast_features
        then reject not_allowed c
        else record { allowed = true; reason_code = allowed_code; classification = c })
    else reject not_allowed c

module _ (pg my : Parser) where
  decide_pg : Bytes → PolicyDecision
  decide_pg sql = apply_policy (classify pg sql)

  -- What `decideMySQL` does with the lexer's answer.
  after_scan : Bytes → Result LexError Bool → PolicyDecision
  after_scan sql (err e) = reject parse_error_code (record zero_classification { lex_error = true })
  after_scan sql (ok true) =
      reject ecm_detected
        (record zero_classification { lexical_features = record { has_exec_comment = true } })
  after_scan sql (ok false) =
      apply_policy
        (record (classify my sql) { lexical_features = record { has_exec_comment = false } })

  decide_my_sql : Bytes → MySqlLexerMode → PolicyDecision
  unfolding after_scan
  decide_my_sql sql mode =
      if mode.ansi_quotes || mode.no_backslash_escapes
      then reject parse_error_code (record zero_classification { lex_error = true })
      else after_scan sql (scan mode sql)

  decide_dialect : Dialect → Bytes → MySqlLexerMode → PolicyDecision
  unfolding decide_pg decide_my_sql
  decide_dialect postgresql sql mode = decide_pg sql
  decide_dialect my_sql sql mode = decide_my_sql sql mode
  decide_dialect unknown_dialect sql mode = reject unsupported zero_classification

  -- `sql == ""` is the case of the empty list, whose normal form is empty too.
  unfoldable pub decide : Dialect → Bytes → MySqlLexerMode → PolicyDecision
  unfolding decide_dialect
  decide dialect [] mode = reject empty_sql zero_classification
  decide dialect (c ∷ cs) mode = elim (normalize_sql (c ∷ cs)) [
    | [] ↦ reject empty_sql zero_classification
    | _ ∷ _ ↦ decide_dialect dialect (c ∷ cs) mode
  ]
