-- ===== src/SqlPolicy/Types.antt =====
-- The data of sqlpolicy/types.go. An `error` field is `true` when it is not nil: the policy only
-- asks whether there is one. The statement hash is a text that the policy passes through.
use web_db.Prelude.{ℕ, Bool, false, String}

pub data Dialect : Type 0 where
  postgresql my_sql unknown_dialect : Dialect

-- `no_kind` is Go's zero value, the empty text.
pub data StatementKind : Type 0 where
  stmt_select stmt_explain stmt_insert stmt_update stmt_delete stmt_ddl : StatementKind
  stmt_call stmt_transaction stmt_other stmt_unknown no_kind : StatementKind

pub record LexicalFeatures : Type 0 where
  pub has_exec_comment : Bool

pub record AstFeatures : Type 0 where
  pub has_cte : Bool
  pub has_recursive_cte : Bool
  pub has_set_operation : Bool
  pub has_locking_clause : Bool
  pub has_select_into : Bool
  pub has_into_outfile : Bool
  pub has_into_var : Bool
  pub has_assignment : Bool
  pub has_explain_analyze : Bool
  pub has_modifying_cte : Bool
  pub has_explain_dml_ddl : Bool
  pub has_nested_explain : Bool
  pub has_dangerous_func : Bool

pub record ClassificationResult : Type 0 where
  pub statement_kind : StatementKind
  pub lexical_features : LexicalFeatures
  pub ast_features : AstFeatures
  pub statement_hash : String
  pub statement_count : ℕ
  pub lex_error : Bool
  pub parse_error : Bool

pub data StableReasonCode : Type 0 where
  allowed_code parse_error_code multiple_statements not_allowed : StableReasonCode
  unsupported empty_sql ecm_detected : StableReasonCode

pub record PolicyDecision : Type 0 where
  pub allowed : Bool
  pub reason_code : StableReasonCode
  pub classification : ClassificationResult

pub record MySqlLexerMode : Type 0 where
  pub no_backslash_escapes : Bool
  pub ansi_quotes : Bool

-- Go's zero values.
abbrev pub no_features : AstFeatures
no_features = record {
  has_cte = false;
  has_recursive_cte = false;
  has_set_operation = false;
  has_locking_clause = false;
  has_select_into = false;
  has_into_outfile = false;
  has_into_var = false;
  has_assignment = false;
  has_explain_analyze = false;
  has_modifying_cte = false;
  has_explain_dml_ddl = false;
  has_nested_explain = false;
  has_dangerous_func = false;
}

abbrev pub zero_classification : ClassificationResult
zero_classification = record {
  statement_kind = no_kind;
  lexical_features = record { has_exec_comment = false };
  ast_features = no_features;
  statement_hash = "";
  statement_count = 0;
  lex_error = false;
  parse_error = false;
}
