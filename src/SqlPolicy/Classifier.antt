-- ===== src/SqlPolicy/Classifier.antt =====
-- The entry points of sqlpolicy/classifier.go. The parsers are third-party: their results, and
-- the walk over the statement that they return, are parameters. `none` is a parse error, and a
-- statement `none` is one without an AST.
use web_db.Prelude.{true, String, List, [], ◌∷◌, Option, none, some, Bytes, length}
use web_db.SqlPolicy.Types.{
  StatementKind, stmt_unknown, AstFeatures, ClassificationResult, zero_classification,
}
use web_db.SqlPolicy.Text.{trim_space, replace_crlf, replace_cr}

unfoldable pub normalize_sql : Bytes → Bytes
unfolding trim_space replace_crlf replace_cr
normalize_sql sql = replace_cr (replace_crlf (trim_space sql))

-- A parser of one dialect: `parse`, the features of a statement, and the hash function.
pub record Parser : Type 1 where
  pub Ast : Type 0
  pub parse : Bytes → Option (List (Option Ast))
  pub classify_ast : Ast → StatementKind × AstFeatures
  pub sha256_hex : Bytes → String

module _ (p : Parser) where
  open p use {Ast, parse, classify_ast, sha256_hex}

  unfoldable pub statement_hash : Bytes → String
  statement_hash sql = sha256_hex (normalize_sql sql)

  unfoldable pub unknown_with_error : Bytes → ClassificationResult
  unfolding statement_hash
  unknown_with_error sql = record zero_classification {
    statement_kind = stmt_unknown;
    statement_hash = statement_hash sql;
    parse_error = true;
  }

  unfoldable pub classify_statements : Bytes → List (Option Ast) → ClassificationResult
  unfolding unknown_with_error statement_hash
  classify_statements sql [] = unknown_with_error sql
  classify_statements sql (none ∷ []) = unknown_with_error sql
  classify_statements sql (some ast ∷ []) = record zero_classification {
    statement_kind = (classify_ast ast).0;
    statement_hash = statement_hash sql;
    statement_count = 1;
    ast_features = (classify_ast ast).1;
  }
  classify_statements sql (a ∷ b ∷ rest) = record zero_classification {
    statement_kind = stmt_unknown;
    statement_hash = statement_hash sql;
    statement_count = length (a ∷ b ∷ rest);
  }

  unfoldable pub classify_parsed : Bytes → Option (List (Option Ast)) → ClassificationResult
  unfolding unknown_with_error classify_statements
  classify_parsed sql none = unknown_with_error sql
  classify_parsed sql (some statements) = classify_statements sql statements

  -- `classifyPG` and `classifyMySQL`
  unfoldable pub classify : Bytes → ClassificationResult
  unfolding unknown_with_error classify_parsed
  classify sql = elim (normalize_sql sql) [
    | [] ↦ unknown_with_error sql
    | _ ∷ _ ↦ classify_parsed sql (parse sql)
  ]
