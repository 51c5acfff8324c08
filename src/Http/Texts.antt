-- ===== src/Http/Texts.antt =====
-- The texts of the codes of execution/service.go and executionhttp/code.go, and how
-- `mapExecutionCode` keeps them.
use web_db.Prelude.{
  ◌≡◌, refl, ap, ◌∙◌, sym, ◌⊎◌, inl, inr, Option, none, some, String, str_eq, if◌then◌else◌, arith,
}
use web_db.Execution.Codes as Execution
use web_db.Http.Codes.{
  PublicCode, map_execution_code, invalid_request, invalid_scope, unauthorized, forbidden,
  connection_not_found, policy_not_configured, read_not_allowed, invalid_page_token, empty_sql,
  sql_parse_error, multiple_statements, statement_not_allowed, executable_comment_detected,
  unsupported_statement, unsupported_query, query_timeout, query_cancelled, rate_limited,
  connection_busy, result_too_large, pagination_capacity_exhausted, connection_unavailable,
  database_error, audit_failed, internal_error,
}

-- The text of an execution code.
unfoldable pub code_text : Execution.Code → String
code_text Execution.invalid_scope = "invalid_scope"
code_text Execution.unauthorized = "unauthorized"
code_text Execution.forbidden = "forbidden"
code_text Execution.connection_not_found = "connection_not_found"
code_text Execution.policy_not_configured = "policy_not_configured"
code_text Execution.read_not_allowed = "read_not_allowed"
code_text Execution.internal_error = "internal_error"
code_text Execution.unsupported_engine = "unsupported_engine"
code_text Execution.rate_limited = "rate_limited"
code_text Execution.connection_busy = "connection_busy"
code_text Execution.connection_unavailable = "connection_unavailable"
code_text Execution.database_error = "database_error"
code_text Execution.result_too_large = "result_too_large"
code_text Execution.query_timeout = "query_timeout"
code_text Execution.query_cancelled = "query_cancelled"
code_text Execution.execution_timeout = "execution_timeout"
code_text Execution.execution_cancelled = "execution_cancelled"
code_text Execution.unsupported_query = "unsupported_query"
code_text Execution.connection_config_conflict = "connection_config_conflict"
code_text Execution.invalid_page_token = "invalid_page_token"
code_text Execution.pagination_capacity_exhausted = "pagination_capacity_exhausted"
code_text Execution.audit_failed = "audit_failed"
code_text Execution.statement_not_allowed = "statement_not_allowed"
code_text Execution.sql_parse_error = "sql_parse_error"
code_text Execution.multiple_statements = "multiple_statements"
code_text Execution.unsupported_statement = "unsupported_statement"
code_text Execution.empty_sql = "empty_sql"
code_text Execution.executable_comment_detected = "executable_comment_detected"
code_text Execution.credential_not_found = "credential_not_found"
code_text Execution.credential_retired = "credential_retired"
code_text Execution.decryption_failed = "decryption_failed"
code_text Execution.unknown_kek_version = "unknown_kek_version"
code_text Execution.wrap_quota_exhausted = "wrap_quota_exhausted"
code_text Execution.invalid_payload = "invalid_payload"
code_text Execution.payload_too_large = "payload_too_large"

-- The text of a public code, which is what the client reads.
unfoldable pub public_text : PublicCode → String
public_text invalid_request = "invalid_request"
public_text invalid_scope = "invalid_scope"
public_text unauthorized = "unauthorized"
public_text forbidden = "forbidden"
public_text connection_not_found = "connection_not_found"
public_text policy_not_configured = "policy_not_configured"
public_text read_not_allowed = "read_not_allowed"
public_text invalid_page_token = "invalid_page_token"
public_text empty_sql = "empty_sql"
public_text sql_parse_error = "sql_parse_error"
public_text multiple_statements = "multiple_statements"
public_text statement_not_allowed = "statement_not_allowed"
public_text executable_comment_detected = "executable_comment_detected"
public_text unsupported_statement = "unsupported_statement"
public_text unsupported_query = "unsupported_query"
public_text query_timeout = "query_timeout"
public_text query_cancelled = "query_cancelled"
public_text rate_limited = "rate_limited"
public_text connection_busy = "connection_busy"
public_text result_too_large = "result_too_large"
public_text pagination_capacity_exhausted = "pagination_capacity_exhausted"
public_text connection_unavailable = "connection_unavailable"
public_text database_error = "database_error"
public_text audit_failed = "audit_failed"
public_text internal_error = "internal_error"

-- The public code of a text.
unfoldable pub read_code : String → Option PublicCode
read_code s =
    if str_eq s "invalid_request"
    then some invalid_request
    else if str_eq s "invalid_scope"
    then some invalid_scope
    else if str_eq s "unauthorized"
    then some unauthorized
    else if str_eq s "forbidden"
    then some forbidden
    else if str_eq s "connection_not_found"
    then some connection_not_found
    else if str_eq s "policy_not_configured"
    then some policy_not_configured
    else if str_eq s "read_not_allowed"
    then some read_not_allowed
    else if str_eq s "invalid_page_token"
    then some invalid_page_token
    else if str_eq s "empty_sql"
    then some empty_sql
    else if str_eq s "sql_parse_error"
    then some sql_parse_error
    else if str_eq s "multiple_statements"
    then some multiple_statements
    else if str_eq s "statement_not_allowed"
    then some statement_not_allowed
    else if str_eq s "executable_comment_detected"
    then some executable_comment_detected
    else if str_eq s "unsupported_statement"
    then some unsupported_statement
    else if str_eq s "unsupported_query"
    then some unsupported_query
    else if str_eq s "query_timeout"
    then some query_timeout
    else if str_eq s "query_cancelled"
    then some query_cancelled
    else if str_eq s "rate_limited"
    then some rate_limited
    else if str_eq s "connection_busy"
    then some connection_busy
    else if str_eq s "result_too_large"
    then some result_too_large
    else if str_eq s "pagination_capacity_exhausted"
    then some pagination_capacity_exhausted
    else if str_eq s "connection_unavailable"
    then some connection_unavailable
    else if str_eq s "database_error"
    then some database_error
    else if str_eq s "audit_failed"
    then some audit_failed
    else if str_eq s "internal_error"
    then some internal_error
    else none

read_code-public_text : (h : PublicCode) → read_code (public_text h) ≡ some h
unfolding read_code public_text
read_code-public_text invalid_request = refl
read_code-public_text invalid_scope = refl
read_code-public_text unauthorized = refl
read_code-public_text forbidden = refl
read_code-public_text connection_not_found = refl
read_code-public_text policy_not_configured = refl
read_code-public_text read_not_allowed = refl
read_code-public_text invalid_page_token = refl
read_code-public_text empty_sql = refl
read_code-public_text sql_parse_error = refl
read_code-public_text multiple_statements = refl
read_code-public_text statement_not_allowed = refl
read_code-public_text executable_comment_detected = refl
read_code-public_text unsupported_statement = refl
read_code-public_text unsupported_query = refl
read_code-public_text query_timeout = refl
read_code-public_text query_cancelled = refl
read_code-public_text rate_limited = refl
read_code-public_text connection_busy = refl
read_code-public_text result_too_large = refl
read_code-public_text pagination_capacity_exhausted = refl
read_code-public_text connection_unavailable = refl
read_code-public_text database_error = refl
read_code-public_text audit_failed = refl
read_code-public_text internal_error = refl

-- A code's text is no public code's, or it is that of the code it is mapped to.
namesake :
    (c : Execution.Code)
    → (read_code (code_text c) ≡ none) ⊎ (read_code (code_text c) ≡ some (map_execution_code c))
unfolding read_code code_text map_execution_code
namesake Execution.invalid_scope = inr refl
namesake Execution.unauthorized = inr refl
namesake Execution.forbidden = inr refl
namesake Execution.connection_not_found = inr refl
namesake Execution.policy_not_configured = inr refl
namesake Execution.read_not_allowed = inr refl
namesake Execution.internal_error = inr refl
namesake Execution.unsupported_engine = inl refl
namesake Execution.rate_limited = inr refl
namesake Execution.connection_busy = inr refl
namesake Execution.connection_unavailable = inr refl
namesake Execution.database_error = inr refl
namesake Execution.result_too_large = inr refl
namesake Execution.query_timeout = inr refl
namesake Execution.query_cancelled = inr refl
namesake Execution.execution_timeout = inl refl
namesake Execution.execution_cancelled = inl refl
namesake Execution.unsupported_query = inr refl
namesake Execution.connection_config_conflict = inl refl
namesake Execution.invalid_page_token = inr refl
namesake Execution.pagination_capacity_exhausted = inr refl
namesake Execution.audit_failed = inr refl
namesake Execution.statement_not_allowed = inr refl
namesake Execution.sql_parse_error = inr refl
namesake Execution.multiple_statements = inr refl
namesake Execution.unsupported_statement = inr refl
namesake Execution.empty_sql = inr refl
namesake Execution.executable_comment_detected = inr refl
namesake Execution.credential_not_found = inl refl
namesake Execution.credential_retired = inl refl
namesake Execution.decryption_failed = inl refl
namesake Execution.unknown_kek_version = inl refl
namesake Execution.wrap_quota_exhausted = inl refl
namesake Execution.invalid_payload = inl refl
namesake Execution.payload_too_large = inl refl

-- Where a public code has the text of an execution code, that code is mapped to it.
pub map_execution_code-public_text :
    (c : Execution.Code) (h : PublicCode) → public_text h ≡ code_text c → map_execution_code c ≡ h
map_execution_code-public_text c h q =
    let found = sym (ap read_code q) ∙ read_code-public_text h in
    elim (namesake c) [ inl missing ↦ ground arith | inr named ↦ ground arith ]
