-- ===== src/Http/Codes.antt =====
-- The public codes of executionhttp/code.go, and the mapping of the execution's codes to them
-- (`mapExecutionCode` and `mapExecutionResultError` of executionhttp/handlers.go).
use web_db.Prelude.{ℕ, Option, none, some}
use web_db.Execution.Codes as Execution
use web_db.Execution.Data.{ExecuteResult}

-- `StableErrorCode`
pub data PublicCode : Type 0 where
  invalid_request invalid_scope unauthorized forbidden connection_not_found : PublicCode
  policy_not_configured read_not_allowed invalid_page_token empty_sql sql_parse_error : PublicCode
  multiple_statements statement_not_allowed executable_comment_detected : PublicCode
  unsupported_statement unsupported_query query_timeout query_cancelled rate_limited : PublicCode
  connection_busy result_too_large pagination_capacity_exhausted connection_unavailable : PublicCode
  database_error audit_failed internal_error : PublicCode

unfoldable pub status_for : PublicCode → ℕ
status_for invalid_request = 400
status_for invalid_scope = 400
status_for invalid_page_token = 400
status_for unauthorized = 401
status_for forbidden = 403
status_for read_not_allowed = 403
status_for connection_not_found = 404
status_for policy_not_configured = 404
status_for empty_sql = 422
status_for sql_parse_error = 422
status_for multiple_statements = 422
status_for statement_not_allowed = 422
status_for executable_comment_detected = 422
status_for unsupported_statement = 422
status_for unsupported_query = 422
status_for result_too_large = 422
status_for query_timeout = 504
status_for query_cancelled = 499
status_for rate_limited = 429
status_for connection_busy = 429
status_for pagination_capacity_exhausted = 429
status_for connection_unavailable = 503
status_for database_error = 500
status_for audit_failed = 500
status_for internal_error = 500

-- The codes without a case of their own fall to the default.
unfoldable pub map_execution_code : Execution.Code → PublicCode
map_execution_code Execution.invalid_scope = invalid_scope
map_execution_code Execution.unauthorized = unauthorized
map_execution_code Execution.forbidden = forbidden
map_execution_code Execution.connection_not_found = connection_not_found
map_execution_code Execution.policy_not_configured = policy_not_configured
map_execution_code Execution.read_not_allowed = read_not_allowed
map_execution_code Execution.unsupported_query = unsupported_query
map_execution_code Execution.invalid_page_token = invalid_page_token
map_execution_code Execution.pagination_capacity_exhausted = pagination_capacity_exhausted
map_execution_code Execution.query_timeout = query_timeout
map_execution_code Execution.execution_timeout = query_timeout
map_execution_code Execution.query_cancelled = query_cancelled
map_execution_code Execution.execution_cancelled = query_cancelled
map_execution_code Execution.rate_limited = rate_limited
map_execution_code Execution.connection_busy = connection_busy
map_execution_code Execution.connection_unavailable = connection_unavailable
map_execution_code Execution.database_error = database_error
map_execution_code Execution.result_too_large = result_too_large
map_execution_code Execution.audit_failed = audit_failed
map_execution_code Execution.statement_not_allowed = statement_not_allowed
map_execution_code Execution.connection_config_conflict = connection_unavailable
map_execution_code Execution.unsupported_engine = internal_error
map_execution_code Execution.sql_parse_error = sql_parse_error
map_execution_code Execution.multiple_statements = multiple_statements
map_execution_code Execution.executable_comment_detected = executable_comment_detected
map_execution_code Execution.unsupported_statement = unsupported_statement
map_execution_code Execution.empty_sql = empty_sql
map_execution_code _ = internal_error

-- Of a result and its code, either of which may be missing.
unfoldable pub map_result_code : Option Execution.Code → PublicCode
unfolding map_execution_code
map_result_code none = internal_error
map_result_code (some c) = map_execution_code c

unfoldable pub map_execution_result_error : Option ExecuteResult → PublicCode
unfolding map_result_code
map_execution_result_error none = internal_error
map_execution_result_error (some r) = map_result_code r.error_code
