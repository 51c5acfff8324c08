-- ===== src/Execution/Codes.antt =====
-- The stable error codes of execution/service.go, the errors that the pipeline gets from what it
-- calls, and the functions of execution/service.go and pipeline.go that map one to the other.
use web_db.Prelude.{Bool, true, false, Option, none, some, if◌then◌else◌, String, str_eq}
use web_db.SqlPolicy.Types as Policy
use web_db.SqlPolicy.Types.{StableReasonCode, Dialect}
use web_db.Pagination.Registry as Registry

-- `StableErrorCode`, with the codes that the policy and the credentials add to it. The empty code
-- is the `none` of an option.
pub data Code : Type 0 where
  invalid_scope unauthorized forbidden connection_not_found policy_not_configured : Code
  read_not_allowed internal_error unsupported_engine rate_limited connection_busy : Code
  connection_unavailable database_error result_too_large query_timeout query_cancelled : Code
  execution_timeout execution_cancelled unsupported_query connection_config_conflict : Code
  invalid_page_token pagination_capacity_exhausted audit_failed statement_not_allowed : Code
  sql_parse_error multiple_statements unsupported_statement empty_sql : Code
  executable_comment_detected credential_not_found credential_retired decryption_failed : Code
  unknown_kek_version wrap_quota_exhausted invalid_payload payload_too_large : Code

-- What `errors.Is` says of an error.
pub record Cause : Type 0 where
  pub no_rows : Bool
  pub deadline_exceeded : Bool
  pub canceled : Bool

-- The tests on the context, which end the mappings.
unfoldable pub context_code : Cause → Code → Code
context_code e otherwise =
    if e.deadline_exceeded then query_timeout else if e.canceled then query_cancelled else otherwise

unfoldable pub map_membership_error : Cause → Code
unfolding context_code
map_membership_error e = if e.no_rows then forbidden else context_code e internal_error

unfoldable pub map_connection_error : Cause → Code
unfolding context_code
map_connection_error e = if e.no_rows then connection_not_found else context_code e internal_error

unfoldable pub map_policy_store_error : Cause → Code
unfolding context_code
map_policy_store_error e = context_code e internal_error

-- The code that `errors.As` finds in a credential error, if any.
pub data CredentialCode : Type 0 where
  credential_decryption_failed unknown_suite credential_unknown_kek_version : CredentialCode
  credential_internal_error invalid_kek not_found retired version_conflict : CredentialCode
  credential_in_use quota_exhausted bad_payload large_payload : CredentialCode

unfoldable pub map_credential_error : Option CredentialCode → Code
map_credential_error none = internal_error
map_credential_error (some not_found) = credential_not_found
map_credential_error (some retired) = credential_retired
map_credential_error (some credential_decryption_failed) = decryption_failed
map_credential_error (some credential_unknown_kek_version) = unknown_kek_version
map_credential_error (some quota_exhausted) = wrap_quota_exhausted
map_credential_error (some _) = internal_error

-- `credentials.IsDecryptFailureCode`
unfoldable pub is_decrypt_failure_code : Code → Bool
is_decrypt_failure_code decryption_failed = true
is_decrypt_failure_code unknown_kek_version = true
is_decrypt_failure_code invalid_payload = true
is_decrypt_failure_code payload_too_large = true
is_decrypt_failure_code _ = false

unfoldable pub map_pagination_error : Registry.ErrorCode → Code
map_pagination_error Registry.invalid_page_token = invalid_page_token
map_pagination_error Registry.pagination_capacity = pagination_capacity_exhausted
map_pagination_error Registry.registry_closed = internal_error
map_pagination_error Registry.handle_generation = internal_error

-- `adapter.ErrorCode`
pub data AdapterCode : Type 0 where
  adapter_unsupported_engine unsupported_capability invalid_config connection_failed : AdapterCode
  conn_pool_exhausted adapter_rate_limited adapter_query_timeout query_canceled : AdapterCode
  adapter_invalid_page_token adapter_database_error pool_closed stale_config : AdapterCode
  config_conflict adapter_unsupported_query adapter_result_too_large : AdapterCode
  pagination_capacity : AdapterCode

-- An error of the adapter: the code of the `AdapterError` in its chain, if any, and its cause.
pub record AdapterError : Type 0 where
  pub code : Option AdapterCode
  pub cause : Cause

-- `none` where the switch has no case for the code.
unfoldable pub adapter_code : Cause → AdapterCode → Option Code
unfolding context_code
adapter_code e adapter_rate_limited = some rate_limited
adapter_code e conn_pool_exhausted = some connection_busy
adapter_code e adapter_query_timeout = some query_timeout
adapter_code e query_canceled = some query_cancelled
adapter_code e adapter_unsupported_query = some unsupported_query
adapter_code e config_conflict = some connection_config_conflict
adapter_code e adapter_invalid_page_token = some invalid_page_token
adapter_code e adapter_result_too_large = some result_too_large
adapter_code e pagination_capacity = some pagination_capacity_exhausted
adapter_code e connection_failed = some connection_unavailable
adapter_code e stale_config = some connection_unavailable
adapter_code e pool_closed = some connection_unavailable
adapter_code e invalid_config = some connection_unavailable
adapter_code e adapter_unsupported_engine = some connection_unavailable
adapter_code e adapter_database_error = some (context_code e database_error)
adapter_code e unsupported_capability = none

abbrev code_or : Code → Option Code → Code
code_or otherwise none = otherwise
code_or otherwise (some c) = c

unfoldable pub map_adapter_error : AdapterError → Code
unfolding adapter_code context_code
map_adapter_error e = elim e.code [
  | none ↦ context_code e.cause internal_error
  | some c ↦ code_or (context_code e.cause internal_error) (adapter_code e.cause c)
]

-- `mapDialect`, on the engine's text.
unfoldable pub map_dialect : String → Option Dialect
map_dialect engine =
    if str_eq engine "postgresql"
    then some Policy.postgresql
    else if str_eq engine "mysql"
    then some Policy.my_sql
    else none

unfoldable pub map_policy_reason : StableReasonCode → Code
map_policy_reason Policy.parse_error_code = sql_parse_error
map_policy_reason Policy.multiple_statements = multiple_statements
map_policy_reason Policy.not_allowed = statement_not_allowed
map_policy_reason Policy.unsupported = unsupported_statement
map_policy_reason Policy.ecm_detected = executable_comment_detected
map_policy_reason Policy.empty_sql = empty_sql
map_policy_reason Policy.allowed_code = internal_error
