-- ===== src/Http/Tests.antt =====
-- Answers to failed requests (executionhttp/), and the theorems about them there.
use web_db.Prelude.{◌≡◌, refl, pos, true, none, some}
use web_db.Execution.Codes as Execution
use web_db.Execution.Data.{ExecuteResult}
use web_db.Http.Codes.{rate_limited, internal_error, map_execution_code}
use web_db.Http.Texts.{code_text, public_text, map_execution_code-public_text}
use web_db.Http.Answer.{IsFailure, write_failure, write_failure-IsFailure}

abbrev busy_result : ExecuteResult
busy_result = record {
  decision = none;
  credential_resolved = true;
  adapter_called = true;
  result = none;
  error_code = some Execution.connection_busy;
  trace_id = "trace";
  execution_id = none;
  next_page_token = none;
  audit_event_id = none;
  audit_state = none;
  outcome = none;
  engine = "mysql";
  page_size = pos 100;
}

write_failure-IsFailure_example : IsFailure true (write_failure (some busy_result))
write_failure-IsFailure_example = write_failure-IsFailure (some busy_result)

map_execution_code-public_text_example : map_execution_code Execution.rate_limited ≡ rate_limited
unfolding code_text public_text
map_execution_code-public_text_example =
    map_execution_code-public_text Execution.rate_limited rate_limited refl

-- A lost credential has no public code of its own.
credential_run : map_execution_code Execution.credential_not_found ≡ internal_error
unfolding map_execution_code
credential_run = refl
