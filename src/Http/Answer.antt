-- ===== src/Http/Answer.antt =====
-- The answer to a request that failed (`writeError` of executionhttp/envelope.go, and the failing
-- branch of `handleExecutions` and `handleQueryPages` of executionhttp/handlers.go).
use web_db.Prelude.{
  ℕ, ◌≤◌, ◌≡◌, ◌↔◌, refl, Bool, true, false, Option, none, some, if◌then◌else◌, arith, ◌==◌, leb,
  not, ◌&&◌, subst,
}
use web_db.Execution.Codes as Execution
use web_db.Execution.Data.{ExecuteResult}
use web_db.Http.Codes.{
  PublicCode, status_for, map_execution_code, map_result_code, map_execution_result_error,
}

-- The seconds of the Retry-After header, if it is set, and the code that the body repeats as its
-- message.
pub record Answer : Type 0 where
  pub status : ℕ
  pub retry_after : Option ℕ
  pub code : PublicCode

-- `retryAfterSeconds` where the header is set.
abbrev header_if : Bool → Option ℕ
header_if b = if b then some 1 else none

unfoldable pub write_error : PublicCode → Answer
unfolding status_for
write_error c = record {
  status = status_for c;
  retry_after = header_if (status_for c == 429);
  code = c;
}

-- The call that the handlers answer an error of the pipeline with.
unfoldable pub write_failure : Option ExecuteResult → Answer
unfolding write_error map_execution_result_error
write_failure result = write_error (map_execution_result_error result)

-- The execution's codes that a client may try again after.
abbrev is_congested : Execution.Code → Bool
is_congested Execution.rate_limited = true
is_congested Execution.connection_busy = true
is_congested Execution.pagination_capacity_exhausted = true
is_congested _ = false

abbrev congested : Option Execution.Code → Bool
congested none = false
congested (some c) = is_congested c

abbrev congested_result : Option ExecuteResult → Bool
congested_result none = false
congested_result (some r) = congested r.error_code

-- A failing answer: an error status, and Retry-After exactly where the request may be tried again.
pub record IsFailure (busy : Bool) (a : Answer) : Type 0 where
  pub at_least : 400 ≤ a.status
  pub at_most : a.status ≤ 599
  pub too_many : (a.status ≡ 429) ↔ (busy ≡ true)
  pub retry : a.retry_after ≡ header_if busy

-- The status is one of an error, and it is 429 exactly where the code says to try again.
is_settled : Bool → ℕ → Bool
is_settled busy s = leb 400 s && leb s 599 && (if busy then s == 429 else not (s == 429))

settled_other : (s : ℕ) → is_settled false s ≡ true → s ≡ 429 → false ≡ true
unfolding is_settled
settled_other s q a = subst (λ n. is_settled false n ≡ true) a q

is_settled-status :
    (busy : Bool) (s : ℕ)
    → is_settled busy s ≡ true
    → (400 ≤ s) × (s ≤ 599) × ((s ≡ 429) ↔ (busy ≡ true))
unfolding is_settled
is_settled-status true s q = (ground arith, ground arith, ((λ _. refl), (λ _. ground arith)))
is_settled-status false s q =
    (ground arith, ground arith, ((λ a. settled_other s q a), (λ b. ground arith)))

is_settled-retry :
    (busy : Bool) (s : ℕ) → is_settled busy s ≡ true → header_if (s == 429) ≡ header_if busy
unfolding is_settled
is_settled-retry true s q = ground arith
is_settled-retry false s q = ground arith

settled-IsFailure :
    (busy : Bool) (h : PublicCode)
    → is_settled busy (status_for h) ≡ true
    → IsFailure busy (write_error h)
unfolding write_error
settled-IsFailure busy h q =
    let facts = is_settled-status busy (status_for h) q in
    record {
      at_least = facts.0;
      at_most = facts.1;
      too_many = facts.2;
      retry = is_settled-retry busy (status_for h) q;
    }

code-settled :
    (c : Execution.Code) → is_settled (is_congested c) (status_for (map_execution_code c)) ≡ true
unfolding is_settled status_for map_execution_code
code-settled Execution.invalid_scope = refl
code-settled Execution.unauthorized = refl
code-settled Execution.forbidden = refl
code-settled Execution.connection_not_found = refl
code-settled Execution.policy_not_configured = refl
code-settled Execution.read_not_allowed = refl
code-settled Execution.internal_error = refl
code-settled Execution.unsupported_engine = refl
code-settled Execution.rate_limited = refl
code-settled Execution.connection_busy = refl
code-settled Execution.connection_unavailable = refl
code-settled Execution.database_error = refl
code-settled Execution.result_too_large = refl
code-settled Execution.query_timeout = refl
code-settled Execution.query_cancelled = refl
code-settled Execution.execution_timeout = refl
code-settled Execution.execution_cancelled = refl
code-settled Execution.unsupported_query = refl
code-settled Execution.connection_config_conflict = refl
code-settled Execution.invalid_page_token = refl
code-settled Execution.pagination_capacity_exhausted = refl
code-settled Execution.audit_failed = refl
code-settled Execution.statement_not_allowed = refl
code-settled Execution.sql_parse_error = refl
code-settled Execution.multiple_statements = refl
code-settled Execution.unsupported_statement = refl
code-settled Execution.empty_sql = refl
code-settled Execution.executable_comment_detected = refl
code-settled Execution.credential_not_found = refl
code-settled Execution.credential_retired = refl
code-settled Execution.decryption_failed = refl
code-settled Execution.unknown_kek_version = refl
code-settled Execution.wrap_quota_exhausted = refl
code-settled Execution.invalid_payload = refl
code-settled Execution.payload_too_large = refl

result_code-settled :
    (c : Option Execution.Code) → is_settled (congested c) (status_for (map_result_code c)) ≡ true
unfolding is_settled status_for map_result_code
result_code-settled none = refl
result_code-settled (some c) = code-settled c

result-settled :
    (r : Option ExecuteResult)
    → is_settled (congested_result r) (status_for (map_execution_result_error r)) ≡ true
unfolding is_settled status_for map_execution_result_error
result-settled none = refl
result-settled (some r) = result_code-settled r.error_code

-- Whatever result comes with an error of the pipeline, the answer has a status from 400 to 599,
-- which is 429 exactly where the result's code is rate_limited, connection_busy or
-- pagination_capacity_exhausted; then, and only then, it says to try again after one second.
pub write_failure-IsFailure :
    (result : Option ExecuteResult) → IsFailure (congested_result result) (write_failure result)
unfolding write_failure
write_failure-IsFailure result =
    settled-IsFailure (congested_result result) (map_execution_result_error result)
      (result-settled result)
