-- ===== src/Execution/NextPage.antt =====
-- `ExecuteNextPage` of execution/pipeline.go: the token is claimed, everything that was checked for
-- the first page is checked again, and the token ends rotated, completed or aborted.
mod Checks
unfoldable pub use Checks.*
use web_db.Prelude.{
  ℤ, true, not, ◌&&◌, String, Option, none, some, Result, ok, err, ℤ_eq, if◌then◌else◌,
}
use web_db.QueryPlan.Plan.{SortSpec}
use web_db.QueryPlan.NextPage.{VerifiedNextPagePlan}
use web_db.QueryPlan.Value.{Value}
use web_db.Prelude.{List, []}
use web_db.Pagination.Quota.{Registry}
use web_db.Pagination.State.{ContinuationState}
use web_db.Pagination.Registry as Calls
use web_db.Pagination.Registry.{Claim, claim, rotate, complete}
use web_db.Execution.Codes.{
  Code, internal_error, audit_failed, invalid_page_token, AdapterError, map_adapter_error,
  adapter_database_error, map_pagination_error,
}
use web_db.Execution.Data.{ConnectionPolicy, QueryResult, NextPageRequest}
use web_db.Execution.World.{
  Env, World, Program, give, look, change, note, set_result, on_error, deferred, fail, with_code,
  interfere, pages, ◌>>=◌, ◌>>◌, resume, recover, then_do,
}
use web_db.Execution.Audit.{StoreError, fail_audit}
use web_db.Execution.Sorting.{extract_last_values}
use web_db.Execution.Execute.{Task}
use web_db.Execution.Query.{acquire_handle, release_handle, release_if_held, least, has_next}

-- The checks with the handle, and the plan of the page.
unfoldable pub recheck_target : Env → Claim → Task → ℤ → Program Code VerifiedNextPagePlan
unfolding recheck_schema next_plan stop_page
recheck_target env c t max_rows = do
  pool ← look (λ w. env.pool_generation w.log)
  if ℤ_eq pool c.state.pool_generation then give tt else stop_page env c t none invalid_page_token
  recheck_schema env c t
  next_plan env c t max_rows

-- `handle.NextPage`
unfoldable pub run_next_page : Env → VerifiedNextPagePlan → Program AdapterError QueryResult
run_next_page env p w = (env.next_page w.log p, note (pages p) w)

abbrev pub release_and_stop_page : Env → Claim → Task → AdapterError → Program Code QueryResult
release_and_stop_page env c t e w =
    stop_page env c t (some e) (map_adapter_error e) (release_handle w)

-- The specs of the state's plan, which a claimed state has.
abbrev pub specs_of : ContinuationState → List SortSpec
specs_of s = elim s.sort_plan [ none ↦ [] | some p ↦ p.specs ]

-- `newState`
abbrev pub rotated_state : ContinuationState → QueryResult → List Value → ℤ → ℤ → ContinuationState
rotated_state s page last max_rows timeout = record s {
  last_sort_values = last;
  cumulative_count = page.total_returned;
  max_rows = max_rows;
  timeout_ms = timeout;
  expires_at = 0;
}

abbrev pub rotate_answer :
    Registry × Result Calls.ErrorCode String → World → Result Code String × World
rotate_answer (r, ok token) w = (ok token, record w { registry = r })
rotate_answer (r, err e) w = (
  err (map_pagination_error e),
  record w {
    registry = r;
    result = record w.result { result = none; error_code = some (map_pagination_error e) };
  },
)

-- `claim.Rotate`: the page is held back if there is no new token.
unfoldable pub rotate_claim : Env → Claim → ContinuationState → Program Code String
unfolding rotate map_pagination_error
rotate_claim env c s w =
    rotate_answer (rotate env.digest (env.clock w.log) (env.draw w.log) c (some s) w.registry) w

abbrev pub last_values : Env → Claim → Option (List Value) → Program Code (List Value)
last_values env c none =
    abort_and_fail env c
      (map_adapter_error (record plain_error { code = some adapter_database_error }))
last_values env c (some vs) = give vs

-- The last page completes the claim, any other rotates it.
unfoldable pub continue_claim : Env → Claim → QueryResult → ℤ → ℤ → Program Code (Unit {0})
unfolding extract_last_values abort_and_fail rotate_claim complete map_adapter_error
continue_claim env c page max_rows timeout =
    if has_next page max_rows
    then (do
      last ← last_values env c (extract_last_values page.rows page.columns (specs_of c.state))
      interfere env
      token ← rotate_claim env c (rotated_state c.state page last max_rows timeout)
      set_result (λ r. record r { next_page_token = some token }))
    else (do interfere env; change (λ w. record w { registry = complete c w.registry }))

abbrev pub abort_and_fail_audit : Env → Claim → StoreError → Program Code (Unit {0})
abort_and_fail_audit env c e = change (abort_claim env c) >> fail_audit

-- With the handle: the target is checked, the page is read, its execution ends, the claim goes on.
unfoldable pub page_with_handle : Env → Claim → Task → ℤ → ℤ → Program Code (Unit {0})
unfolding recheck_target run_next_page stop_page finalize_continuation fail_audit continue_claim
page_with_handle env c t max_rows timeout = do
  plan ← recheck_target env c t max_rows
  set_result (λ r. record r { adapter_called = true })
  page ← on_error (run_next_page env plan) (release_and_stop_page env c t)
  change release_handle
  set_result (λ r. record r { result = some page })
  on_error (finalize_continuation env t none) (abort_and_fail_audit env c)
  continue_claim env c page max_rows timeout

-- Behind the begun execution.
unfoldable pub run_page : Env → Claim → Task → ConnectionPolicy → Program Code (Unit {0})
unfolding resolve_again recheck_revision acquire_handle stop_page page_with_handle
run_page env c t policy = do
  payload ← resolve_again env c t
  cfg ← recheck_revision env c t payload
  on_error (acquire_handle env cfg) (λ e. stop_page env c t (some e) (map_adapter_error e))
  deferred release_if_held (
      page_with_handle env c t (least policy.max_rows c.state.max_rows)
        (least policy.statement_timeout_ms c.state.timeout_ms))

abbrev pub begin_failed : Env → Claim → StoreError → Program Code Task
begin_failed env c e w =
    fail_audit (record (abort_claim env c w) {
      result = with_code audit_failed (abort_claim env c w).result;
    })

-- With the claim.
unfoldable pub claimed_page : Env → NextPageRequest → Claim → Program Code (Unit {0})
unfolding reauthorize begin_continuation_execution fail_audit run_page
claimed_page env req c = do
  authorized ← reauthorize env req c
  t ← on_error (begin_continuation_execution env req c.state authorized.0) (begin_failed env c)
  change (λ w. record w {
    result = record w.result { execution_id = some w.execution.id; trace_id = t.trace };
  })
  run_page env c t authorized.1

abbrev pub claim_answer :
    Registry × Result Calls.ErrorCode Claim → World → Result Code Claim × World
claim_answer (r, ok c) w = (ok c, record w { registry = r })
claim_answer (r, err e) w = fail (map_pagination_error e) (record w { registry = r })

-- `registry.Claim`
unfoldable pub claim_token : Env → String → Program Code Claim
unfolding claim map_pagination_error
claim_token env token w = claim_answer (claim env.digest (env.clock w.log) token w.registry) w

unfoldable pub execute_next_page : Env → NextPageRequest → Program Code (Unit {0})
unfolding claim_token claimed_page abort_claim
execute_next_page env req = do
  if not (env.has_parts && env.has_audit) then fail internal_error else give tt
  interfere env
  c ← claim_token env req.token
  deferred (abort_claim env c) (claimed_page env req c)
