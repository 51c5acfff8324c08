-- ===== src/Execution/Query.antt =====
-- Phase D of `Execute` in execution/pipeline.go, with the handle of the adapter, and `Execute`.
use web_db.Prelude.{
  ℤ, pos, Bool, true, false, not, ◌&&◌, String, Option, none, some, ok, err, is_positive, leb_ℤ,
  if◌then◌else◌,
}
use web_db.QueryPlan.Types.{SchemaSnapshot}
use web_db.QueryPlan.Plan.{VerifiedSortPlan}
use web_db.Pagination.Registry.{revoke}
use web_db.SqlPolicy.Types.{PolicyDecision}
use web_db.Execution.Codes.{
  Code, internal_error, unsupported_query, AdapterError, map_adapter_error, map_pagination_error,
}
use web_db.Execution.Data.{
  ConnectionPolicy, ConnectConfig, QueryResult, ExecuteRequest, FirstPageRequest,
}
use web_db.Execution.World.{
  Env, World, Program, give, leave, look, change, note, set_result, on_error, deferred, fail,
  with_code, interfere, acquires, acquire_fails, queries, releases, ◌>>=◌, ◌>>◌,
}
use web_db.Execution.Audit.{StoreError, fail_audit}
use web_db.Execution.Finish.{record_post_execution}
use web_db.Execution.Sorting.{
  verify_sort, TokenError, no_last_values, no_policy_version, registry_error, create_continuation,
}
use web_db.Execution.Execute.{
  Task, judge, hash_of, check_member, check_connection, create_pending, prepare,
}

abbrev pub least : ℤ → ℤ → ℤ
least a b = if leb_ℤ a b then a else b

-- `effectiveMaxRows`
unfoldable pub effective_max_rows : ConnectionPolicy → ℤ
effective_max_rows policy = least policy.max_rows (pos 500)

-- `effectivePageSize`, with `normalizedPageSize`
unfoldable pub effective_page_size : ℤ → ℤ → ℤ
effective_page_size asked max_rows =
    least (least (if is_positive asked then asked else pos 100) (pos 500)) max_rows

-- `handle.Release()`, `released = true`
abbrev pub release_handle : World → World
release_handle w = record (note releases w) { released = true }

-- `if !released { handle.Release() }`
abbrev pub release_if_held : World → World
release_if_held w = if w.released then w else release_handle w

-- `adapter.Get`
unfoldable pub acquire_handle : Env → ConnectConfig → Program AdapterError (Unit {0})
acquire_handle env cfg w = elim (env.acquire w.log cfg) [
  | some e ↦ (err e, note acquire_fails w)
  | none ↦ (ok tt, record (note acquires w) { released = false })
]

-- A call that fails with the adapter at hand: the code, the end of the execution with its audit,
-- and the error.
unfoldable pub stop_after : {A : Type 0} → Env → Task → Code → Program Code A
unfolding record_post_execution fail_audit
stop_after env t code = do
  set_result (with_code code)
  on_error (record_post_execution env t.conn t.trace t.hash) (λ _. fail_audit)
  leave code

-- `handle.Query`
unfoldable pub run_query : Env → FirstPageRequest → Program AdapterError QueryResult
run_query env q w = (env.query w.log q, note (queries q) w)

-- The failure of a call of the handle, which is given back first.
abbrev pub release_and_stop : {E A : Type 0} → Env → Task → (E → Code) → E → Program Code A
release_and_stop env t code e w = stop_after env t (code e) (release_handle w)

unfoldable pub sort_if_needed :
    Env → ExecuteRequest → Task → Bool → Program Code (Option (VerifiedSortPlan × SchemaSnapshot))
unfolding verify_sort stop_after
sort_if_needed env req t false = give none
sort_if_needed env req t true = do
  sorted ← on_error (verify_sort env req t.conn) (release_and_stop env t (λ _. unsupported_query))
  give (some sorted)

-- `mapPaginationError`, which knows the registry's errors only.
unfoldable pub token_error_code : TokenError → Code
unfolding map_pagination_error
token_error_code no_last_values = internal_error
token_error_code no_policy_version = internal_error
token_error_code (registry_error e) = map_pagination_error e

-- `queryResult.HasMore && queryResult.TotalReturned < effectiveMaxRows`
abbrev pub has_next : QueryResult → ℤ → Bool
has_next page max_rows = page.has_more && not (leb_ℤ max_rows page.total_returned)

-- The token of the next page, which is not given out yet.
unfoldable pub token_if_needed :
    Env
    → ExecuteRequest
    → Task
    → ConnectionPolicy
    → Option (VerifiedSortPlan × SchemaSnapshot)
    → QueryResult
    → ℤ
    → ℤ
    → Program Code (Option String)
unfolding create_continuation stop_after token_error_code
token_if_needed env req t policy none page page_size max_rows = give none
token_if_needed env req t policy (some (plan, snapshot)) page page_size max_rows =
    if has_next page max_rows
    then (do
      token ←
          on_error
            (create_continuation env req t.conn plan snapshot policy t.hash page page_size max_rows)
            (release_and_stop env t token_error_code)
      give (some token))
    else give none

-- `registry.Revoke`, if there is a token.
unfoldable pub revoke_token : {E : Type 0} → Env → Option String → Program E (Unit {0})
unfolding revoke
revoke_token env none = give tt
revoke_token env (some token) = do
  interfere env
  change (λ w. record w { registry = revoke env.digest token w.registry })

abbrev pub revoke_and_fail : Env → Option String → StoreError → Program Code (Unit {0})
revoke_and_fail env token e = revoke_token env token >> fail_audit

-- The end of `Execute`: the page and its token are given out after the audit.
unfoldable pub publish : Env → Task → QueryResult → Option String → Program Code (Unit {0})
unfolding record_post_execution fail_audit revoke_token
publish env t page token = do
  change release_handle
  set_result (λ r. record r { result = some page })
  on_error (record_post_execution env t.conn t.trace t.hash) (revoke_and_fail env token)
  set_result (λ r. record r { next_page_token = token })

abbrev pub first_request : ExecuteRequest → Option VerifiedSortPlan → ℤ → ℤ → FirstPageRequest
first_request req plan page_size max_rows = record {
  scope = req.principal;
  sql = req.sql;
  args = req.args;
  sort_plan = plan;
  page_size = page_size;
  max_rows = max_rows;
}

-- With the handle.
unfoldable pub query_with_handle :
    Env → ExecuteRequest → Task → ConnectionPolicy → ℤ → ℤ → Program Code (Unit {0})
unfolding sort_if_needed run_query token_if_needed publish stop_after
query_with_handle env req t policy page_size max_rows = do
  set_result (λ r. record r { adapter_called = true; page_size = page_size })
  sorted ← sort_if_needed env req t (not (leb_ℤ max_rows page_size))
  page ←
      on_error
        (run_query env
          (first_request req (elim sorted [ none ↦ none | some s ↦ some s.0 ]) page_size max_rows))
        (release_and_stop env t map_adapter_error)
  token ← token_if_needed env req t policy sorted page page_size max_rows
  publish env t page token

-- Phase D.
unfoldable pub run_phase_d :
    Env → ExecuteRequest → Task → ConnectionPolicy × ConnectConfig → Program Code (Unit {0})
unfolding acquire_handle stop_after query_with_handle effective_max_rows effective_page_size
run_phase_d env req t (policy, cfg) = do
  on_error (acquire_handle env cfg) (λ e. stop_after env t (map_adapter_error e))
  deferred release_if_held (
      query_with_handle env req t policy
        (effective_page_size req.page_size (effective_max_rows policy)) (effective_max_rows policy))

-- Everything from the pending row on.
unfoldable pub run_pending :
    Env → ExecuteRequest → Task → PolicyDecision × Option Code → Program Code (Unit {0})
unfolding prepare run_phase_d
run_pending env req t (d, code) = do prepared ← prepare env t d code; run_phase_d env req t prepared

-- `Execute`: what it returns as its result is the world's, what it returns as its error the program's.
unfoldable pub execute : Env → ExecuteRequest → Program Code (Unit {0})
unfolding check_member check_connection judge hash_of create_pending run_pending
execute env req = do
  if not (env.has_parts && env.has_audit) then fail internal_error else give tt
  check_member env req.principal.workspace_id req.principal.user_id
  conn ← check_connection env req
  t ← look (λ w. record {
    conn = conn;
    trace = env.new_trace w.log;
    now = env.clock w.log;
    hash = hash_of env (judge env conn.engine req.sql).0 req.sql;
  })
  set_result
      (λ r. record r { decision = some (judge env conn.engine req.sql).0; trace_id = t.trace })
  create_pending env req t
  run_pending env req t (judge env conn.engine req.sql)
