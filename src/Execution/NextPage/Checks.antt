-- ===== src/Execution/NextPage/Checks.antt =====
-- The checks that `ExecuteNextPage` of execution/pipeline.go makes again, and how the claim is aborted.
use web_db.Prelude.{
  ℕ, ℤ, Bool, true, false, ◌&&◌, String, Option, none, some, Result, ok, err, is_positive, ℤ_eq,
  str_eq, if◌then◌else◌,
}
use web_db.QueryPlan.Types.{TableMetadata, SchemaSnapshot, PlanError}
use web_db.QueryPlan.NextPage.{VerifiedNextPagePlan, new_verified_next_page_plan}
use web_db.Pagination.State.{ContinuationState}
use web_db.Pagination.Calls.{after_calls}
use web_db.Pagination.Registry.{Claim, abort}
use web_db.Execution.Codes.{
  Cause, Code, internal_error, invalid_page_token, AdapterError, map_adapter_error,
  map_credential_error, map_policy_store_error,
}
use web_db.Execution.Data.{
  Connection, ConnectionPolicy, allows_read, policy_version_of, connection_config_revision,
  Execution, running, NextPageRequest, CredentialPayload, ConnectConfig,
}
use web_db.Execution.World.{
  CredentialError, Env, World, Program, give, leave, look, change, emit, set_result, on_error, fail,
  with_code, reads_policy, resolves, loads_table, ◌>>=◌, ◌>>◌,
}
use web_db.Execution.Audit.{
  Step, StoreError, begin_tx, create_execution, commit_tx, roll_back, fail_audit,
  fail_execution_with, record_credential_failure,
}
use web_db.Execution.Finish.{record_post_execution}
use web_db.Execution.Sorting.{new_schema_snapshot, plan_dialect}
use web_db.Execution.Execute.{Task, check_member, read_connection, connect_config}

-- `claim.Abort()`, among the calls of others.
unfoldable pub abort_claim : Env → Claim → World → World
unfolding abort
abort_claim env c w = record w {
  registry = abort c (after_calls env.digest (env.others w.log) w.registry);
}

-- A failure before there is an execution.
unfoldable pub abort_and_fail : {A : Type 0} → Env → Claim → Code → Program Code A
unfolding abort_claim
abort_and_fail env c code = do change (abort_claim env c); fail code

abbrev pub require : Env → Claim → Bool → Code → Program Code (Unit {0})
require env c true code = give tt
require env c false code = abort_and_fail env c code

-- An id that does not parse is no connection's.
abbrev pub known_id : Env → Claim → Option String → Program Code String
known_id env c none = abort_and_fail env c invalid_page_token
known_id env c (some id) = give id

-- A failure of a check that itself knows nothing of the claim.
abbrev pub aborting : {A : Type 0} → Env → Claim → Program Code A → Program Code A
aborting env c body = on_error body (λ code w. (err code, abort_claim env c w))

-- The policy still allows reading, has limits, and is the one that the token was made under.
unfoldable pub is_unchanged : ConnectionPolicy → ℤ → Bool
unfolding policy_version_of
is_unchanged policy version =
    allows_read policy
    && is_positive policy.max_rows
    && is_positive policy.statement_timeout_ms
    && (elim (policy_version_of policy) [ none ↦ false | some v ↦ ℤ_eq v version ])

unfoldable pub rejudge_policy :
    Env → Claim → Result Cause (Option ConnectionPolicy) → Program Code ConnectionPolicy
unfolding abort_and_fail map_policy_store_error is_unchanged
rejudge_policy env c (err e) = abort_and_fail env c (map_policy_store_error e)
rejudge_policy env c (ok none) = abort_and_fail env c invalid_page_token
rejudge_policy env c (ok (some policy)) =
    if is_unchanged policy c.state.policy_version
    then give policy
    else abort_and_fail env c invalid_page_token

unfoldable pub recheck_policy : Env → Claim → Connection → Program Code ConnectionPolicy
unfolding rejudge_policy
recheck_policy env c conn = do
  answer ← look (λ w. env.policy w.log conn)
  emit reads_policy
  rejudge_policy env c answer

-- The checks of the principal, the membership, the connection and the policy.
unfoldable pub reauthorize :
    Env → NextPageRequest → Claim → Program Code (Connection × ConnectionPolicy)
unfolding check_member read_connection recheck_policy abort_and_fail abort_claim
reauthorize env req c = do
  require env c
      (str_eq c.state.user_id req.principal.user_id
        && str_eq c.state.workspace_id req.principal.workspace_id)
      invalid_page_token
  aborting env c (check_member env req.principal.workspace_id req.principal.user_id)
  id ← known_id env c (env.parse_id c.state.connection_id)
  conn ← aborting env c (read_connection env req.principal.workspace_id id)
  require env c (str_eq conn.id c.state.connection_id) invalid_page_token
  set_result (λ r. record r { engine = conn.engine; page_size = c.state.page_size })
  policy ← recheck_policy env c conn
  give (conn, policy)

abbrev running_row : NextPageRequest → ContinuationState → Connection → String → ℕ → Execution
running_row req s conn trace now = record {
  id = "";
  workspace_id = conn.workspace_id;
  connection_id = conn.id;
  actor_id = req.principal.user_id;
  statement_hash = s.statement_hash;
  status = running;
  trace_id = trace;
  started_at = now;
  finished_at = none;
  duration = none;
  row_count = none;
  error_code = none;
}

abbrev roll_back_and_leave : StoreError → Step
roll_back_and_leave e w = (err e, roll_back w)

unfoldable pub begin_continuation_execution :
    Env → NextPageRequest → ContinuationState → Connection → Program StoreError Task
unfolding begin_tx create_execution commit_tx
begin_continuation_execution env req s conn = do
  t ← look (λ w. record {
    conn = conn;
    trace = env.new_trace w.log;
    now = env.clock w.log;
    hash = s.statement_hash;
  })
  begin_tx env
  on_error (create_execution env (running_row req s conn t.trace t.now)) roll_back_and_leave
  commit_tx env
  give t

-- `finalizeContinuationExecution`: an error of the adapter gives its code, unless there is one.
unfoldable pub finalize_continuation : Env → Task → Option AdapterError → Step
unfolding record_post_execution map_adapter_error
finalize_continuation env t none = record_post_execution env t.conn t.trace t.hash
finalize_continuation env t (some e) = do
  set_result (λ r. record r {
    error_code = (elim r.error_code [ none ↦ some (map_adapter_error e) | some c ↦ some c ]);
  })
  record_post_execution env t.conn t.trace t.hash

-- A failure once there is an execution: the claim is aborted, the execution ends failed.
unfoldable pub stop_page :
    {A : Type 0} → Env → Claim → Task → Option AdapterError → Code → Program Code A
unfolding abort_claim finalize_continuation fail_audit
stop_page env c t why code = do
  change (abort_claim env c)
  set_result (with_code code)
  on_error (finalize_continuation env t why) (λ _. fail_audit)
  leave code

unfoldable pub rejudge_credential :
    Env → Claim → Task → Result CredentialError CredentialPayload → Program Code CredentialPayload
unfolding abort_claim fail_execution_with record_credential_failure map_credential_error
rejudge_credential env c t (ok payload) = do emit (resolves true); give payload
rejudge_credential env c t (err why) = do
  emit (resolves false)
  change (abort_claim env c)
  set_result (with_code (map_credential_error why.code))
  fail_execution_with env (record_credential_failure env t.conn t.trace t.now why)
  leave (map_credential_error why.code)

-- The credential is resolved anew.
unfoldable pub resolve_again : Env → Claim → Task → Program Code CredentialPayload
unfolding rejudge_credential
resolve_again env c t = do
  answer ← look (λ w. env.resolve w.log t.conn)
  rejudge_credential env c t answer

-- An error that is no `AdapterError` and has no cause.
abbrev pub plain_error : AdapterError
plain_error = record {
  code = none;
  cause = record { no_rows = false; deadline_exceeded = false; canceled = false };
}

unfoldable pub config_again :
    Env → Claim → Task → CredentialPayload → Option ℤ → Program Code ConnectConfig
unfolding stop_page
config_again env c t payload none = stop_page env c t (some plain_error) internal_error
config_again env c t payload (some revision) = give (connect_config env t.conn revision payload)

unfoldable pub recheck_revision :
    Env → Claim → Task → CredentialPayload → Program Code ConnectConfig
unfolding connection_config_revision config_again
recheck_revision env c t payload = config_again env c t payload (connection_config_revision t.conn)

-- The schema is the one that the token was made for.
abbrev pub same_schema : Option SchemaSnapshot → ContinuationState → Bool
same_schema none s = false
same_schema (some snapshot) s = str_eq snapshot.schema_generation s.schema_generation

unfoldable pub rejudge_schema :
    Env → Claim → Task → Option TableMetadata → ℤ → Program Code (Unit {0})
unfolding new_schema_snapshot plan_dialect stop_page
rejudge_schema env c t none pool = stop_page env c t none invalid_page_token
rejudge_schema env c t (some meta) pool =
    if same_schema
      (new_schema_snapshot env.schema_generation c.state.connection_id (plan_dialect t.conn.engine)
        pool meta)
      c.state
    then give tt
    else stop_page env c t none invalid_page_token

unfoldable pub recheck_schema : Env → Claim → Task → Program Code (Unit {0})
unfolding rejudge_schema
recheck_schema env c t = do
  answer ← look (λ w. env.load_table w.log c.state.table_schema c.state.table_name)
  emit loads_table
  pool ← look (λ w. env.pool_generation w.log)
  rejudge_schema env c t answer pool

unfoldable pub plan_or_stop :
    Env → Claim → Task → Result PlanError VerifiedNextPagePlan → Program Code VerifiedNextPagePlan
unfolding stop_page
plan_or_stop env c t (err e) = stop_page env c t none invalid_page_token
plan_or_stop env c t (ok plan) = give plan

unfoldable pub next_plan : Env → Claim → Task → ℤ → Program Code VerifiedNextPagePlan
unfolding new_verified_next_page_plan plan_or_stop
next_plan env c t max_rows = plan_or_stop env c t (
    new_verified_next_page_plan c.state.sort_plan c.state.last_sort_values c.state.sql c.state.args
      c.state.page_size max_rows c.state.cumulative_count)
