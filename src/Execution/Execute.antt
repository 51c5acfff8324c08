-- ===== src/Execution/Execute.antt =====
-- `EvaluateSQL` of execution/service.go and `Execute` of execution/pipeline.go, one function for
-- each of its phases. A panic of a collaborator is not modelled; what runs on one is
-- `finalize_panic`. So `deferred` stands for the `defer` statements that act on a normal return.

use web_db.Prelude.{
  ℕ, ℤ, Bool, true, false, not, ◌&&◌, ◌||◌, String, Option, none, some, Result, ok, err, str_eq,
  is_positive, if◌then◌else◌,
}
use web_db.SqlPolicy.Types as Policy
use web_db.SqlPolicy.Types.{PolicyDecision, MySqlLexerMode, zero_classification}
use web_db.SqlPolicy.Policy.{decide, reject}
use web_db.SqlPolicy.Placeholder.{has_unbound_placeholder, ScanError}
use web_db.Execution.Codes.{
  Code, Cause, internal_error, forbidden, unsupported_engine, statement_not_allowed,
  read_not_allowed, policy_not_configured, map_membership_error, map_connection_error,
  map_policy_store_error, map_credential_error, map_dialect, map_policy_reason,
}
use web_db.Execution.Data.{
  Connection, ConnectionPolicy, allows_read, connection_config_revision, can_read, Execution,
  pending, running, outcome_denied, outcome_failed, AuditMetadata, no_metadata, AuditOutcome,
  policy_reason, code_reason, Reason, ExecuteRequest, CredentialPayload, ConnectConfig,
}
use web_db.Execution.World.{
  CredentialError, Env, Program, give, leave, look, change, emit, note, set_result, set_execution,
  on_error, fail, reads_member, reads_connection, reads_policy, alarms, resolves, ◌>>=◌, ◌>>◌,
}
use web_db.Execution.Audit.{
  StoreError, begin_tx, commit_tx, update_execution, create_execution, roll_back, fail_audit,
  fail_pre_execution, fail_execution_with, record_credential_failure,
}
use web_db.Execution.Sorting.{policy_dialect}

-- `EvaluateSQL`: the decision, and the code of a refusal.
unfoldable pub evaluate_sql : Env → String → String → MySqlLexerMode → PolicyDecision × Option Code
unfolding map_dialect decide map_policy_reason
evaluate_sql env engine sql mode = elim (map_dialect engine) [
  | none ↦ (reject Policy.unsupported zero_classification, some unsupported_engine)
  | some dialect ↦
      (let d = decide env.pg_parser env.my_parser dialect (env.sql_bytes sql) mode in
        (d, if d.allowed then none else some (map_policy_reason d.reason_code)))
]

-- No placeholder, and no doubt about it.
abbrev is_unbound : Result ScanError Bool → Bool
is_unbound (err e) = true
is_unbound (ok found) = found

-- The decision after the check for placeholders.
unfoldable pub judge : Env → String → String → PolicyDecision × Option Code
unfolding evaluate_sql has_unbound_placeholder policy_dialect
judge env engine sql =
    let d = evaluate_sql env engine sql env.mysql_mode in
    if d.0.allowed
      && is_unbound (has_unbound_placeholder (policy_dialect engine) (env.sql_bytes sql))
    then (reject Policy.not_allowed zero_classification, some statement_not_allowed)
    else d

-- `statementHash`
unfoldable pub hash_of : Env → PolicyDecision → String → String
hash_of env d sql =
    if str_eq d.classification.statement_hash ""
    then env.hash_sql sql
    else d.classification.statement_hash

-- Phase A: the member must be there and may read.
unfoldable pub check_member : Env → String → String → Program Code (Unit {0})
unfolding can_read map_membership_error
check_member env workspace user w = elim (env.member w.log workspace user) [
  | err e ↦ fail (map_membership_error e) (note reads_member w)
  | ok none ↦ fail forbidden (note reads_member w)
  | ok (some role) ↦ elim (can_read role) [
    | true ↦ (ok tt, note reads_member w)
    | false ↦ fail forbidden (note reads_member w)
  ]
]

unfoldable pub read_connection : Env → String → String → Program Code Connection
unfolding map_connection_error
read_connection env workspace id w = elim (env.connection w.log workspace id) [
  | err e ↦ fail (map_connection_error e) (note reads_connection w)
  | ok conn ↦ (ok conn, note reads_connection w)
]

-- Phase B: the server's engine is the engine.
unfoldable pub check_connection : Env → ExecuteRequest → Program Code Connection
unfolding read_connection
check_connection env req = do
  conn ← read_connection env req.principal.workspace_id req.connection_id
  set_result (λ r. record r { engine = conn.engine })
  if not (str_eq req.engine "") && not (str_eq req.engine conn.engine)
      then fail unsupported_engine
      else give tt
  give conn

-- A failure of phase B': the alarm, and `internal_error`.
abbrev fail_with_alarm : {A : Type 0} → Program Code A
fail_with_alarm w = fail internal_error (note (alarms internal_error) w)

-- The local variables of the rest of a call.
pub record Task : Type 0 where
  pub conn : Connection
  pub trace : String
  pub now : ℕ
  pub hash : String

abbrev pub pending_row : ExecuteRequest → Task → Execution
pending_row req t = record {
  id = "";
  workspace_id = t.conn.workspace_id;
  connection_id = t.conn.id;
  actor_id = req.principal.user_id;
  statement_hash = t.hash;
  status = pending;
  trace_id = t.trace;
  started_at = 0;
  finished_at = none;
  duration = none;
  row_count = none;
  error_code = none;
}

-- Phase B': the pending row, committed at once.
unfoldable pub create_pending : Env → ExecuteRequest → Task → Program Code (Unit {0})
unfolding begin_tx create_execution commit_tx
create_pending env req t = do
  on_error (begin_tx env) (λ _. fail_with_alarm)
  on_error (create_execution env (pending_row req t)) (λ _ w. fail_with_alarm (roll_back w))
  on_error (commit_tx env) (λ _. fail_with_alarm)
  change (λ w. record w { result = record w.result { execution_id = some w.execution.id } })

abbrev pub denial : Task → Reason → AuditMetadata
denial t why = record no_metadata {
  statement_hash = some t.hash;
  reason_code = some why;
  engine = some t.conn.engine;
}

abbrev pub failure : Task → Code → AuditMetadata
failure t code = record no_metadata {
  statement_hash = some t.hash;
  error_code = some code;
  engine = some t.conn.engine;
}

-- The end of a call before the adapter: the code, the failed row with its audit, and the error.
unfoldable pub stop_before :
    {A : Type 0} → Env → Task → AuditOutcome → AuditMetadata → Option Code → Code → Program Code A
unfolding fail_pre_execution
stop_before env t outcome md code error = do
  set_result (λ r. record r { error_code = code })
  fail_pre_execution env t.conn t.trace t.now outcome md
  leave error

-- Phase C, refused: the audit has the decision's reason, and the error is `ErrReadNotAllowed`.
unfoldable pub check_decision : Env → Task → PolicyDecision → Option Code → Program Code (Unit {0})
unfolding stop_before
check_decision env t d code =
    if d.allowed
    then give tt
    else stop_before env t outcome_denied (denial t (policy_reason d.reason_code)) code
        read_not_allowed

unfoldable pub check_limits : Env → Task → ConnectionPolicy → Program Code ConnectionPolicy
unfolding stop_before
check_limits env t policy =
    if not (allows_read policy)
    then stop_before env t outcome_denied (denial t (code_reason read_not_allowed))
        (some read_not_allowed) read_not_allowed
    else if not (is_positive policy.statement_timeout_ms) || not (is_positive policy.max_rows)
    then stop_before env t outcome_failed (failure t internal_error) (some internal_error)
        internal_error
    else give policy

-- What the policy store's answer leads to.
unfoldable pub judge_policy :
    Env → Task → Result Cause (Option ConnectionPolicy) → Program Code ConnectionPolicy
unfolding stop_before check_limits map_policy_store_error
judge_policy env t (err e) =
    stop_before env t outcome_failed (failure t (map_policy_store_error e))
      (some (map_policy_store_error e)) (map_policy_store_error e)
judge_policy env t (ok none) =
    stop_before env t outcome_denied (denial t (code_reason policy_not_configured))
      (some policy_not_configured) policy_not_configured
judge_policy env t (ok (some policy)) = check_limits env t policy

-- The connection's policy: there, readable, and with limits.
unfoldable pub check_policy : Env → Task → Program Code ConnectionPolicy
unfolding judge_policy
check_policy env t = do
  answer ← look (λ w. env.policy w.log t.conn)
  emit reads_policy
  judge_policy env t answer

-- What the resolver's answer leads to.
unfoldable pub judge_credential :
    Env → Task → Result CredentialError CredentialPayload → Program Code CredentialPayload
unfolding fail_execution_with record_credential_failure map_credential_error
judge_credential env t (ok payload) = do
  emit (resolves true)
  set_result (λ r. record r { credential_resolved = true })
  give payload
judge_credential env t (err why) = do
  emit (resolves false)
  set_result (λ r. record r {
    credential_resolved = false;
    error_code = some (map_credential_error why.code);
  })
  fail_execution_with env (record_credential_failure env t.conn t.trace t.now why)
  leave (map_credential_error why.code)

-- Phase C': the credential.
unfoldable pub resolve_credential : Env → Task → Program Code CredentialPayload
unfolding judge_credential
resolve_credential env t = do
  answer ← look (λ w. env.resolve w.log t.conn)
  judge_credential env t answer

abbrev pub connect_config : Env → Connection → ℤ → CredentialPayload → ConnectConfig
connect_config env conn revision payload = record {
  connection_id = conn.id;
  secret_version = conn.secret_version;
  config_revision = revision;
  engine = conn.engine;
  host = conn.host;
  port = conn.port;
  user = payload.user;
  password = payload.password;
  database = conn.database;
  tls = env.tls_mode;
}

unfoldable pub config_at : Env → Task → CredentialPayload → Option ℤ → Program Code ConnectConfig
unfolding stop_before
config_at env t payload none =
    stop_before env t outcome_failed (failure t internal_error) (some internal_error) internal_error
config_at env t payload (some revision) = give (connect_config env t.conn revision payload)

unfoldable pub check_revision : Env → Task → CredentialPayload → Program Code ConnectConfig
unfolding connection_config_revision config_at
check_revision env t payload = config_at env t payload (connection_config_revision t.conn)

abbrev roll_back_and_fail : StoreError → Program Code (Unit {0})
roll_back_and_fail e w = fail_audit (roll_back w)

-- Phase D-0: the row is running, and that is committed before the adapter is asked.
unfoldable pub mark_running : Env → Program Code (Unit {0})
unfolding begin_tx update_execution commit_tx fail_audit
mark_running env = do
  on_error (begin_tx env) (λ _. fail_audit)
  set_execution (λ x. record x { status = running })
  on_error (update_execution env) roll_back_and_fail
  on_error (commit_tx env) roll_back_and_fail

-- The phases in front of the adapter, from the pending row on.
unfoldable pub prepare :
    Env → Task → PolicyDecision → Option Code → Program Code (ConnectionPolicy × ConnectConfig)
unfolding check_decision check_policy resolve_credential check_revision mark_running
prepare env t d code = do
  check_decision env t d code
  policy ← check_policy env t
  payload ← resolve_credential env t
  cfg ← check_revision env t payload
  mark_running env
  give (policy, cfg)
