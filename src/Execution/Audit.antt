-- ===== src/Execution/Audit.antt =====
-- The audit and the life of an execution row, of execution/pipeline.go and audit.go: one function
-- for each of the source's, whose `error` is a `StoreError` here. A database error has no other
-- part in what the pipeline does.
use web_db.Prelude.{ℕ, Bool, true, false, String, Option, none, some, ok, err}
use web_db.Execution.Codes.{
  Code, audit_failed, decryption_failed, unknown_kek_version, is_decrypt_failure_code,
}
use web_db.Execution.Data.{
  Connection, Execution, failed, AuditOutcome, outcome_failed, AuditMetadata, no_metadata,
  AuditEvent, Action, actor_user, actor_system, sql_execute, credential_lookup, credential_decrypt,
  ExecuteResult, audit_state_for_outcome,
}
use web_db.Execution.World.{
  Event, begins, begin_fails, commits, commit_fails, rolls_back, creates, create_fails, updates,
  update_fails, appends, append_fails, audits, audit_fails, alarms, World, CredentialError, Env,
  Program, give, leave, look, change, emit, set_result, on_error, deferred, note, ◌>>=◌, ◌>>◌,
}

pub data StoreError : Type 0 where
  store_failed : StoreError

abbrev pub Step : Type 0
Step = Program StoreError (Unit {0})

-- A call that only may fail, with the events of the two outcomes.
abbrev ask : (World → Bool) → Event → Event → Step
ask answer good bad w = elim (answer w) [
  | true ↦ (ok tt, note good w)
  | false ↦ (err store_failed, note bad w)
]

-- A call that answers with an id.
abbrev ask_id : (World → Option String) → Event → Event → Program StoreError String
ask_id answer good bad w = elim (answer w) [
  | some id ↦ (ok id, note good w)
  | none ↦ (err store_failed, note bad w)
]

-- The transaction's methods, and the audit store's.
unfoldable pub begin_tx : Env → Step
begin_tx env = ask (λ w. env.begin w.log) begins begin_fails

unfoldable pub commit_tx : Env → Step
commit_tx env = ask (λ w. env.commit w.log) commits commit_fails

unfoldable pub update_execution : Env → Step
update_execution env w =
    ask (λ v. env.update v.log v.execution) (updates w.execution) update_fails w

-- The store fills in the row's id and its start.
abbrev pub started_row : Execution → String × ℕ → Execution
started_row x (id, started) = record x { id = id; started_at = started }

unfoldable pub create_execution : Env → Execution → Step
create_execution env x w = elim (env.create w.log x) [
  | none ↦ (err store_failed, note create_fails w)
  | some y ↦ (ok tt, record (note (creates (started_row x y)) w) { execution = started_row x y })
]

unfoldable pub append_audit_tx : Env → AuditEvent → Program StoreError String
append_audit_tx env e = ask_id (λ w. env.append w.log e) (appends e) append_fails

unfoldable pub append_audit : Env → AuditEvent → Program StoreError String
append_audit env e = ask_id (λ w. env.audit w.log e) (audits e) audit_fails

abbrev pub roll_back : World → World
roll_back = note rolls_back

-- `newAuditEvent`: the metadata must marshal.
unfoldable pub new_audit_event : Env → AuditEvent → Program StoreError AuditEvent
new_audit_event env e = elim (env.marshals e.metadata) [
  | true ↦ give e
  | false ↦ leave store_failed
]

-- The event `sql.execute` of a user, for the execution at hand.
unfoldable pub execution_event :
    Connection → String → ℕ → AuditOutcome → AuditMetadata → Execution → AuditEvent
execution_event conn trace now outcome md x = record {
  workspace_id = conn.workspace_id;
  actor_type = actor_user;
  actor_id = some x.actor_id;
  connection_id = some conn.id;
  action = sql_execute;
  resource_type = "execution";
  resource_id = x.id;
  outcome = outcome;
  metadata = md;
  trace_id = trace;
  execution_id = some x.id;
  occurred_at = now;
}

abbrev pub with_receipt : String → AuditOutcome → ExecuteResult → ExecuteResult
with_receipt id outcome r = record r {
  audit_event_id = some id;
  outcome = some outcome;
  audit_state = some (audit_state_for_outcome outcome);
}

-- `auditFailed`
unfoldable pub fail_audit : {A : Type 0} → Program Code A
fail_audit w = (
  err audit_failed,
  record (note (alarms audit_failed) w) {
    result = record w.result {
      error_code = some audit_failed;
      result = none;
      next_page_token = none;
    };
  },
)

abbrev pub mark_failed : ℕ → Option Code → Execution → Execution
mark_failed now code x = record x { status = failed; error_code = code; finished_at = some now }

-- `exec.Status`, `exec.ErrorCode` and `exec.FinishedAt`, from `result.ErrorCode`
abbrev pub fail_execution : ℕ → Step
fail_execution now =
    change (λ w. record w { execution = mark_failed now w.result.error_code w.execution })

unfoldable pub update_failed : Env → ℕ → Step
unfolding update_execution
update_failed env now = do fail_execution now; update_execution env

-- The event in the caller's transaction, and the receipt.
unfoldable pub append_pre_execution :
    Env → Connection → String → ℕ → AuditOutcome → AuditMetadata → Step
unfolding append_audit_tx new_audit_event execution_event
append_pre_execution env conn trace now outcome md = do
  x ← look (λ w. w.execution)
  event ← new_audit_event env (execution_event conn trace now outcome md x)
  id ← append_audit_tx env event
  set_result (with_receipt id outcome)

unfoldable pub record_pre_execution :
    Env → Connection → String → ℕ → AuditOutcome → AuditMetadata → Step
unfolding update_failed append_pre_execution
record_pre_execution env conn trace now outcome md = do
  update_failed env now
  append_pre_execution env conn trace now outcome md

-- The action and the metadata of a credential failure (E14, and E15/E16 with the versions).
unfoldable pub credential_action : Option Code → Action
credential_action (some decryption_failed) = credential_decrypt
credential_action (some unknown_kek_version) = credential_decrypt
credential_action _ = credential_lookup

unfoldable pub credential_metadata :
    Connection → Action → Option Code → CredentialError → AuditMetadata
credential_metadata conn credential_decrypt code why = record no_metadata {
  secret_ref = some conn.secret_ref;
  secret_version = some conn.secret_version;
  error_code = code;
  kek_version = why.kek_version;
}
credential_metadata conn _ code why = record no_metadata {
  secret_ref = some conn.secret_ref;
  error_code = code;
}

-- The event of the system actor, which names no execution.
unfoldable pub credential_event :
    Connection → String → ℕ → Option Code → CredentialError → AuditEvent
unfolding credential_action credential_metadata
credential_event conn trace now code why = record {
  workspace_id = conn.workspace_id;
  actor_type = actor_system;
  actor_id = none;
  connection_id = some conn.id;
  action = credential_action code;
  resource_type = "credential";
  resource_id = conn.secret_ref;
  outcome = outcome_failed;
  metadata = credential_metadata conn (credential_action code) code why;
  trace_id = trace;
  execution_id = none;
  occurred_at = now;
}

-- The alarm goes off for a failed decryption only.
unfoldable pub alarm_on_decryption : Option Code → Step
unfolding is_decrypt_failure_code
alarm_on_decryption none = give tt
alarm_on_decryption (some code) = elim (is_decrypt_failure_code code) [
  | true ↦ emit (alarms code)
  | false ↦ give tt
]

-- The failed row, and the event, in the caller's transaction.
unfoldable pub write_credential_failure :
    Env → Connection → String → ℕ → Option Code → CredentialError → Step
unfolding update_failed append_audit_tx new_audit_event
write_credential_failure env conn trace now code why = do
  update_failed env now
  event ← new_audit_event env (credential_event conn trace now code why)
  id ← append_audit_tx env event
  give tt

unfoldable pub record_credential_failure : Env → Connection → String → ℕ → CredentialError → Step
unfolding alarm_on_decryption write_credential_failure
record_credential_failure env conn trace now why = do
  code ← look (λ w. w.result.error_code)
  alarm_on_decryption code
  write_credential_failure env conn trace now code why

-- `failExecutionWith`, for an execution that is there; `commitPreExecution` is its end.
unfoldable pub fail_execution_with : Env → Step → Program Code (Unit {0})
unfolding begin_tx commit_tx fail_audit
fail_execution_with env recording = do
  on_error (begin_tx env) (λ _. fail_audit)
  deferred roll_back
      (do on_error recording (λ _. fail_audit); on_error (commit_tx env) (λ _. fail_audit))

unfoldable pub fail_pre_execution :
    Env → Connection → String → ℕ → AuditOutcome → AuditMetadata → Program Code (Unit {0})
unfolding fail_execution_with record_pre_execution
fail_pre_execution env conn trace now outcome md =
    fail_execution_with env (record_pre_execution env conn trace now outcome md)
