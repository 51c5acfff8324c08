-- ===== src/Execution/Finish.antt =====
-- `recordPostExecution` and `finalizePanic` of execution/pipeline.go: the end of an execution that
-- got as far as the adapter.
use web_db.Prelude.{
  ℕ, ℤ, ◌-◌, ◌/◌, ◌^◌, String, Option, none, some, if◌then◌else◌, Result, ok, err, ltb,
}
use mathlib.Core.Option
use web_db.Execution.Codes.{
  Code, internal_error, unsupported_query, query_cancelled, query_timeout, execution_cancelled,
  execution_timeout,
}
use web_db.Execution.Data.{
  Connection, Execution, failed, completed, cancelled, ExecutionStatus, AuditOutcome,
  outcome_succeeded, outcome_failed, outcome_denied, outcome_cancelled, AuditMetadata, no_metadata,
  code_reason, QueryResult,
}
use web_db.Execution.World.{
  alarms, World, Env, give, look, set_result, set_execution, on_error, deferred, note, ◌>>=◌, ◌>>◌,
}
use web_db.Execution.Audit.{
  Step, StoreError, begin_tx, commit_tx, update_execution, append_audit, append_audit_tx, roll_back,
  new_audit_event, execution_event, with_receipt, mark_failed,
}

-- What the switch on the result's code decides: the row's status, the audit's outcome and metadata.
pub record Verdict : Type 0 where
  pub status : ExecutionStatus
  pub outcome : AuditOutcome
  pub metadata : AuditMetadata
  pub row_count : Option ℤ

unfoldable pub verdict_of : Connection → String → Option QueryResult → Option Code → Verdict
verdict_of conn hash page code =
    let md : AuditMetadata = record no_metadata {
      statement_hash = some hash;
      engine = some conn.engine;
    } in
    let placed : AuditMetadata = record md { environment = some conn.environment } in
    let stopped : Verdict = record {
      status = cancelled;
      outcome = outcome_cancelled;
      metadata = record md { error_code = some query_cancelled };
      row_count = none;
    } in
    let late : Verdict = record {
      status = failed;
      outcome = outcome_failed;
      metadata = record md { error_code = some query_timeout };
      row_count = none;
    } in
    elim code [
      | none ↦ record {
        status = completed;
        outcome = outcome_succeeded;
        metadata = record placed { row_count = Option.map (λ q. q.total_returned) page };
        row_count = Option.map (λ q. q.total_returned) page;
      }
      | some execution_cancelled ↦ stopped
      | some query_cancelled ↦ stopped
      | some execution_timeout ↦ late
      | some query_timeout ↦ late
      | some unsupported_query ↦ record {
        status = failed;
        outcome = outcome_denied;
        metadata = record placed { reason_code = some (code_reason unsupported_query) };
        row_count = none;
      }
      | some c ↦ record {
        status = failed;
        outcome = outcome_failed;
        metadata = record placed { error_code = some c };
        row_count = none;
      }
    ]

abbrev kept_or : Option ℤ → Option ℤ → Option ℤ
kept_or old none = old
kept_or old (some n) = some n

-- The milliseconds of a time that passed, `none` if none did.
unfoldable pub duration_of : ℕ → ℕ → Option ℕ
duration_of started finished =
    if ltb started finished then some ((finished - started) / 10 ^ 6) else none

abbrev kept_duration : Option ℕ → Option ℕ → Option ℕ
kept_duration old none = old
kept_duration old (some n) = some n

unfoldable pub finish_execution : Verdict → Option Code → ℕ → Execution → Execution
unfolding duration_of
finish_execution v code finished x = record x {
  status = v.status;
  row_count = kept_or x.row_count v.row_count;
  error_code = code;
  finished_at = some finished;
  duration = kept_duration x.duration (duration_of x.started_at finished);
}

-- The execution's end in a transaction of its own.
unfoldable pub commit_execution : Env → Step
unfolding update_execution commit_tx
commit_execution env = update_execution env >> commit_tx env

-- The audit afterwards, in a write of its own, and the receipt.
unfoldable pub audit_execution : Env → Connection → String → Verdict → ℕ → Step
unfolding append_audit new_audit_event execution_event duration_of
audit_execution env conn trace v finished = do
  x ← look (λ w. w.execution)
  event ← new_audit_event env (
      execution_event conn trace finished v.outcome
        (record v.metadata { duration = duration_of x.started_at finished }) x)
  id ← append_audit env event
  set_result (with_receipt id v.outcome)

unfoldable pub finish_with : Env → Connection → String → Verdict → ℕ → Step
unfolding begin_tx commit_execution audit_execution
finish_with env conn trace v finished = do
  begin_tx env
  deferred roll_back (do commit_execution env; audit_execution env conn trace v finished)

unfoldable pub record_post_execution : Env → Connection → String → String → Step
unfolding verdict_of finish_execution finish_with
record_post_execution env conn trace hash = do
  code ← look (λ w. w.result.error_code)
  page ← look (λ w. w.result.result)
  finished ← look (λ w. env.clock w.log)
  set_execution (finish_execution (verdict_of conn hash page code) code finished)
  finish_with env conn trace (verdict_of conn hash page code) finished

abbrev pub alarm_and_stop : World → Result StoreError (Unit {0}) × World
alarm_and_stop w = (ok tt, note (alarms internal_error) w)

abbrev pub roll_back_and_alarm : World → Result StoreError (Unit {0}) × World
roll_back_and_alarm w = alarm_and_stop (roll_back w)

unfoldable pub panic_event : Env → Connection → String → ℕ → Step
unfolding update_execution append_audit_tx new_audit_event execution_event
panic_event env conn trace now = do
  update_execution env
  x ← look (λ w. w.execution)
  event ← new_audit_event env (
      execution_event conn trace now outcome_failed
        (record no_metadata {
          statement_hash = some x.statement_hash;
          error_code = some internal_error;
          engine = some conn.engine;
        })
        x)
  id ← append_audit_tx env event
  give tt

-- The end, by how the event went.
abbrev pub close_panic :
    Env → Result StoreError (Unit {0}) × World → Result StoreError (Unit {0}) × World
close_panic env (err e, w) = roll_back_and_alarm w
close_panic env (ok done, w) = on_error (commit_tx env) (λ _. alarm_and_stop) w

-- What stands behind `Begin`, whose failure only sounds the alarm.
abbrev pub close_begun :
    Env
    → Connection
    → String
    → ℕ
    → Result StoreError (Unit {0}) × World
    → Result StoreError (Unit {0}) × World
close_begun env conn trace now (err e, w) = alarm_and_stop w
close_begun env conn trace now (ok begun, w) = close_panic env (panic_event env conn trace now w)

unfoldable pub finalize_panic : Env → Connection → String → ℕ → Step
unfolding begin_tx panic_event commit_tx
finalize_panic env conn trace now w =
    close_begun env conn trace now
      (begin_tx env (record w { execution = mark_failed now (some internal_error) w.execution }))
