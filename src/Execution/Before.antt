-- ===== src/Execution/Before.antt =====
-- The phases of `Execute` in front of the adapter (execution/pipeline.go), and how each of them ends.
use web_db.Prelude.{
  ℤ, String, ℕ, Bool, true, false, not, ◌||◌, Option, none, some, arith, Result, ok, err,
  is_positive,
}
use web_db.SqlPolicy.Types.{PolicyDecision}
use web_db.Execution.Codes.{
  Cause, Code, internal_error, read_not_allowed, policy_not_configured, map_policy_store_error,
  map_credential_error,
}
use web_db.Execution.Data.{
  Connection, ConnectionPolicy, CredentialPayload, allows_read, connection_config_revision,
  ExecutionStatus, pending, running, failed, AuditOutcome, AuditMetadata, outcome_failed,
  outcome_denied, policy_reason, code_reason,
}
use web_db.Execution.World.{
  World, Env, emit, note, set_result, leave, give, resolves, CredentialError, reads_policy,
}
use web_db.Execution.Books.{books, enter}
use web_db.Execution.Audit.{
  record_credential_failure, alarm_on_decryption, write_credential_failure, update_failed,
  update_execution, new_audit_event, append_audit_tx, fail_pre_execution,
}
use web_db.Execution.Execute.{
  config_at, judge_policy, judge_credential, Task, denial, failure, stop_before, check_decision,
  check_limits, check_policy, resolve_credential, check_revision, prepare,
}
use web_db.Execution.Rules.{resume-Ends, Meets, bind-Meets, after-Meets, if-Meets}
use web_db.Execution.Settled.{
  Refused, Open, Staged, Passes, record_pre_execution-Staged, fail_execution_with-Open,
  mark_running-Passes,
}

pub failed-Refused :
    (ready : Bool) (code : Option Code) (w : World)
    → Open (some failed) ready code w
    → Refused true w
failed-Refused ready code w h = ground arith

pub reads_policy-Open :
    (row : Option ExecutionStatus) (ready : Bool) (code : Option Code) (w : World)
    → Open row ready code w
    → Open row ready code (note reads_policy w)
unfolding books enter
reads_policy-Open row ready code w h = ground arith

module _ {A : Type 0} (env : Env) (t : Task) (row : Option ExecutionStatus) (ready : Bool) where
  pub leave-Refused :
      {Q : A → World → Type 0} (code : Option Code) (c : Code)
      → Meets (Open (some failed) ready code) (leave c) Q (λ _. Refused true)
  leave-Refused code c = record { ends = λ w h. failed-Refused ready code w h }

  -- However a call ends before the adapter, it ends refused.
  pub stop_before-Refused :
      {Q : A → World → Type 0} (outcome : AuditOutcome) (md : AuditMetadata) (code : Option Code)
      (error : Code)
      → Meets (Open row ready none) (stop_before env t outcome md code error) Q (λ _. Refused true)
  unfolding stop_before fail_pre_execution
  stop_before-Refused outcome md code error =
      after-Meets {m = set_result (λ r. record r { error_code = code })}
        {Q = λ _. Open row ready code} (record { ends = λ w h. ground arith })
        (λ _.
          after-Meets
            (fail_execution_with-Open env row ready code _
              (record_pre_execution-Staged env row ready code t.conn t.trace t.now outcome md))
            (λ _. leave-Refused code error))

module _ (env : Env) (t : Task) where
  check_decision-Passes :
      (d : PolicyDecision) (code : Option Code)
      → Passes (some pending) (some pending) false (check_decision env t d code)
  unfolding check_decision
  check_decision-Passes d code =
      if-Meets d.allowed {m = give tt} (record { ends = λ w h. h })
        (stop_before-Refused env t (some pending) false outcome_denied
          (denial t (policy_reason d.reason_code)) code read_not_allowed)

  check_limits-Open :
      (policy : ConnectionPolicy)
      → Meets
          (Open (some pending) false none)
          (check_limits env t policy)
          (λ _. Open (some pending) false none)
          (λ _. Refused true)
  unfolding check_limits
  check_limits-Open policy =
      if-Meets (not (allows_read policy))
        (stop_before-Refused env t (some pending) false outcome_denied
          (denial t (code_reason read_not_allowed)) (some read_not_allowed) read_not_allowed)
        (if-Meets
          (not (is_positive policy.statement_timeout_ms) || not (is_positive policy.max_rows))
          {n = give policy}
          (stop_before-Refused env t (some pending) false outcome_failed (failure t internal_error)
            (some internal_error) internal_error)
          (record { ends = λ w h. h }))

  judge_policy-Open :
      (answer : Result Cause (Option ConnectionPolicy))
      → Meets
          (Open (some pending) false none)
          (judge_policy env t answer)
          (λ _. Open (some pending) false none)
          (λ _. Refused true)
  unfolding judge_policy
  judge_policy-Open (err e) =
      stop_before-Refused env t (some pending) false outcome_failed
        (failure t (map_policy_store_error e)) (some (map_policy_store_error e))
        (map_policy_store_error e)
  judge_policy-Open (ok none) =
      stop_before-Refused env t (some pending) false outcome_denied
        (denial t (code_reason policy_not_configured)) (some policy_not_configured)
        policy_not_configured
  judge_policy-Open (ok (some policy)) = check_limits-Open policy

  check_policy-Open :
      Meets
        (Open (some pending) false none)
        (check_policy env t)
        (λ _. Open (some pending) false none)
        (λ _. Refused true)
  unfolding check_policy
  check_policy-Open = record {
    ends = λ w h.
        (judge_policy-Open (env.policy w.log t.conn)).ends (note reads_policy w)
          (reads_policy-Open (some pending) false none w h);
  }

module _ (env : Env) (row : Option ExecutionStatus) (ready : Bool) (result_code : Option Code) where
  alarm_on_decryption-Open :
      (code : Option Code)
      → Meets
          (Open row ready result_code)
          (alarm_on_decryption code)
          (λ _. Open row ready result_code)
          (λ _. Open row ready result_code)
  unfolding alarm_on_decryption books enter
  alarm_on_decryption-Open code = record { ends = λ w h. ground arith }

  write_credential_failure-Staged :
      (conn : Connection) (trace : String) (now : ℕ) (code : Option Code) (why : CredentialError)
      → Meets
          (Open row ready result_code)
          (write_credential_failure env conn trace now code why)
          (λ _. Staged row ready result_code failed)
          (λ _. Open row ready result_code)
  unfolding write_credential_failure update_failed update_execution new_audit_event append_audit_tx
      books enter
  write_credential_failure-Staged conn trace now code why = record { ends = λ w h. ground arith }

  pub record_credential_failure-Staged :
      (conn : Connection) (trace : String) (now : ℕ) (why : CredentialError)
      → Meets
          (Open row ready result_code)
          (record_credential_failure env conn trace now why)
          (λ _. Staged row ready result_code failed)
          (λ _. Open row ready result_code)
  unfolding record_credential_failure
  record_credential_failure-Staged conn trace now why = record {
    ends = λ w h.
        resume-Ends (alarm_on_decryption w.result.error_code w)
          ((alarm_on_decryption-Open w.result.error_code).ends w h)
          (λ _. write_credential_failure-Staged conn trace now w.result.error_code why);
  }

module _ (env : Env) (t : Task) where
  judge_credential-Open :
      (answer : Result CredentialError CredentialPayload)
      → Meets
          (Open (some pending) false none)
          (judge_credential env t answer)
          (λ _. Open (some pending) true none)
          (λ _. Refused true)
  unfolding judge_credential books enter
  judge_credential-Open (ok payload) = record { ends = λ w h. ground arith }
  judge_credential-Open (err why) =
      after-Meets {m = emit (resolves false)} {Q = λ _. Open (some pending) false none}
        (record { ends = λ w h. ground arith })
        (λ _.
          after-Meets
            {m = set_result (λ r. record r {
              credential_resolved = false;
              error_code = some (map_credential_error why.code);
            })}
            {Q = λ _. Open (some pending) false (some (map_credential_error why.code))}
            (record { ends = λ w h. ground arith })
            (λ _.
              after-Meets
                (fail_execution_with-Open env (some pending) false
                  (some (map_credential_error why.code)) _
                  (record_credential_failure-Staged env (some pending) false
                    (some (map_credential_error why.code)) t.conn t.trace t.now why))
                (λ _.
                  leave-Refused env t (some pending) false (some (map_credential_error why.code))
                    (map_credential_error why.code))))

  resolve_credential-Open :
      Meets
        (Open (some pending) false none)
        (resolve_credential env t)
        (λ _. Open (some pending) true none)
        (λ _. Refused true)
  unfolding resolve_credential
  resolve_credential-Open = record {
    ends = λ w h. (judge_credential-Open (env.resolve w.log t.conn)).ends w h;
  }

  config_at-Open :
      (payload : CredentialPayload) (revision : Option ℤ)
      → Meets
          (Open (some pending) true none)
          (config_at env t payload revision)
          (λ _. Open (some pending) true none)
          (λ _. Refused true)
  unfolding config_at
  config_at-Open payload none =
      stop_before-Refused env t (some pending) true outcome_failed (failure t internal_error)
        (some internal_error) internal_error
  config_at-Open payload (some v) = record { ends = λ w h. h }

  -- From the pending row the phases in front of the adapter get to a row that is durably running,
  -- with the credential resolved, or refuse.
  pub prepare-Open :
      (d : PolicyDecision) (code : Option Code)
      → Meets
          (Open (some pending) false none)
          (prepare env t d code)
          (λ _. Open (some running) true none)
          (λ _. Refused true)
  unfolding prepare check_policy resolve_credential check_revision
  prepare-Open d code = after-Meets (check_decision-Passes env t d code) (λ _.
      bind-Meets (check_policy-Open env t) (λ policy. bind-Meets resolve_credential-Open (λ payload.
        bind-Meets (config_at-Open payload (connection_config_revision t.conn))
          (λ cfg. after-Meets (mark_running-Passes env) (λ _. record { ends = λ w h. h })))))
