-- ===== src/Execution/Failing.antt =====
-- Ends of an execution that are about its audit (execution/pipeline.go): the panic finalizer, the
-- alarm of a credential failure, and a receipt whose audit was not committed.
use web_db.Prelude.{
  String, ℕ, ◌≡◌, refl, Bool, true, false, if◌then◌else◌, ◌⊎◌, inl, List, [], ◌∷◌, Option, none,
  some, arith, Result, ok, err,
}
use web_db.Execution.Codes.{
  internal_error, CredentialCode, credential_decryption_failed, credential_unknown_kek_version,
  map_credential_error, is_decrypt_failure_code,
}
use web_db.Execution.Data.{
  Connection, ExecutionStatus, failed, AuditOutcome, outcome_failed, AuditMetadata,
}
use web_db.Execution.World.{World, Env, note, on_error, alarms}
use web_db.Execution.Books.{books, enter}
use web_db.Execution.Audit.{
  StoreError, begin_tx, commit_tx, roll_back, update_execution, append_audit_tx, new_audit_event,
  execution_event, mark_failed, alarm_on_decryption, update_failed, append_pre_execution,
  record_pre_execution, fail_execution_with, fail_pre_execution, fail_audit,
}
use web_db.Execution.Finish.{close_panic, panic_event, close_begun, finalize_panic}
use web_db.Execution.Rules.{Ends, Meets, after-Meets, on_error-Meets, deferred-Meets}
use web_db.Execution.After.{last_audit}

-- The row is failed, and the last audit says so.
pub record Finalized (w : World) : Type 0 where
  pub row : (books w.log).stored ≡ some failed
  pub audit : last_audit (books w.log).audited ≡ some outcome_failed

-- The end of a panicking call, which never is an error of its own.
abbrev pub Settles : World → Type 0
Settles w = ((books w.log).alarmed ≡ true) ⊎ Finalized w

-- Is it a failed decryption, or a key that is not known?
abbrev pub rings : Option CredentialCode → Bool
rings (some credential_decryption_failed) = true
rings (some credential_unknown_kek_version) = true
rings _ = false

-- The failure of a credential sounds the alarm exactly for a failed decryption and for an unknown
-- key version, and does nothing else: not for a payload that is invalid or too large, which are
-- reported as an internal error.
pub alarm_on_decryption-rings :
    (why : Option CredentialCode) (w : World)
    → alarm_on_decryption (some (map_credential_error why)) w
      ≡ (ok tt, if rings why then note (alarms (map_credential_error why)) w else w)
unfolding alarm_on_decryption is_decrypt_failure_code map_credential_error
alarm_on_decryption-rings why w = ground arith

-- The durable row and audits.
pub record Kept (row : Option ExecutionStatus) (audits : List AuditOutcome) (w : World)
    : Type 0 where
  pub row_kept : (books w.log).stored ≡ row
  pub audits_kept : (books w.log).audited ≡ audits

module _ (row : Option ExecutionStatus) (past : List AuditOutcome) where
  -- The same with a transaction open that has written this.
  abbrev Writing : Option ExecutionStatus → List AuditOutcome → World → Type 0
  Writing s os w = Kept row past w × ((books w.log).staged ≡ s) × ((books w.log).staged_audits ≡ os)

  abbrev pub Alarmed : World → Type 0
  Alarmed w = Kept row past w × ((books w.log).alarmed ≡ true)

  begin_tx-Writing :
      (env : Env)
      → Meets
          (Kept row past)
          (on_error (begin_tx env) (λ _. fail_audit {A = Unit {0}}))
          (λ _. Writing none [])
          (λ _. Alarmed)
  unfolding begin_tx fail_audit books enter
  begin_tx-Writing env = record { ends = λ w h. ground arith }

  update_failed-Writing :
      (env : Env) (now : ℕ)
      → Meets
          (Writing none [])
          (update_failed env now)
          (λ _. Writing (some failed) [])
          (λ _. Kept row past)
  unfolding update_failed update_execution books enter
  update_failed-Writing env now = record { ends = λ w h. ground arith }

  append_pre_execution-Writing :
      (env : Env) (conn : Connection) (trace : String) (now : ℕ) (outcome : AuditOutcome)
      (md : AuditMetadata)
      → Meets
          (Writing (some failed) [])
          (append_pre_execution env conn trace now outcome md)
          (λ _. Writing (some failed) (outcome ∷ []))
          (λ _. Kept row past)
  unfolding append_pre_execution append_audit_tx new_audit_event execution_event books enter
  append_pre_execution-Writing env conn trace now outcome md = record { ends = λ w h. ground arith }

  fail_audit-Alarmed :
      {Q : Unit {0} → World → Type 0}
      → Meets (Kept row past) (fail_audit {A = Unit {0}}) Q (λ _. Alarmed)
  unfolding fail_audit books enter
  fail_audit-Alarmed = record { ends = λ w h. ground arith }

  commit_tx-Kept :
      (env : Env) (outcome : AuditOutcome)
      → Meets
          (Writing (some failed) (outcome ∷ []))
          (on_error (commit_tx env) (λ _. fail_audit {A = Unit {0}}))
          (λ _. Kept (some failed) (outcome ∷ past))
          (λ _. Alarmed)
  unfolding commit_tx fail_audit books enter
  commit_tx-Kept env outcome = record { ends = λ w h. ground arith }

roll_back-Kept :
    (row : Option ExecutionStatus) (past : List AuditOutcome) (w : World)
    → Kept row past w
    → Kept row past (roll_back w)
unfolding books enter
roll_back-Kept row past w h = ground arith

roll_back-Alarmed :
    (row : Option ExecutionStatus) (past : List AuditOutcome) (w : World)
    → Alarmed row past w
    → Alarmed row past (roll_back w)
unfolding books enter
roll_back-Alarmed row past w h = ground arith

-- A failure before the adapter is recorded as one: either the row is durably failed and exactly the
-- one audit is added, or the call fails, the durable row and audits are as before, and the alarm has
-- gone off.
pub fail_pre_execution-atomic :
    (env : Env) (conn : Connection) (trace : String) (now : ℕ) (outcome : AuditOutcome)
    (md : AuditMetadata) (row : Option ExecutionStatus) (past : List AuditOutcome)
    → Meets
        (Kept row past)
        (fail_pre_execution env conn trace now outcome md)
        (λ _. Kept (some failed) (outcome ∷ past))
        (λ _. Alarmed row past)
unfolding fail_pre_execution fail_execution_with record_pre_execution
fail_pre_execution-atomic env conn trace now outcome md row past =
    after-Meets (begin_tx-Writing row past env) (λ _.
      deferred-Meets roll_back
        (after-Meets
          (on_error-Meets
            (after-Meets (update_failed-Writing row past env now)
              (λ _. append_pre_execution-Writing row past env conn trace now outcome md))
            (λ _. fail_audit-Alarmed row past))
          (λ _. commit_tx-Kept row past env outcome))
        (λ _. roll_back-Kept (some failed) (outcome ∷ past)) (λ _. roll_back-Alarmed row past))

panic_event-Staged :
    (env : Env) (conn : Connection) (trace : String) (now : ℕ)
    → Meets
        (λ w. ((books w.log).staged_audits ≡ []) × (w.execution.status ≡ failed))
        (panic_event env conn trace now)
        (λ _ w.
          ((books w.log).staged ≡ some failed)
          × ((books w.log).staged_audits ≡ outcome_failed ∷ []))
        (λ _ _. Unit {0})
unfolding panic_event update_execution append_audit_tx new_audit_event execution_event books enter
panic_event-Staged env conn trace now = record { ends = λ w h. ground arith }

-- What stands behind the panic event, by how it went.
after_event-Settles :
    (env : Env) (o : Result StoreError (Unit {0}) × World)
    → Ends
        (λ _ w.
          ((books w.log).staged ≡ some failed)
          × ((books w.log).staged_audits ≡ outcome_failed ∷ []))
        (λ _ _. Unit {0})
        o
    → Settles (close_panic env o).1
unfolding commit_tx books enter
after_event-Settles env (err e, v) h = ground arith
after_event-Settles env (ok done, v) h = ground arith

begun-Settles :
    (env : Env) (conn : Connection) (trace : String) (now : ℕ)
    (o : Result StoreError (Unit {0}) × World)
    → Ends
        (λ _ w. ((books w.log).staged_audits ≡ []) × (w.execution.status ≡ failed))
        (λ _ _. Unit {0})
        o
    → Settles (close_begun env conn trace now o).1
unfolding books enter
begun-Settles env conn trace now (err e, v) h = inl refl
begun-Settles env conn trace now (ok begun, v) h =
    after_event-Settles env (panic_event env conn trace now v)
      ((panic_event-Staged env conn trace now).ends v h)

begin_tx-Empty :
    (env : Env)
    → Meets
        (λ w. w.execution.status ≡ failed)
        (begin_tx env)
        (λ _ w. ((books w.log).staged_audits ≡ []) × (w.execution.status ≡ failed))
        (λ _ _. Unit {0})
unfolding begin_tx books enter
begin_tx-Empty env = record { ends = λ w h. ground arith }

-- The finalizer of a panic ends the execution for good: an alarm has gone off, or the row is durably
-- failed and the last durable audit says that it failed.
pub finalize_panic-Settles :
    (env : Env) (conn : Connection) (trace : String) (now : ℕ) (w : World)
    → Settles (finalize_panic env conn trace now w).1
unfolding finalize_panic
finalize_panic-Settles env conn trace now w =
    begun-Settles env conn trace now
      (begin_tx env (record w { execution = mark_failed now (some internal_error) w.execution }))
      ((begin_tx-Empty env).ends
        (record w { execution = mark_failed now (some internal_error) w.execution }) refl)
