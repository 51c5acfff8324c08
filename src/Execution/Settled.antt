-- ===== src/Execution/Settled.antt =====
-- The conditions that the phases of the pipeline hand on to each other, and the ends of a call that
-- fails, for execution/pipeline.go.
use web_db.Prelude.{String, ℕ, ◌≡◌, Bool, true, false, not, ◌||◌, Option, none, some, arith}
use web_db.Execution.Codes.{Code}
use web_db.Execution.Data.{
  Connection, ExecutionStatus, pending, running, failed, AuditOutcome, AuditMetadata,
  ExecuteRequest,
}
use web_db.Execution.World.{World, Env, Program, on_error}
use web_db.Execution.Books.{books, enter, is_terminal}
use web_db.Execution.Audit.{
  update_failed, append_pre_execution, Step, roll_back, begin_tx, commit_tx, update_execution,
  create_execution, append_audit_tx, new_audit_event, fail_audit, record_pre_execution,
  fail_execution_with,
}
use web_db.Execution.Execute.{Task, create_pending, mark_running}
use web_db.Execution.Rules.{Meets, after-Meets, deferred-Meets, on_error-Meets}

-- The durable row, the credential, the result's code, and no handle.
pub record At (row : Option ExecutionStatus) (ready : Bool) (code : Option Code) (w : World)
    : Type 0 where
  pub stored : (books w.log).stored ≡ row
  pub resolved : (books w.log).resolved ≡ ready
  pub holds : (books w.log).held ≡ not w.released
  pub idle : w.released ≡ true
  pub clean : (books w.log).fouled ≡ false
  pub coded : w.result.error_code ≡ code

-- The result shows no page and no token.
pub record Withheld (w : World) : Type 0 where
  pub no_page : w.result.result ≡ none
  pub no_token : w.result.next_page_token ≡ none

abbrev pub is_settled : Option ExecutionStatus → Bool
is_settled none = true
is_settled (some s) = is_terminal s

-- A call that failed: nothing is shown, and there is no row that stays pending or running unless
-- an alarm went off. `back` says whether the handle is given back already.
pub record Refused (back : Bool) (w : World) : Type 0 where
  pub withheld : Withheld w
  pub settled : ((books w.log).alarmed || is_settled (books w.log).stored) ≡ true
  pub given_back : w.released ≡ back
  pub holds : (books w.log).held ≡ not back
  pub clean : (books w.log).fouled ≡ false

pub roll_back-Refused : (back : Bool) (w : World) → Refused back w → Refused back (roll_back w)
unfolding books enter
roll_back-Refused back w h = ground arith

-- A phase that goes on with the row at another status.
abbrev pub Passes :
    Option ExecutionStatus → Option ExecutionStatus → Bool → Program Code (Unit {0}) → Type 0
Passes before after ready m =
    Meets (λ w. At before ready none w × Withheld w) m (λ _ w. At after ready none w × Withheld w)
      (λ _. Refused true)

pub create_pending-Passes :
    (env : Env) (req : ExecuteRequest) (t : Task)
    → Passes none (some pending) false (create_pending env req t)
unfolding create_pending begin_tx create_execution commit_tx books enter
create_pending-Passes env req t = record { ends = λ w h. ground arith }

pub mark_running-Passes : (env : Env) → Passes (some pending) (some running) true (mark_running env)
unfolding mark_running begin_tx update_execution commit_tx fail_audit books enter
mark_running-Passes env = record { ends = λ w h. ground arith }

-- The row and the result while a transaction of the call is open.
abbrev pub Open : Option ExecutionStatus → Bool → Option Code → World → Type 0
Open row ready code w = At row ready code w × Withheld w

abbrev pub Staged : Option ExecutionStatus → Bool → Option Code → ExecutionStatus → World → Type 0
Staged row ready code s w = Open row ready code w × ((books w.log).staged ≡ some s)

module _ (env : Env) (row : Option ExecutionStatus) (ready : Bool) (code : Option Code) where
  pub update_failed-Staged :
      (now : ℕ)
      → Meets
          (Open row ready code)
          (update_failed env now)
          (λ _. Staged row ready code failed)
          (λ _. Open row ready code)
  unfolding update_failed update_execution books enter
  update_failed-Staged now = record { ends = λ w h. ground arith }

  append_pre_execution-Staged :
      (conn : Connection) (trace : String) (now : ℕ) (outcome : AuditOutcome) (md : AuditMetadata)
      → Meets
          (Staged row ready code failed)
          (append_pre_execution env conn trace now outcome md)
          (λ _. Staged row ready code failed)
          (λ _. Open row ready code)
  unfolding append_pre_execution new_audit_event append_audit_tx books enter
  append_pre_execution-Staged conn trace now outcome md = record { ends = λ w h. ground arith }

  pub record_pre_execution-Staged :
      (conn : Connection) (trace : String) (now : ℕ) (outcome : AuditOutcome) (md : AuditMetadata)
      → Meets
          (Open row ready code)
          (record_pre_execution env conn trace now outcome md)
          (λ _. Staged row ready code failed)
          (λ _. Open row ready code)
  unfolding record_pre_execution
  record_pre_execution-Staged conn trace now outcome md =
      after-Meets (update_failed-Staged now)
        (λ _. append_pre_execution-Staged conn trace now outcome md)

  begin_or_fail-Open :
      Meets
        (Open row ready code)
        (on_error (begin_tx env) (λ _. fail_audit {A = Unit {0}}))
        (λ _. Open row ready code)
        (λ _. Refused true)
  unfolding begin_tx fail_audit books enter
  begin_or_fail-Open = record { ends = λ w h. ground arith }

  pub fail_audit-Refused :
      Meets
        (Open row ready code)
        (fail_audit {A = Unit {0}})
        (λ _. Staged row ready code failed)
        (λ _. Refused true)
  unfolding fail_audit books enter
  fail_audit-Refused = record { ends = λ w h. ground arith }

  commit_failed-Open :
      Meets
        (Staged row ready code failed)
        (on_error (commit_tx env) (λ _. fail_audit {A = Unit {0}}))
        (λ _. Open (some failed) ready code)
        (λ _. Refused true)
  unfolding commit_tx fail_audit books enter
  commit_failed-Open = record { ends = λ w h. ground arith }

  roll_back-Open :
      (s : Option ExecutionStatus) (w : World)
      → Open s ready code w
      → Open s ready code (roll_back w)
  unfolding books enter
  roll_back-Open s w h = ground arith

  -- A recorder that stages the failed row makes the call's failure durable, or sounds the alarm.
  pub fail_execution_with-Open :
      (recording : Step)
      → Meets
          (Open row ready code)
          recording
          (λ _. Staged row ready code failed)
          (λ _. Open row ready code)
      → Meets
          (Open row ready code)
          (fail_execution_with env recording)
          (λ _. Open (some failed) ready code)
          (λ _. Refused true)
  unfolding fail_execution_with
  fail_execution_with-Open recording h = after-Meets begin_or_fail-Open (λ _.
      deferred-Meets roll_back
        (after-Meets (on_error-Meets h (λ _. fail_audit-Refused)) (λ _. commit_failed-Open))
        (λ _. roll_back-Open (some failed)) (λ _. roll_back-Refused true))
