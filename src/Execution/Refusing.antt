-- ===== src/Execution/Refusing.antt =====
-- A statement that the policy refuses, in `Execute` of execution/pipeline.go.
use web_db.Prelude.{
  ℕ, ◌≡◌, Bool, true, false, not, ◌&&◌, ◌||◌, String, [], ◌∷◌, Option, some, arith, if◌then◌else◌,
}
use web_db.SqlPolicy.Types.{PolicyDecision}
use web_db.Execution.Codes.{Code, internal_error, read_not_allowed}
use web_db.Execution.Data.{
  Connection, AuditOutcome, outcome_denied, AuditMetadata, ExecuteRequest, policy_reason,
}
use web_db.Execution.World.{
  World, Env, Program, Event, Log, resolves, acquires, acquire_fails, resolves_table, loads_table,
  queries, pages, releases, on_error, set_result, give, fail,
}
use web_db.Execution.Audit.{
  roll_back, begin_tx, commit_tx, create_execution, update_execution, append_audit_tx,
  new_audit_event, update_failed, append_pre_execution, record_pre_execution, fail_audit,
  fail_execution_with, fail_pre_execution,
}
use web_db.Execution.Execute.{
  Task, judge, hash_of, denial, check_member, check_connection, read_connection, create_pending,
  stop_before, check_decision, prepare,
}
use web_db.Execution.Query.{run_pending, execute}
use web_db.Execution.Rules.{
  Ends, Meets, bind-Meets, after-Meets, deferred-Meets, on_error-Meets, leave-Meets, look-Meets,
}

-- An event of the credential resolver or of the adapter.
abbrev touches : Event → Bool
touches (resolves good) = true
touches acquires = true
touches acquire_fails = true
touches resolves_table = true
touches loads_table = true
touches (queries q) = true
touches (pages p) = true
touches releases = true
touches _ = false

unfoldable pub touched : Log → Bool
touched [] = false
touched (e ∷ es) = touches e || touched es

abbrev pub Untouched : World → Type 0
Untouched w = touched w.log ≡ false

abbrev Quiet : {E A : Type 0} → Program E A → Type 0
Quiet m = Meets Untouched m (λ _. Untouched) (λ _. Untouched)

module _ (env : Env) where
  begin_or_fail-Quiet : Quiet (on_error (begin_tx env) (λ _. fail_audit {A = Unit {0}}))
  unfolding begin_tx fail_audit touched
  begin_or_fail-Quiet = record { ends = λ w h. ground arith }

  commit_or_fail-Quiet : Quiet (on_error (commit_tx env) (λ _. fail_audit {A = Unit {0}}))
  unfolding commit_tx fail_audit touched
  commit_or_fail-Quiet = record { ends = λ w h. ground arith }

  update_failed-Quiet : (now : ℕ) → Quiet (update_failed env now)
  unfolding update_failed update_execution touched
  update_failed-Quiet now = record { ends = λ w h. ground arith }

  append_pre_execution-Quiet :
      (conn : Connection) (trace : String) (now : ℕ) (outcome : AuditOutcome) (md : AuditMetadata)
      → Quiet (append_pre_execution env conn trace now outcome md)
  unfolding append_pre_execution append_audit_tx new_audit_event touched
  append_pre_execution-Quiet conn trace now outcome md = record { ends = λ w h. ground arith }

  fail_audit-Quiet : Quiet (fail_audit {A = Unit {0}})
  unfolding fail_audit touched
  fail_audit-Quiet = record { ends = λ w h. ground arith }

  roll_back-Untouched : (w : World) → Untouched w → Untouched (roll_back w)
  unfolding touched
  roll_back-Untouched w h = ground arith

  fail_pre_execution-Quiet :
      (conn : Connection) (trace : String) (now : ℕ) (outcome : AuditOutcome) (md : AuditMetadata)
      → Quiet (fail_pre_execution env conn trace now outcome md)
  unfolding fail_pre_execution fail_execution_with record_pre_execution
  fail_pre_execution-Quiet conn trace now outcome md = after-Meets begin_or_fail-Quiet (λ _.
      deferred-Meets roll_back
        (after-Meets
          (on_error-Meets
            (after-Meets (update_failed-Quiet now)
              (λ _. append_pre_execution-Quiet conn trace now outcome md))
            (λ _. fail_audit-Quiet))
          (λ _. commit_or_fail-Quiet))
        (λ _. roll_back-Untouched) (λ _. roll_back-Untouched))

  -- A phase that never goes on.
  abbrev Stops : {A : Type 0} → Program Code A → Type 0
  Stops m = Meets Untouched m (λ _ _. ⊥) (λ _. Untouched)

  check_decision-Stops :
      (t : Task) (d : PolicyDecision) (code : Option Code)
      → d.allowed ≡ false
      → Stops (check_decision env t d code)
  unfolding check_decision stop_before
  check_decision-Stops t d code refused = rw refused (
      after-Meets {m = set_result (λ r. record r { error_code = code })} {Q = λ _. Untouched}
        (record { ends = λ w h. h })
        (λ _.
          after-Meets
            (fail_pre_execution-Quiet t.conn t.trace t.now outcome_denied
              (denial t (policy_reason d.reason_code)))
            (λ _. leave-Meets read_not_allowed (λ _ h. h))))

  never-Meets :
      {E A : Type 0} {Q : A → World → Type 0} {F : E → World → Type 0} (m : Program E A)
      → Meets (λ _. ⊥) m Q F
  never-Meets m = record { ends = λ w h. absurd h }

  run_pending-Stops :
      (req : ExecuteRequest) (t : Task) (d : PolicyDecision) (code : Option Code)
      → d.allowed ≡ false
      → Stops (run_pending env req t (d, code))
  unfolding run_pending prepare
  run_pending-Stops req t d code refused =
      bind-Meets (after-Meets (check_decision-Stops t d code refused) (λ _. never-Meets _))
        (λ prepared. never-Meets _)

  guard-Quiet : (b : Bool) → Quiet (if b then fail {A = Unit {0}} internal_error else give tt)
  guard-Quiet true = record { ends = λ w h. h }
  guard-Quiet false = record { ends = λ w h. h }

  check_member-Quiet : (workspace user : String) → Quiet (check_member env workspace user)
  unfolding check_member touched
  check_member-Quiet workspace user = record { ends = λ w h. ground arith }

  check_connection-Quiet : (req : ExecuteRequest) → Quiet (check_connection env req)
  unfolding check_connection read_connection touched
  check_connection-Quiet req = record { ends = λ w h. ground arith }

  create_pending-Quiet : (req : ExecuteRequest) (t : Task) → Quiet (create_pending env req t)
  unfolding create_pending begin_tx create_execution commit_tx touched
  create_pending-Quiet req t = record { ends = λ w h. ground arith }

  execute-Stops :
      (req : ExecuteRequest)
      → ((engine : String) → (judge env engine req.sql).0.allowed ≡ false)
      → Stops (execute env req)
  unfolding execute
  execute-Stops req refused = after-Meets (guard-Quiet (not (env.has_parts && env.has_audit))) (λ _.
      after-Meets (check_member-Quiet req.principal.workspace_id req.principal.user_id) (λ _.
        bind-Meets (check_connection-Quiet req) (λ conn.
          bind-Meets
            (look-Meets Untouched (λ w. record {
              conn = conn;
              trace = env.new_trace w.log;
              now = env.clock w.log;
              hash = hash_of env (judge env conn.engine req.sql).0 req.sql;
            }))
            (λ t.
              after-Meets
                {m = set_result (λ r. record r {
                  decision = some (judge env conn.engine req.sql).0;
                  trace_id = t.trace;
                })}
                {Q = λ _. Untouched} (record { ends = λ w h. h })
                (λ _. after-Meets (create_pending-Quiet req t) (λ _.
                  run_pending-Stops req t (judge env conn.engine req.sql).0
                    (judge env conn.engine req.sql).1 (refused conn.engine)))))))

-- Where the policy refuses the statement for every engine, Execute returns an error, and asks
-- neither the resolver of credentials nor the adapter for anything.
pub execute-refused :
    (env : Env) (req : ExecuteRequest) (w : World)
    → ((engine : String) → (judge env engine req.sql).0.allowed ≡ false)
    → Untouched w
    → Ends (λ _ _. ⊥) (λ _. Untouched) (execute env req w)
execute-refused env req w refused h = (execute-Stops env req refused).ends w h
