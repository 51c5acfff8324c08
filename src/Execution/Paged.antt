-- ===== src/Execution/Paged.antt =====
-- `ExecuteNextPage` of execution/pipeline.go, in front of the handle: what each check leaves behind.
use web_db.Prelude.{
  ℤ, String, Bool, true, false, Option, none, some, arith, Result, ok, err, str_eq,
}
use web_db.Pagination.Quota.{Registry}
use web_db.Pagination.Registry.{Claim}
use web_db.Execution.Codes.{
  Cause, Code, internal_error, invalid_page_token, AdapterError, map_adapter_error,
  map_credential_error, map_policy_store_error,
}
use web_db.Execution.Data.{
  Connection, ConnectionPolicy, CredentialPayload, ExecutionStatus, running, NextPageRequest,
}
use web_db.Execution.World.{
  reads_policy, World, Env, Program, note, emit, on_error, set_result, with_code, give, change,
  CredentialError, resolves,
}
use web_db.Execution.Books.{books, enter}
use web_db.Execution.Audit.{StoreError, begin_tx, create_execution, commit_tx, fail_audit}
use web_db.Execution.Execute.{Task, connect_config, read_connection}
use web_db.Execution.NextPage.{
  known_id, abort_claim, abort_and_fail, require, aborting, rejudge_policy, recheck_policy,
  reauthorize, is_unchanged, begin_continuation_execution, begin_failed, finalize_continuation,
  stop_page, rejudge_credential, resolve_again, config_again, plain_error,
}
use web_db.Execution.Rules.{
  Meets, bind-Meets, after-Meets, on_error-Meets, Meets-from, leave-Meets, give-Meets, if-Meets,
}
use web_db.Execution.Settled.{Withheld, Refused, Open, fail_execution_with-Open}
use web_db.Execution.Before.{reads_policy-Open, record_credential_failure-Staged, leave-Refused}
use web_db.Execution.After.{Held, fail_audit-Refused, record_post_execution-Refused}
use web_db.Execution.Delivery.{Begun, check_member-Begun}

-- A change of the registry changes none of these conditions.
pub Open-registry :
    (row : Option ExecutionStatus) (ready : Bool) (code : Option Code) (r : Registry) (w : World)
    → Open row ready code w
    → Open row ready code (record w { registry = r })
Open-registry row ready code r w h = ground arith

pub Refused-registry :
    (back : Bool) (r : Registry) (w : World)
    → Refused back w
    → Refused back (record w { registry = r })
Refused-registry back r w h = ground arith

module _ {A : Type 0} (env : Env) (c : Claim) where
  pub abort_and_fail-Refused :
      {Q : A → World → Type 0} (code : Code)
      → Meets Begun (abort_and_fail env c code) Q (λ _. Refused true)
  unfolding abort_and_fail abort_claim
  abort_and_fail-Refused code = record { ends = λ w h. ground arith }

  aborting-Begun :
      (body : Program Code A)
      → Meets Begun body (λ _. Begun) (λ _. Refused true)
      → Meets Begun (aborting env c body) (λ _. Begun) (λ _. Refused true)
  unfolding abort_claim
  aborting-Begun body h =
      on_error-Meets h (λ code. record { ends = λ w g. Refused-registry true _ w g })

module _ (env : Env) (c : Claim) where
  require-Begun :
      (b : Bool) (code : Code) → Meets Begun (require env c b code) (λ _. Begun) (λ _. Refused true)
  require-Begun true code = record { ends = λ w h. h }
  require-Begun false code = abort_and_fail-Refused env c code

  rejudge_policy-Begun :
      (answer : Result Cause (Option ConnectionPolicy))
      → Meets Begun (rejudge_policy env c answer) (λ _. Begun) (λ _. Refused true)
  unfolding rejudge_policy
  rejudge_policy-Begun (err e) = abort_and_fail-Refused env c (map_policy_store_error e)
  rejudge_policy-Begun (ok none) = abort_and_fail-Refused env c invalid_page_token
  rejudge_policy-Begun (ok (some policy)) =
      if-Meets (is_unchanged policy c.state.policy_version) {m = give policy}
        (give-Meets policy (λ _ h. h)) (abort_and_fail-Refused env c invalid_page_token)

  recheck_policy-Begun :
      (conn : Connection) → Meets Begun (recheck_policy env c conn) (λ _. Begun) (λ _. Refused true)
  unfolding recheck_policy
  recheck_policy-Begun conn = record {
    ends = λ w h.
        (rejudge_policy-Begun (env.policy w.log conn)).ends (note reads_policy w)
          (reads_policy-Open none false none w h);
  }

  read_connection-Begun :
      (workspace id : String)
      → Meets Begun (read_connection env workspace id) (λ _. Begun) (λ _. Refused true)
  unfolding read_connection books enter
  read_connection-Begun workspace id = record { ends = λ w h. ground arith }

  parsed-Begun :
      (o : Option String) → Meets Begun (known_id env c o) (λ _. Begun) (λ _. Refused true)
  parsed-Begun none = abort_and_fail-Refused env c invalid_page_token
  parsed-Begun (some id) = give-Meets id (λ _ h. h)

  pub reauthorize-Begun :
      (req : NextPageRequest) → Meets Begun (reauthorize env req c) (λ _. Begun) (λ _. Refused true)
  unfolding reauthorize
  reauthorize-Begun req = after-Meets (require-Begun _ invalid_page_token) (λ _.
      after-Meets
        (aborting-Begun env c _
          (check_member-Begun env req.principal.workspace_id req.principal.user_id))
        (λ _. bind-Meets (parsed-Begun (env.parse_id c.state.connection_id)) (λ id.
          bind-Meets (aborting-Begun env c _ (read_connection-Begun req.principal.workspace_id id))
            (λ conn.
              after-Meets (require-Begun (str_eq conn.id c.state.connection_id) invalid_page_token)
                (λ _.
                  after-Meets
                    {m = set_result
                      (λ r. record r { engine = conn.engine; page_size = c.state.page_size })}
                    {Q = λ _. Begun} (record { ends = λ w h. ground arith })
                    (λ _.
                      bind-Meets (recheck_policy-Begun conn)
                        (λ policy. give-Meets (conn, policy) (λ _ h. h))))))))

module _ (env : Env) (req : NextPageRequest) (c : Claim) where
  begin_continuation_execution-Open :
      (conn : Connection)
      → Meets Begun
          (begin_continuation_execution env req c.state conn)
          (λ _. Open (some running) false none)
          (λ _. Begun)
  unfolding begin_continuation_execution begin_tx create_execution commit_tx books enter
  begin_continuation_execution-Open conn = record { ends = λ w h. ground arith }

  begin_failed-Refused :
      {Q : Task → World → Type 0} (e : StoreError)
      → Meets Begun (begin_failed env c e) Q (λ _. Refused true)
  unfolding abort_claim fail_audit books enter
  begin_failed-Refused e = record { ends = λ w h. ground arith }

  pub start_row-Open :
      (conn : Connection)
      → Meets Begun
          (on_error (begin_continuation_execution env req c.state conn) (begin_failed env c))
          (λ _. Open (some running) false none)
          (λ _. Refused true)
  start_row-Open conn = on_error-Meets (begin_continuation_execution-Open conn) begin_failed-Refused

-- Nothing is shown yet, and the handle is given back or not.
abbrev pub Silent : Bool → World → Type 0
Silent back w = Withheld w × Held back w

module _ (env : Env) (c : Claim) (t : Task) where
  pub finalize_continuation-Refused :
      (back : Bool) (why : Option AdapterError)
      → Meets (Silent back) (finalize_continuation env t why) (λ _. Refused back) (λ _. Held back)
  unfolding finalize_continuation
  finalize_continuation-Refused back none =
      record_post_execution-Refused back env t.conn t.trace t.hash
  finalize_continuation-Refused back (some e) =
      after-Meets
        {m = set_result (λ r. record r {
          error_code = (elim r.error_code [ none ↦ some (map_adapter_error e) | some c ↦ some c ]);
        })}
        {Q = λ _. Silent back} (record { ends = λ w h. ground arith })
        (λ _. record_post_execution-Refused back env t.conn t.trace t.hash)

  pub stop_page-Refused :
      {A : Type 0} {Q : A → World → Type 0} (back : Bool) (why : Option AdapterError) (code : Code)
      → Meets (Silent back) (stop_page env c t why code) Q (λ _. Refused back)
  unfolding stop_page abort_claim
  stop_page-Refused back why code =
      after-Meets {m = change (abort_claim env c)} {Q = λ _. Silent back}
        (record { ends = λ w h. ground arith })
        (λ _.
          after-Meets {m = set_result (with_code code)} {Q = λ _. Silent back}
            (record { ends = λ w h. ground arith })
            (λ _.
              after-Meets
                (on_error-Meets (finalize_continuation-Refused back why)
                  (λ _. fail_audit-Refused back (λ _. Refused back)))
                (λ _. leave-Meets code (λ _ h. h))))

  pub Open-Silent :
      (row : Option ExecutionStatus) (ready : Bool) (w : World)
      → Open row ready none w
      → Silent true w
  Open-Silent row ready w h = ground arith

  rejudge_credential-Open :
      (answer : Result CredentialError CredentialPayload)
      → Meets
          (Open (some running) false none)
          (rejudge_credential env c t answer)
          (λ _. Open (some running) true none)
          (λ _. Refused true)
  unfolding rejudge_credential abort_claim books enter
  rejudge_credential-Open (ok payload) = record { ends = λ w h. ground arith }
  rejudge_credential-Open (err why) =
      let code : Option Code = some (map_credential_error why.code) in
      after-Meets {m = emit (resolves false)} {Q = λ _. Open (some running) false none}
        (record { ends = λ w h. ground arith })
        (λ _.
          after-Meets {m = change (abort_claim env c)} {Q = λ _. Open (some running) false none}
            (record { ends = λ w h. Open-registry (some running) false none _ w h })
            (λ _.
              after-Meets {m = set_result (with_code (map_credential_error why.code))}
                {Q = λ _. Open (some running) false code} (record { ends = λ w h. ground arith })
                (λ _.
                  after-Meets
                    (fail_execution_with-Open env (some running) false code _ (
                      record_credential_failure-Staged env (some running) false code t.conn t.trace
                        t.now why))
                    (λ _.
                      leave-Refused env t (some running) false code
                        (map_credential_error why.code)))))

  pub resolve_again-Open :
      Meets
        (Open (some running) false none)
        (resolve_again env c t)
        (λ _. Open (some running) true none)
        (λ _. Refused true)
  unfolding resolve_again
  resolve_again-Open = record {
    ends = λ w h. (rejudge_credential-Open (env.resolve w.log t.conn)).ends w h;
  }

  pub config_again-Open :
      (payload : CredentialPayload) (revision : Option ℤ)
      → Meets
          (Open (some running) true none)
          (config_again env c t payload revision)
          (λ _. Open (some running) true none)
          (λ _. Refused true)
  unfolding config_again
  config_again-Open payload none =
      Meets-from (Open-Silent (some running) true)
        (stop_page-Refused true (some plain_error) internal_error)
  config_again-Open payload (some revision) =
      give-Meets (connect_config env t.conn revision payload) (λ _ h. h)
