-- ===== src/Execution/Delivery.antt =====
-- The end of `Execute` of execution/pipeline.go, and the whole of it.
mod Parts
pub use Parts.*
use web_db.Prelude.{
  ℤ, String, ◌≡◌, Bool, true, false, not, ◌&&◌, [], Option, none, some, arith, if◌then◌else◌, leb_ℤ,
}
use web_db.SqlPolicy.Types.{PolicyDecision}
use web_db.Execution.Codes.{Code, internal_error, map_adapter_error}
use web_db.Execution.Data.{
  ConnectionPolicy, ConnectConfig, pending, running, completed, ExecuteRequest,
}
use web_db.Execution.World.{World, Env, set_result, give, fail}
use web_db.Execution.Books.{books, enter}
use web_db.Execution.Execute.{Task, judge, hash_of, check_member, check_connection, read_connection}
use web_db.Execution.Query.{
  release_if_held, query_with_handle, run_phase_d, run_pending, execute, effective_page_size,
  effective_max_rows, first_request,
}
use web_db.Execution.Rules.{
  Ends, Meets, bind-Meets, after-Meets, deferred-Meets, on_error-Meets, look-Meets,
}
use web_db.Execution.Settled.{Withheld, Refused, Open, create_pending-Passes}
use web_db.Execution.Before.{prepare-Open}
use web_db.Execution.After.{stop_after-Refused}
use web_db.Execution.Served.{
  Using, Served, acquire_handle-Using, release_and_stop-Refused, run_query-Using,
  sort_if_needed-Using, token_if_needed-Using,
}

module _ (env : Env) (req : ExecuteRequest) (t : Task) where
  query_with_handle-Served :
      (policy : ConnectionPolicy) (size rows : ℤ)
      → Meets Using
          (query_with_handle env req t policy size rows)
          (λ _. Served true)
          (λ _. Refused true)
  unfolding query_with_handle
  query_with_handle-Served policy size rows =
      after-Meets {m = set_result (λ r. record r { adapter_called = true; page_size = size })}
        {Q = λ _. Using} (record { ends = λ w h. ground arith })
        (λ _. bind-Meets (sort_if_needed-Using env req t (not (leb_ℤ rows size))) (λ sorted.
          bind-Meets
            (on_error-Meets
              (run_query-Using env
                (first_request req (elim sorted [ none ↦ none | some s ↦ some s.0 ]) size rows))
              (release_and_stop-Refused env t map_adapter_error))
            (λ page.
              bind-Meets (token_if_needed-Using env req t policy sorted page size rows)
                (λ token. publish-Served env t page token))))

  run_phase_d-Served :
      (prepared : ConnectionPolicy × ConnectConfig)
      → Meets
          (Open (some running) true none)
          (run_phase_d env req t prepared)
          (λ _. Served true)
          (λ _. Refused true)
  unfolding run_phase_d
  run_phase_d-Served (policy, cfg) =
      after-Meets
        (on_error-Meets (acquire_handle-Using env cfg)
          (λ e. stop_after-Refused true env t (map_adapter_error e)))
        (λ _.
          deferred-Meets release_if_held
            (query_with_handle-Served policy
              (effective_page_size req.page_size (effective_max_rows policy))
              (effective_max_rows policy))
            (λ _. release_if_held-Served) (λ _. release_if_held-Refused))

  run_pending-Served :
      (d : PolicyDecision × Option Code)
      → Meets
          (Open (some pending) false none)
          (run_pending env req t d)
          (λ _. Served true)
          (λ _. Refused true)
  unfolding run_pending
  run_pending-Served (d, code) = bind-Meets (prepare-Open env t d code) run_phase_d-Served

-- A call begins with nothing to show, no handle and an empty log.
pub record Fresh (w : World) : Type 0 where
  pub empty_log : w.log ≡ []
  pub no_handle : w.released ≡ true
  pub uncoded : w.result.error_code ≡ none
  pub withheld : Withheld w

abbrev pub Begun : World → Type 0
Begun = Open none false none

pub Fresh-Begun : (w : World) → Fresh w → Begun w
unfolding books
Fresh-Begun w h = rw (h.empty_log) (ground arith)

pub guard-Begun :
    (b : Bool)
    → Meets Begun (if b then fail internal_error else give tt) (λ _. Begun) (λ _. Refused true)
guard-Begun true = record { ends = λ w h. ground arith }
guard-Begun false = record { ends = λ w h. h }

pub check_member-Begun :
    (env : Env) (workspace user : String)
    → Meets Begun (check_member env workspace user) (λ _. Begun) (λ _. Refused true)
unfolding check_member books enter
check_member-Begun env workspace user = record { ends = λ w h. ground arith }

module _ (env : Env) (req : ExecuteRequest) where
  check_connection-Begun : Meets Begun (check_connection env req) (λ _. Begun) (λ _. Refused true)
  unfolding check_connection read_connection books enter
  check_connection-Begun = record { ends = λ w h. ground arith }

  execute-Meets : Meets Begun (execute env req) (λ _. Served true) (λ _. Refused true)
  unfolding execute
  execute-Meets = after-Meets (guard-Begun (not (env.has_parts && env.has_audit))) (λ _.
      after-Meets (check_member-Begun env req.principal.workspace_id req.principal.user_id) (λ _.
        bind-Meets check_connection-Begun (λ conn.
          bind-Meets
            (look-Meets Begun (λ w. record {
              conn = conn;
              trace = env.new_trace w.log;
              now = env.clock w.log;
              hash = hash_of env (judge env conn.engine req.sql).0 req.sql;
            }))
            (λ t.
              after-Meets
                {m = set_result (λ r. record r {
                  decision = some (judge env conn.engine req.sql).0;
                  trace_id = t.trace;
                })}
                {Q = λ _. Begun} (record { ends = λ w h. ground arith })
                (λ _.
                  after-Meets (create_pending-Passes env req t)
                    (λ _. run_pending-Served env req t (judge env conn.engine req.sql)))))))

  -- A call of Execute that begins with nothing to show serves or refuses, whatever the stores, the
  -- credentials, the adapter and the other requests do. If it returns no error it shows a page, and
  -- then the execution's row is durably completed and the last durable audit says that it succeeded.
  -- If it returns an error it shows no page and no token, and no row is left pending or running
  -- unless an alarm went off. Either way the handle was asked for only with the credential resolved
  -- and the row durably running, used only while held, and is given back.
  pub execute-fails_closed :
      (w : World) → Fresh w → Ends (λ _. Served true) (λ _. Refused true) (execute env req w)
  execute-fails_closed w h = execute-Meets.ends w (Fresh-Begun w h)
