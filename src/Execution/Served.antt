-- ===== src/Execution/Served.antt =====
-- `Execute` of execution/pipeline.go as a whole: what holds when it serves a page, and what when it
-- refuses.
use web_db.Prelude.{ℤ, String, ◌≡◌, Bool, true, false, Option, none, some, arith, Result, ok, err}
use web_db.QueryPlan.Types.{SchemaSnapshot, PlanError}
use web_db.QueryPlan.Shape.{QueryShape}
use web_db.QueryPlan.Plan.{VerifiedSortPlan, verify_sort_plan}
use web_db.Pagination.State.{ContinuationState}
use web_db.Pagination.Quota.{Registry}
use web_db.Pagination.Registry as Calls
use web_db.Pagination.Registry.{create}
use web_db.Pagination.Calls.{after_calls}
use web_db.Execution.Codes.{Code, unsupported_query}
use web_db.Execution.Data.{
  policy_version_of, Connection, ConnectionPolicy, ConnectConfig, running, completed,
  outcome_succeeded, QueryResult, ExecuteRequest, FirstPageRequest,
}
use web_db.Execution.World.{World, Env, give, interfere}
use web_db.Execution.Books.{books, enter}
use web_db.Execution.Sorting.{
  no_last_values, no_policy_version, token_answer, or_refuse, ok_or_refuse, table_of, or_leave,
  policy_dialect, plan_dialect, new_schema_snapshot, extract_last_values, continuation_of,
  verify_sort, qualified, create_continuation, create_token,
}
use web_db.Execution.Execute.{Task}
use web_db.Execution.Query.{
  has_next, token_error_code, acquire_handle, release_handle, release_and_stop, run_query,
  sort_if_needed, token_if_needed,
}
use web_db.Execution.Rules.{
  Ends, Meets, bind-Meets, after-Meets, on_error-Meets, look-Meets, give-Meets, if-Meets,
}
use web_db.Execution.Settled.{Withheld, Refused, Open}
use web_db.Execution.After.{Held, last_audit, stop_after-Refused}

-- A call that has a handle and nothing to show yet.
pub record Using (w : World) : Type 0 where
  pub uncoded : w.result.error_code ≡ none
  pub withheld : Withheld w
  pub held : Held false w

-- The page is shown: its row is durably completed, its last audit says that it succeeded, and the
-- handle is back.
pub record Served (back : Bool) (w : World) : Type 0 where
  pub page : QueryResult
  pub shown : w.result.result ≡ some page
  pub row : (books w.log).stored ≡ some completed
  pub audit : last_audit (books w.log).audited ≡ some outcome_succeeded
  pub held : Held back w

pub acquire_handle-Using :
    (env : Env) (cfg : ConnectConfig)
    → Meets
        (Open (some running) true none)
        (acquire_handle env cfg)
        (λ _. Using)
        (λ _ w. Withheld w × Held true w)
unfolding acquire_handle books enter
acquire_handle-Using env cfg = record { ends = λ w h. ground arith }

release_handle-Held :
    (w : World) → Using w → Withheld (release_handle w) × Held true (release_handle w)
unfolding books enter
release_handle-Held w h = ground arith

module _ {E A : Type 0} (env : Env) (t : Task) where
  pub release_and_stop-Refused :
      {Q : A → World → Type 0} (code : E → Code) (e : E)
      → Meets Using (release_and_stop env t code e) Q (λ _. Refused true)
  release_and_stop-Refused code e = record {
    ends = λ w h.
        (stop_after-Refused true env t (code e)).ends (release_handle w) (release_handle-Held w h);
  }

module _ (env : Env) where
  qualified-Using :
      (shape : QueryShape) → Meets Using (qualified env shape) (λ _. Using) (λ _. Using)
  unfolding qualified books enter
  qualified-Using shape = record { ends = λ w h. ground arith }

  pub run_query-Using :
      (q : FirstPageRequest) → Meets Using (run_query env q) (λ _. Using) (λ _. Using)
  unfolding run_query books enter
  run_query-Using q = record { ends = λ w h. ground arith }

  table_of-Using :
      (schema table : String) → Meets Using (table_of env schema table) (λ _. Using) (λ _. Using)
  unfolding books enter
  table_of-Using schema table = record { ends = λ w h. ground arith }

  or_refuse-Using :
      {A : Type 0} (o : Option A) → Meets Using (or_refuse o) (λ _. Using) (λ _. Using)
  or_refuse-Using none = record { ends = λ w h. h }
  or_refuse-Using (some a) = record { ends = λ w h. h }

  ok_or_refuse-Using :
      {A : Type 0} (o : Result PlanError A) → Meets Using (ok_or_refuse o) (λ _. Using) (λ _. Using)
  ok_or_refuse-Using (err e) = record { ends = λ w h. h }
  ok_or_refuse-Using (ok a) = record { ends = λ w h. h }

  verify_sort-Using :
      (req : ExecuteRequest) (conn : Connection)
      → Meets Using (verify_sort env req conn) (λ _. Using) (λ _. Using)
  unfolding verify_sort
  verify_sort-Using req conn =
      bind-Meets (or_refuse-Using (env.analyze_shape (policy_dialect conn.engine) req.sql))
        (λ parsed. bind-Meets (qualified-Using parsed) (λ shape.
          bind-Meets (table_of-Using shape.base_schema shape.base_table) (λ meta.
            bind-Meets (look-Meets Using (λ w. env.pool_generation w.log)) (λ pool.
              bind-Meets
                (or_refuse-Using (
                  new_schema_snapshot env.schema_generation conn.id (plan_dialect conn.engine) pool
                    meta))
                (λ snapshot.
                  bind-Meets
                    (ok_or_refuse-Using
                      (verify_sort_plan (some snapshot) (some shape) req.sort_keys))
                    (λ plan. give-Meets (plan, snapshot) (λ _ h. h)))))))

  or_leave-Using :
      {E A : Type 0} (e : E) (o : Option A) → Meets Using (or_leave e o) (λ _. Using) (λ _. Using)
  or_leave-Using e none = record { ends = λ w h. h }
  or_leave-Using e (some a) = record { ends = λ w h. h }

  Using-registry : (r : Registry) (w : World) → Using w → Using (record w { registry = r })
  Using-registry r w h = record {
    uncoded = h.uncoded;
    withheld = record { no_page = h.withheld.no_page; no_token = h.withheld.no_token };
    held = record { given_back = h.held.given_back; holds = h.held.holds; clean = h.held.clean };
  }

  token_answer-Using :
      (o : Registry × Result Calls.ErrorCode String) (w : World)
      → Using w
      → Ends (λ _. Using) (λ _. Using) (token_answer o w)
  token_answer-Using (r, err e) w h = Using-registry r w h
  token_answer-Using (r, ok token) w h = Using-registry r w h

  create_token-Using :
      (s : ContinuationState) → Meets Using (create_token env s) (λ _. Using) (λ _. Using)
  unfolding create_token
  create_token-Using s = record {
    ends = λ w h.
        token_answer-Using
          (create env.digest (env.clock w.log) (env.draw w.log) (some s) w.registry) w h;
  }

  interfere-Using : {E : Type 0} → Meets {E = E} Using (interfere env) (λ _. Using) (λ _. Using)
  interfere-Using = record {
    ends = λ w h. Using-registry (after_calls env.digest (env.others w.log) w.registry) w h;
  }

  create_continuation-Using :
      (req : ExecuteRequest) (conn : Connection) (plan : VerifiedSortPlan)
      (snapshot : SchemaSnapshot) (policy : ConnectionPolicy) (hash : String) (page : QueryResult)
      (size rows : ℤ)
      → Meets Using
          (create_continuation env req conn plan snapshot policy hash page size rows)
          (λ _. Using)
          (λ _. Using)
  unfolding create_continuation
  create_continuation-Using req conn plan snapshot policy hash page size rows =
      bind-Meets
        (or_leave-Using no_last_values (extract_last_values page.rows page.columns plan.specs))
        (λ last.
          bind-Meets (or_leave-Using no_policy_version (policy_version_of policy)) (λ version.
            bind-Meets (look-Meets Using (λ w. env.pool_generation w.log)) (λ pool.
              after-Meets interfere-Using (λ _. create_token-Using (
                continuation_of req conn pool plan snapshot policy version hash page last size
                  rows)))))

module _ (env : Env) (req : ExecuteRequest) (t : Task) where
  pub sort_if_needed-Using :
      (needed : Bool)
      → Meets Using (sort_if_needed env req t needed) (λ _. Using) (λ _. Refused true)
  unfolding sort_if_needed
  sort_if_needed-Using false = record { ends = λ w h. h }
  sort_if_needed-Using true =
      bind-Meets
        (on_error-Meets (verify_sort-Using env req t.conn)
          (release_and_stop-Refused env t (λ _. unsupported_query)))
        (λ sorted. give-Meets (some sorted) (λ _ h. h))

  pub token_if_needed-Using :
      (policy : ConnectionPolicy) (sorted : Option (VerifiedSortPlan × SchemaSnapshot))
      (page : QueryResult) (size rows : ℤ)
      → Meets Using
          (token_if_needed env req t policy sorted page size rows)
          (λ _. Using)
          (λ _. Refused true)
  unfolding token_if_needed
  token_if_needed-Using policy none page size rows = record { ends = λ w h. h }
  token_if_needed-Using policy (some (plan, snapshot)) page size rows =
      if-Meets (has_next page rows) {n = give none}
        (bind-Meets
          (on_error-Meets
            (create_continuation-Using env req t.conn plan snapshot policy t.hash page size rows)
            (release_and_stop-Refused env t token_error_code))
          (λ token. give-Meets (some token) (λ _ h. h)))
        (give-Meets none (λ _ h. h))
