-- ===== src/Execution/Paging/Parts.antt =====
-- The parts of `ExecuteNextPage` of execution/pipeline.go that run with the handle, and how the claim
-- goes on.
use web_db.Prelude.{
  ℤ, String, ◌≡◌, refl, true, false, ◌⊎◌, inl, inr, Option, none, some, arith, Result, ok, err,
  List, ◌∷◌, ℤ_eq,
}
use web_db.QueryPlan.Types.{TableMetadata, PlanError}
use web_db.QueryPlan.Value.{Value}
use web_db.QueryPlan.NextPage.{VerifiedNextPagePlan, new_verified_next_page_plan}
use web_db.Pagination.Quota.{Registry}
use web_db.Pagination.State.{ContinuationState}
use web_db.Pagination.Registry as Calls
use web_db.Pagination.Registry.{Claim, complete, rotate, claim}
use web_db.Pagination.Calls.{after_calls}
use web_db.Execution.Codes.{
  Code, invalid_page_token, database_error, AdapterError, map_adapter_error, adapter_code,
  context_code, adapter_database_error,
}
use web_db.Execution.Data.{QueryResult}
use web_db.Execution.World.{World, Env, note, give, interfere, loads_table}
use web_db.Execution.Books.{books, enter}
use web_db.Execution.Sorting.{new_schema_snapshot, plan_dialect, extract_last_values}
use web_db.Execution.Execute.{Task}
use web_db.Execution.Query.{release_handle, has_next}
use web_db.Execution.NextPage.{
  abort_claim, abort_and_fail, stop_page, rejudge_schema, recheck_schema, same_schema, plan_or_stop,
  next_plan, recheck_target, run_next_page, release_and_stop_page, specs_of, rotated_state,
  last_values, rotate_answer, rotate_claim, continue_claim, plain_error,
}
use web_db.Execution.Rules.{
  Ends, Meets, bind-Meets, after-Meets, Meets-from, give-Meets, change-Meets, look-Meets, if-Meets,
}
use web_db.Execution.Settled.{Refused}
use web_db.Execution.Served.{Using, Served}
use web_db.Execution.Delivery.{Audited}
use web_db.Execution.Paged.{Silent, stop_page-Refused}

-- The one failure that leaves the page in the result: the page was audited, but its last row gives
-- no values to go on from.
pub record Stuck (w : World) : Type 0 where
  pub served : Served true w
  pub untokened : w.result.next_page_token ≡ none
  pub coded : w.result.error_code ≡ some database_error

Using-Silent : (w : World) → Using w → Silent false w
Using-Silent w h = ground arith

release_handle-Silent : (w : World) → Using w → Silent true (release_handle w)
unfolding books enter
release_handle-Silent w h = ground arith

loads_table-Using : (w : World) → Using w → Using (note loads_table w)
unfolding books enter
loads_table-Using w h = ground arith

module _ (env : Env) (c : Claim) (t : Task) where
  stop_now-Refused :
      {A : Type 0} {Q : A → World → Type 0}
      → Meets Using (stop_page env c t none invalid_page_token) Q (λ _. Refused false)
  stop_now-Refused =
      Meets-from Using-Silent (stop_page-Refused env c t false none invalid_page_token)

  rejudge_schema-Using :
      (answer : Option TableMetadata) (pool : ℤ)
      → Meets Using (rejudge_schema env c t answer pool) (λ _. Using) (λ _. Refused false)
  unfolding rejudge_schema
  rejudge_schema-Using none pool = stop_now-Refused
  rejudge_schema-Using (some meta) pool =
      if-Meets
        (same_schema
          (new_schema_snapshot env.schema_generation c.state.connection_id
            (plan_dialect t.conn.engine) pool meta)
          c.state)
        {m = give tt} (give-Meets tt (λ _ h. h)) stop_now-Refused

  recheck_schema-Using : Meets Using (recheck_schema env c t) (λ _. Using) (λ _. Refused false)
  unfolding recheck_schema
  recheck_schema-Using = record {
    ends = λ w h.
        (rejudge_schema-Using (env.load_table w.log c.state.table_schema c.state.table_name)
            (env.pool_generation (loads_table ∷ w.log))).ends
          (note loads_table w) (loads_table-Using w h);
  }

  plan_or_stop-Using :
      (o : Result PlanError VerifiedNextPagePlan)
      → Meets Using (plan_or_stop env c t o) (λ _. Using) (λ _. Refused false)
  unfolding plan_or_stop
  plan_or_stop-Using (err e) = stop_now-Refused
  plan_or_stop-Using (ok plan) = give-Meets plan (λ _ h. h)

  next_plan-Using :
      (rows : ℤ) → Meets Using (next_plan env c t rows) (λ _. Using) (λ _. Refused false)
  unfolding next_plan
  next_plan-Using rows = plan_or_stop-Using (
      new_verified_next_page_plan c.state.sort_plan c.state.last_sort_values c.state.sql
        c.state.args c.state.page_size rows c.state.cumulative_count)

  pub recheck_target-Using :
      (rows : ℤ) → Meets Using (recheck_target env c t rows) (λ _. Using) (λ _. Refused false)
  unfolding recheck_target
  recheck_target-Using rows =
      bind-Meets (look-Meets Using (λ w. env.pool_generation w.log)) (λ pool.
        after-Meets
          (if-Meets (ℤ_eq pool c.state.pool_generation) {m = give tt} (give-Meets tt (λ _ h. h))
            stop_now-Refused)
          (λ _. after-Meets recheck_schema-Using (λ _. next_plan-Using rows)))

  pub run_next_page-Using :
      (p : VerifiedNextPagePlan) → Meets Using (run_next_page env p) (λ _. Using) (λ _. Using)
  unfolding run_next_page books enter
  run_next_page-Using p = record { ends = λ w h. ground arith }

  pub release_and_stop_page-Refused :
      {Q : QueryResult → World → Type 0} (e : AdapterError)
      → Meets Using (release_and_stop_page env c t e) Q (λ _. Refused true)
  release_and_stop_page-Refused e = record {
    ends = λ w h.
        (stop_page-Refused env c t true (some e) (map_adapter_error e)).ends (release_handle w)
          (release_handle-Silent w h);
  }

shown_with :
    (token : Option String) (w : World)
    → Audited true w
    → Served true (record w { result = record w.result { next_page_token = token } })
shown_with token w h = record {
  page = h.served.page;
  shown = h.served.shown;
  row = h.served.row;
  audit = h.served.audit;
  held = record {
    given_back = h.served.held.given_back;
    holds = h.served.held.holds;
    clean = h.served.held.clean;
  };
}

-- How the claim goes on once the page is audited.
abbrev pub GoesOn : World → Type 0
GoesOn w = Refused true w ⊎ Stuck w

module _ (env : Env) (c : Claim) where
  abort_and_fail-Stuck :
      {Q : List Value → World → Type 0}
      → Meets
          (Audited true)
          (abort_and_fail env c
            (map_adapter_error (record plain_error { code = some adapter_database_error })))
          Q
          (λ _. GoesOn)
  unfolding abort_and_fail abort_claim map_adapter_error adapter_code context_code
  abort_and_fail-Stuck = record {
    ends = λ w h. inr (record {
      served = record {
        page = h.served.page;
        shown = h.served.shown;
        row = h.served.row;
        audit = h.served.audit;
        held = record {
          given_back = h.served.held.given_back;
          holds = h.served.held.holds;
          clean = h.served.held.clean;
        };
      };
      untokened = h.untokened;
      coded = refl;
    });
  }

  Audited-registry :
      (r : Registry) (w : World) → Audited true w → Audited true (record w { registry = r })
  Audited-registry r w h = record {
    served = record {
      page = h.served.page;
      shown = h.served.shown;
      row = h.served.row;
      audit = h.served.audit;
      held = record {
        given_back = h.served.held.given_back;
        holds = h.served.held.holds;
        clean = h.served.held.clean;
      };
    };
    untokened = h.untokened;
  }

  rotate_answer-Audited :
      (o : Registry × Result Calls.ErrorCode String) (w : World)
      → Audited true w
      → Ends (λ _. Audited true) (λ _. GoesOn) (rotate_answer o w)
  rotate_answer-Audited (r, ok token) w h = Audited-registry r w h
  rotate_answer-Audited (r, err e) w h = inl (record {
    withheld = record { no_page = refl; no_token = h.untokened };
    settled = (let row = h.served.row in ground arith);
    given_back = h.served.held.given_back;
    holds = h.served.held.holds;
    clean = h.served.held.clean;
  })

  rotate_claim-Audited :
      (s : ContinuationState)
      → Meets (Audited true) (rotate_claim env c s) (λ _. Audited true) (λ _. GoesOn)
  unfolding rotate_claim
  rotate_claim-Audited s = record {
    ends = λ w h.
        rotate_answer-Audited
          (rotate env.digest (env.clock w.log) (env.draw w.log) c (some s) w.registry) w h;
  }

  interfere-Audited :
      Meets {E = Code} (Audited true) (interfere env) (λ _. Audited true) (λ _. GoesOn)
  interfere-Audited = record {
    ends = λ w h. Audited-registry (after_calls env.digest (env.others w.log) w.registry) w h;
  }

  last_values-Audited :
      (o : Option (List Value))
      → Meets (Audited true) (last_values env c o) (λ _. Audited true) (λ _. GoesOn)
  last_values-Audited none = abort_and_fail-Stuck
  last_values-Audited (some vs) = give-Meets vs (λ _ h. h)

  pub continue_claim-Served :
      (page : QueryResult) (rows timeout : ℤ)
      → Meets
          (Audited true)
          (continue_claim env c page rows timeout)
          (λ _. Served true)
          (λ _. GoesOn)
  unfolding continue_claim
  continue_claim-Served page rows timeout =
      if-Meets (has_next page rows)
        (bind-Meets
          (last_values-Audited (extract_last_values page.rows page.columns (specs_of c.state)))
          (λ last. after-Meets interfere-Audited (λ _.
            bind-Meets (rotate_claim-Audited (rotated_state c.state page last rows timeout))
              (λ token.
                change-Meets
                  (λ w. record w { result = record w.result { next_page_token = some token } })
                  (λ w h. shown_with (some token) w h)))))
        (after-Meets interfere-Audited (λ _.
          change-Meets (λ w. record w { registry = complete c w.registry })
            (λ w h. (Audited-registry (complete c w.registry) w h).served)))
