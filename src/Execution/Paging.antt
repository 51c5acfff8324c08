-- ===== src/Execution/Paging.antt =====
-- `ExecuteNextPage` of execution/pipeline.go with the handle, and the whole of it.
mod Parts
pub use Parts.*
use web_db.Prelude.{
  ℤ, String, ◌≡◌, refl, Bool, true, false, not, ◌&&◌, ◌⊎◌, inl, inr, none, some, arith, Result, ok,
  err,
}
use web_db.Pagination.Quota.{Registry}
use web_db.Pagination.Registry as Calls
use web_db.Pagination.Registry.{Claim, claim}
use web_db.Execution.Codes.{Code, database_error, map_adapter_error}
use web_db.Execution.Data.{
  ConnectionPolicy, running, NextPageRequest, QueryResult, connection_config_revision,
}
use web_db.Execution.World.{World, Env, set_result, change, interfere}
use web_db.Execution.Books.{books, enter}
use web_db.Execution.Audit.{StoreError}
use web_db.Execution.Execute.{Task}
use web_db.Execution.Query.{release_handle, release_if_held, least}
use web_db.Execution.NextPage.{
  abort_claim, abort_and_fail_audit, finalize_continuation, page_with_handle, run_page,
  recheck_revision, claimed_page, claim_answer, claim_token, execute_next_page,
}
use web_db.Execution.Rules.{
  Ends, Meets, bind-Meets, after-Meets, deferred-Meets, on_error-Meets, Meets-or,
}
use web_db.Execution.Settled.{Refused, Open}
use web_db.Execution.After.{Held, fail_audit-Refused}
use web_db.Execution.Served.{Using, Served, acquire_handle-Using}
use web_db.Execution.Delivery.{
  Audited, Showing, Released, release_handle-Released, shown-Showing, record_post_execution-Audited,
  Begun, Fresh, Fresh-Begun, guard-Begun, release_if_held-Served,
}
use web_db.Execution.Paged.{
  Open-registry, Refused-registry, reauthorize-Begun, start_row-Open, stop_page-Refused,
  resolve_again-Open, config_again-Open,
}

-- A failure with the handle held or given back.
abbrev Fallen : World → Type 0
Fallen w = (Refused false w ⊎ Refused true w) ⊎ Stuck w

fell-Fallen : (back : Bool) (w : World) → Refused back w → Fallen w
fell-Fallen false w h = inl (inl h)
fell-Fallen true w h = inl (inr h)

went-Fallen : (w : World) → GoesOn w → Fallen w
went-Fallen w (inl h) = inl (inr h)
went-Fallen w (inr h) = inr h

release_handle-Refused : (w : World) → Refused false w → Refused true (release_if_held w)
unfolding books enter
release_handle-Refused w h = ground arith

release_handle-idle : (w : World) → w.released ≡ true → release_if_held w ≡ w
release_handle-idle w h = rw h refl

release_if_held-GoesOn : (w : World) → Fallen w → GoesOn (release_if_held w)
release_if_held-GoesOn w (inl (inl h)) = inl (release_handle-Refused w h)
release_if_held-GoesOn w (inl (inr h)) = rw (release_handle-idle w h.given_back) (inl h)
release_if_held-GoesOn w (inr h) = rw (release_handle-idle w h.served.held.given_back) (inr h)

module _ (env : Env) (c : Claim) (t : Task) where
  abort_and_fail_audit-Refused :
      {Q : Unit {0} → World → Type 0} (e : StoreError)
      → Meets (Held true) (abort_and_fail_audit env c e) Q (λ _. Refused true)
  unfolding abort_claim
  abort_and_fail_audit-Refused {Q} e =
      after-Meets {m = change (abort_claim env c)} {Q = λ _. Held true}
        (record { ends = λ w h. ground arith }) (λ _. fail_audit-Refused true Q)

  finalize_continuation-Audited :
      (page : QueryResult)
      → Meets
          (Showing true page)
          (finalize_continuation env t none)
          (λ _. Audited true)
          (λ _. Held true)
  unfolding finalize_continuation
  finalize_continuation-Audited page =
      record_post_execution-Audited env true page t.conn t.trace t.hash

  page_with_handle-Served :
      (rows timeout : ℤ)
      → Meets Using (page_with_handle env c t rows timeout) (λ _. Served true) (λ _. Fallen)
  unfolding page_with_handle
  page_with_handle-Served rows timeout =
      bind-Meets (Meets-or (λ _. fell-Fallen false) (recheck_target-Using env c t rows)) (λ plan.
        after-Meets {m = set_result (λ r. record r { adapter_called = true })} {Q = λ _. Using}
          (record { ends = λ w h. ground arith })
          (λ _.
            bind-Meets
              (on_error-Meets (run_next_page-Using env c t plan)
                (λ e. Meets-or (λ _. fell-Fallen true) (release_and_stop_page-Refused env c t e)))
              (λ page.
                after-Meets {m = change release_handle} {Q = λ _. Released}
                  (record { ends = λ w h. release_handle-Released w h })
                  (λ _.
                    after-Meets {m = set_result (λ r. record r { result = some page })}
                      {Q = λ _. Showing true page} (record { ends = λ w h. shown-Showing page w h })
                      (λ _.
                        after-Meets
                          (on_error-Meets (finalize_continuation-Audited page) (λ e.
                            Meets-or (λ _. fell-Fallen true) (abort_and_fail_audit-Refused e)))
                          (λ _.
                            Meets-or (λ _. went-Fallen)
                              (continue_claim-Served env c page rows timeout)))))))

  run_page-Served :
      (policy : ConnectionPolicy)
      → Meets
          (Open (some running) false none)
          (run_page env c t policy)
          (λ _. Served true)
          (λ _. GoesOn)
  unfolding run_page recheck_revision
  run_page-Served policy =
      bind-Meets (Meets-or (λ _ _. inl) (resolve_again-Open env c t)) (λ payload.
        bind-Meets
          (Meets-or (λ _ _. inl)
            (config_again-Open env c t payload (connection_config_revision t.conn)))
          (λ cfg.
            after-Meets
              (on_error-Meets (acquire_handle-Using env cfg) (λ e.
                Meets-or (λ _ _. inl)
                  (stop_page-Refused env c t true (some e) (map_adapter_error e))))
              (λ _.
                deferred-Meets release_if_held
                  (page_with_handle-Served (least policy.max_rows c.state.max_rows)
                    (least policy.statement_timeout_ms c.state.timeout_ms))
                  (λ _. release_if_held-Served) (λ _. release_if_held-GoesOn))))

module _ (env : Env) (req : NextPageRequest) where
  claimed_page-Served :
      (c : Claim) → Meets Begun (claimed_page env req c) (λ _. Served true) (λ _. GoesOn)
  unfolding claimed_page
  claimed_page-Served c =
      bind-Meets (Meets-or (λ _ _. inl) (reauthorize-Begun env c req)) (λ authorized.
        bind-Meets (Meets-or (λ _ _. inl) (start_row-Open env req c authorized.0)) (λ t.
          after-Meets
            {m = change (λ w. record w {
              result = record w.result { execution_id = some w.execution.id; trace_id = t.trace };
            })}
            {Q = λ _. Open (some running) false none} (record { ends = λ w h. ground arith })
            (λ _. run_page-Served env c t authorized.1)))

  abort_claim-Served : (c : Claim) (w : World) → Served true w → Served true (abort_claim env c w)
  unfolding abort_claim
  abort_claim-Served c w h = record {
    page = h.page;
    shown = h.shown;
    row = h.row;
    audit = h.audit;
    held = record { given_back = h.held.given_back; holds = h.held.holds; clean = h.held.clean };
  }

  abort_claim-GoesOn : (c : Claim) (w : World) → GoesOn w → GoesOn (abort_claim env c w)
  unfolding abort_claim
  abort_claim-GoesOn c w (inl h) = inl (Refused-registry true _ w h)
  abort_claim-GoesOn c w (inr h) = inr (record {
    served = abort_claim-Served c w h.served;
    untokened = h.untokened;
    coded = h.coded;
  })

  interfere-Begun : Meets {E = Code} Begun (interfere env) (λ _. Begun) (λ _. GoesOn)
  interfere-Begun = record { ends = λ w h. Open-registry none false none _ w h }

  claim_answer-Begun :
      (o : Registry × Result Calls.ErrorCode Claim) (w : World)
      → Begun w
      → Ends (λ _. Begun) (λ _. GoesOn) (claim_answer o w)
  unfolding books
  claim_answer-Begun (r, ok c) w h = Open-registry none false none r w h
  claim_answer-Begun (r, err e) w h = inl (ground arith)

  claim_token-Begun :
      (token : String) → Meets Begun (claim_token env token) (λ _. Begun) (λ _. GoesOn)
  unfolding claim_token
  claim_token-Begun token = record {
    ends = λ w h. claim_answer-Begun (claim env.digest (env.clock w.log) token w.registry) w h;
  }

  execute_next_page-Meets : Meets Begun (execute_next_page env req) (λ _. Served true) (λ _. GoesOn)
  unfolding execute_next_page
  execute_next_page-Meets =
      after-Meets (Meets-or (λ _ _. inl) (guard-Begun (not (env.has_parts && env.has_audit)))) (λ _.
        after-Meets interfere-Begun (λ _. bind-Meets (claim_token-Begun req.token) (λ c.
          deferred-Meets (abort_claim env c) (claimed_page-Served c) (λ _. abort_claim-Served c)
            (λ _. abort_claim-GoesOn c))))

  -- A call of ExecuteNextPage that begins with nothing to show serves or refuses, whatever the
  -- others do. If it returns no error it shows a page whose row is durably completed and whose last
  -- audit says that it succeeded. If it returns an error, then it shows no page and no token, and no
  -- row is left running unless an alarm went off; the one exception is a page that was audited and
  -- whose last row gives no values to go on from, which stays in the result beside the error
  -- database_error. Either way the handle is used only while held and is given back.
  pub execute_next_page-fails_closed :
      (w : World)
      → Fresh w
      → Ends (λ _. Served true) (λ _ v. Refused true v ⊎ Stuck v) (execute_next_page env req w)
  execute_next_page-fails_closed w h = execute_next_page-Meets.ends w (Fresh-Begun w h)
