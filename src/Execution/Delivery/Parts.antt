-- ===== src/Execution/Delivery/Parts.antt =====
-- How `Execute` of execution/pipeline.go gives a page out.
use web_db.Prelude.{String, ◌≡◌, refl, ap, ◌∙◌, Bool, true, Option, none, some, arith}
use web_db.Execution.Codes.{Code}
use web_db.Execution.Data.{Connection, completed, outcome_succeeded, QueryResult}
use web_db.Execution.World.{World, Env, set_result, change}
use web_db.Execution.Books.{books, enter}
use web_db.Execution.Finish.{record_post_execution, verdict_of}
use web_db.Execution.Execute.{Task}
use web_db.Execution.Query.{release_handle, release_if_held, revoke_token, publish}
use web_db.Execution.Rules.{Ends-to, Meets, after-Meets, on_error-Meets, change-Meets}
use web_db.Execution.Settled.{Withheld, Refused}
use web_db.Execution.After.{
  Shows, Held, Ended, verdict_at, fail_audit-Refused, record_post_execution-Ended,
}
use web_db.Execution.Served.{Using, Served}

-- A page that is audited before it is given out.
pub record Showing (back : Bool) (page : QueryResult) (w : World) : Type 0 where
  pub uncoded : w.result.error_code ≡ none
  pub shows : Shows (some page) none w
  pub held : Held back w

-- The page is shown without a token.
pub record Audited (back : Bool) (w : World) : Type 0 where
  pub served : Served back w
  pub untokened : w.result.next_page_token ≡ none

verdict_of-completed :
    (conn : Connection) (hash : String) (page : Option QueryResult) (code : Option Code)
    → code ≡ none
    → ((verdict_of conn hash page code).status ≡ completed)
      × ((verdict_of conn hash page code).outcome ≡ outcome_succeeded)
unfolding verdict_of
verdict_of-completed conn hash page none q = (refl, refl)
verdict_of-completed conn hash page (some c) q = absurd (ground arith)

module _ (env : Env) (back : Bool) (page : QueryResult) where
  Ended-Audited :
      (conn : Connection) (hash : String) (w v : World)
      → w.result.error_code ≡ none
      → Ended (verdict_at conn hash w) (some page) none back v
      → Audited back v
  Ended-Audited conn hash w v q h =
      let (s, o) = verdict_of-completed conn hash w.result.result w.result.error_code q in
      record {
        served = record {
          page = page;
          shown = h.shows.page_shown;
          row = h.row ∙ ap some s;
          audit = h.audit ∙ ap some o;
          held = h.held;
        };
        untokened = h.shows.token_shown;
      }

  pub record_post_execution-Audited :
      (conn : Connection) (trace hash : String)
      → Meets
          (Showing back page)
          (record_post_execution env conn trace hash)
          (λ _. Audited back)
          (λ _. Held back)
  record_post_execution-Audited conn trace hash = record {
    ends = λ w h.
        Ends-to (λ _. Audited back) (λ _. Held back) (record_post_execution env conn trace hash w)
          (record_post_execution-Ended env (some page) none back conn trace hash w h.shows h.held)
          (λ _ v. Ended-Audited conn hash w v h.uncoded);
  }

revoke_token-Held :
    {E : Type 0} {F : E → World → Type 0} (env : Env) (token : Option String)
    → Meets (Held true) (revoke_token {E = E} env token) (λ _. Held true) F
unfolding revoke_token
revoke_token-Held env none = record { ends = λ w h. h }
revoke_token-Held env (some token) = record {
  ends = λ w h. record { given_back = h.given_back; holds = h.holds; clean = h.clean };
}

-- The handle is back and there is nothing to show yet.
pub record Released (w : World) : Type 0 where
  pub uncoded : w.result.error_code ≡ none
  pub withheld : Withheld w
  pub held : Held true w

pub release_handle-Released : (w : World) → Using w → Released (release_handle w)
unfolding books enter
release_handle-Released w h = ground arith

pub shown-Showing :
    (page : QueryResult) (w : World)
    → Released w
    → Showing true page (record w { result = record w.result { result = some page } })
shown-Showing page w h = ground arith

pub publish-Served :
    (env : Env) (t : Task) (page : QueryResult) (token : Option String)
    → Meets Using (publish env t page token) (λ _. Served true) (λ _. Refused true)
unfolding publish
publish-Served env t page token =
    after-Meets {m = change release_handle} {Q = λ _. Released}
      (record { ends = λ w h. release_handle-Released w h })
      (λ _.
        after-Meets {m = set_result (λ r. record r { result = some page })}
          {Q = λ _. Showing true page} (record { ends = λ w h. shown-Showing page w h })
          (λ _.
            after-Meets
              (on_error-Meets (record_post_execution-Audited env true page t.conn t.trace t.hash)
                (λ e.
                  after-Meets (revoke_token-Held env token)
                    (λ _. fail_audit-Refused true (λ _. Audited true))))
              (λ _.
                change-Meets
                  (λ w. record w { result = record w.result { next_page_token = token } })
                  (λ w h. record {
                    page = h.served.page;
                    shown = h.served.shown;
                    row = h.served.row;
                    audit = h.served.audit;
                    held = record {
                      given_back = h.served.held.given_back;
                      holds = h.served.held.holds;
                      clean = h.served.held.clean;
                    };
                  }))))

pub release_if_held-Served : (w : World) → Served true w → Served true (release_if_held w)
release_if_held-Served w h = ground arith

pub release_if_held-Refused : (w : World) → Refused true w → Refused true (release_if_held w)
release_if_held-Refused w h = ground arith
