-- ===== src/Execution/After.antt =====
-- The end of a call that got as far as the adapter (`recordPostExecution` and what follows it in
-- execution/pipeline.go).
use web_db.Prelude.{
  String, ℕ, ◌≡◌, refl, Bool, true, false, not, List, [], ◌∷◌, Option, none, some, arith,
}
use web_db.Execution.Codes.{Code}
use web_db.Execution.Data.{Connection, AuditOutcome, QueryResult}
use web_db.Execution.World.{World, Env, set_result, with_code}
use web_db.Execution.Books.{books, enter, is_terminal}
use web_db.Execution.Audit.{
  begin_tx, commit_tx, update_execution, append_audit, new_audit_event, execution_event, fail_audit,
  roll_back,
}
use web_db.Execution.Finish.{
  Verdict, verdict_of, audit_execution, finish_execution, finish_with, commit_execution,
  record_post_execution,
}
use web_db.Execution.Execute.{Task}
use web_db.Execution.Query.{stop_after}
use web_db.Execution.Rules.{
  Ends, Ends-to, leave-Meets, Meets, after-Meets, deferred-Meets, on_error-Meets,
}
use web_db.Execution.Settled.{Withheld, Refused}

abbrev pub last_audit : List AuditOutcome → Option AuditOutcome
last_audit [] = none
last_audit (o ∷ os) = some o

-- The result shows this page and this token.
pub record Shows (page : Option QueryResult) (token : Option String) (w : World) : Type 0 where
  pub page_shown : w.result.result ≡ page
  pub token_shown : w.result.next_page_token ≡ token

-- The handle is held unless it is given back.
pub record Held (back : Bool) (w : World) : Type 0 where
  pub given_back : w.released ≡ back
  pub holds : (books w.log).held ≡ not back
  pub clean : (books w.log).fouled ≡ false

-- The execution has ended as the verdict says, in the row and in the audit.
pub record Ended (v : Verdict) (page : Option QueryResult) (token : Option String) (back : Bool)
    (w : World) : Type 0 where
  pub row : (books w.log).stored ≡ some v.status
  pub audit : last_audit (books w.log).audited ≡ some v.outcome
  pub shows : Shows page token w
  pub held : Held back w

verdict_of-terminal :
    (conn : Connection) (hash : String) (page : Option QueryResult) (code : Option Code)
    → is_terminal (verdict_of conn hash page code).status ≡ true
unfolding verdict_of
verdict_of-terminal conn hash page none = refl
verdict_of-terminal conn hash page (some code) = ground arith

-- The verdict goes by the page and the code that the result has then.
abbrev pub verdict_at : Connection → String → World → Verdict
verdict_at conn hash w = verdict_of conn hash w.result.result w.result.error_code

roll_back-Held : (back : Bool) (w : World) → Held back w → Held back (roll_back w)
unfolding books enter
roll_back-Held back w h = ground arith

module _ (env : Env) (page : Option QueryResult) (token : Option String) (back : Bool) where
  abbrev Finished : Verdict → World → Type 0
  Finished v w =
      ((books w.log).staged ≡ none)
      × (w.execution.status ≡ v.status)
      × Shows page token w
      × Held back w

  abbrev Committed : Verdict → World → Type 0
  Committed v w = ((books w.log).stored ≡ some v.status) × Shows page token w × Held back w

  begin_tx-Finished :
      (v : Verdict)
      → Meets
          (λ w. (w.execution.status ≡ v.status) × Shows page token w × Held back w)
          (begin_tx env)
          (λ _. Finished v)
          (λ _. Held back)
  unfolding begin_tx books enter
  begin_tx-Finished v = record { ends = λ w h. ground arith }

  commit_execution-Committed :
      (v : Verdict) → Meets (Finished v) (commit_execution env) (λ _. Committed v) (λ _. Held back)
  unfolding commit_execution update_execution commit_tx books enter
  commit_execution-Committed v = record { ends = λ w h. ground arith }

  audit_execution-Ended :
      (conn : Connection) (trace : String) (v : Verdict) (finished : ℕ)
      → Meets
          (Committed v)
          (audit_execution env conn trace v finished)
          (λ _. Ended v page token back)
          (λ _. Held back)
  unfolding audit_execution append_audit new_audit_event execution_event books enter
  audit_execution-Ended conn trace v finished = record { ends = λ w h. ground arith }

  roll_back-Ended :
      (v : Verdict) (w : World) → Ended v page token back w → Ended v page token back (roll_back w)
  unfolding books enter
  roll_back-Ended v w h = ground arith

  pub finish_with-Ended :
      (conn : Connection) (trace : String) (v : Verdict) (finished : ℕ)
      → Meets
          (λ w. (w.execution.status ≡ v.status) × Shows page token w × Held back w)
          (finish_with env conn trace v finished)
          (λ _. Ended v page token back)
          (λ _. Held back)
  unfolding finish_with
  finish_with-Ended conn trace v finished = after-Meets (begin_tx-Finished v) (λ _.
      deferred-Meets roll_back
        (after-Meets (commit_execution-Committed v)
          (λ _. audit_execution-Ended conn trace v finished))
        (λ _. roll_back-Ended v) (λ _. roll_back-Held back))

  pub record_post_execution-Ended :
      (conn : Connection) (trace hash : String) (w : World)
      → Shows page token w
      → Held back w
      → Ends
          (λ _. Ended (verdict_at conn hash w) page token back)
          (λ _. Held back)
          (record_post_execution env conn trace hash w)
  unfolding record_post_execution finish_execution
  record_post_execution-Ended conn trace hash w shows held =
      (finish_with-Ended conn trace (verdict_at conn hash w) (env.clock w.log)).ends
        (record w {
          execution =
              finish_execution (verdict_at conn hash w) w.result.error_code (env.clock w.log)
                w.execution;
        })
        (
          refl,
          record { page_shown = shows.page_shown; token_shown = shows.token_shown },
          record { given_back = held.given_back; holds = held.holds; clean = held.clean },
        )

module _ {A : Type 0} (back : Bool) (Q : A → World → Type 0) where
  pub fail_audit-Refused : Meets (Held back) (fail_audit {A = A}) Q (λ _. Refused back)
  unfolding fail_audit books enter
  fail_audit-Refused = record { ends = λ w h. ground arith }

-- With a code the row ends, and so does the call.
coded_end-Refused :
    (back : Bool) (conn : Connection) (hash : String) (w v : World)
    → Ended (verdict_at conn hash w) none none back v
    → Refused back v
coded_end-Refused back conn hash w v h =
    let t = verdict_of-terminal conn hash w.result.result w.result.error_code in
    record {
      withheld = record { no_page = h.shows.page_shown; no_token = h.shows.token_shown };
      settled = (let row = h.row in ground arith);
      given_back = h.held.given_back;
      holds = h.held.holds;
      clean = h.held.clean;
    }

pub record_post_execution-Refused :
    (back : Bool) (env : Env) (conn : Connection) (trace hash : String)
    → Meets
        (λ w. Withheld w × Held back w)
        (record_post_execution env conn trace hash)
        (λ _. Refused back)
        (λ _. Held back)
record_post_execution-Refused back env conn trace hash = record {
  ends = λ w h.
      Ends-to (λ _. Refused back) (λ _. Held back) (record_post_execution env conn trace hash w)
        (record_post_execution-Ended env none none back conn trace hash w
          (record { page_shown = h.0.no_page; token_shown = h.0.no_token }) h.1)
        (λ _. coded_end-Refused back conn hash w);
}

module _ {A : Type 0} (back : Bool) (env : Env) (t : Task) where
  -- A call that fails with the adapter at hand ends refused.
  pub stop_after-Refused :
      {Q : A → World → Type 0} (code : Code)
      → Meets (λ w. Withheld w × Held back w) (stop_after env t code) Q (λ _. Refused back)
  unfolding stop_after
  stop_after-Refused code =
      after-Meets {m = set_result (with_code code)} {Q = λ _ w. Withheld w × Held back w}
        (record { ends = λ w h. ground arith })
        (λ _.
          after-Meets
            (on_error-Meets (record_post_execution-Refused back env t.conn t.trace t.hash)
              (λ _. fail_audit-Refused back (λ _. Refused back)))
            (λ _. leave-Meets code (λ _ h. h)))
