-- ===== src/Execution/Spending.antt =====
-- The claim of `ExecuteNextPage` in execution/pipeline.go, after the call.
use web_db.Prelude.{String, ◌≡◌, refl, true, false, ◌&&◌, Option, none, some, arith, ok, by_test}
use web_db.Pagination.Entries.{Entry, find}
use web_db.Pagination.Quota.{Registry, delete_entry}
use web_db.Pagination.Eviction.{delete_entry-find_self}
use web_db.Pagination.Registry.{Claim, owns, rotate, rotate_found, complete, abort, finish_found}
use web_db.Pagination.Ownership.{Spent}
use web_db.Pagination.Calls.{after_calls}
use web_db.Execution.Codes.{Code}
use web_db.Execution.Data.{NextPageRequest}
use web_db.Execution.World.{World, Env, interfere, ◌>>◌}
use web_db.Execution.NextPage.{abort_claim, claim_token, claimed_page, execute_next_page}

-- A claim that owns nothing is spent.
found-Spent :
    (digest : String → String) (c : Claim) (r : Registry) (o : Option Entry)
    → find c.digest r.entries ≡ o
    → ((e : Entry) → o ≡ some e → owns c e ≡ false)
    → Spent digest c r
unfolding rotate rotate_found complete abort finish_found
found-Spent digest c r none f h = record {
  rotates_none = λ now handle s. rw f refl;
  completes_none = rw f refl;
  aborts_none = rw f refl;
}
found-Spent digest c r (some e) f h = record {
  rotates_none = λ now handle s. rw (f, h e refl) refl;
  completes_none = rw (f, h e refl) refl;
  aborts_none = rw (f, h e refl) refl;
}

finish_found-Spent :
    (digest : String → String) (c : Claim) (r : Registry) (o : Option Entry)
    → find c.digest r.entries ≡ o
    → Spent digest c (finish_found c o r)
unfolding finish_found
finish_found-Spent digest c r none f = found-Spent digest c r none f (λ e q. absurd (ground arith))
finish_found-Spent digest c r (some e) f =
    by_test (Spent digest c) (owns c e) (delete_entry c.digest r) r
      (λ _.
        found-Spent digest c (delete_entry c.digest r) none (delete_entry-find_self c.digest r)
          (λ x q. absurd (ground arith)))
      (λ other. found-Spent digest c r (some e) f (λ x q. ground arith))

abort-Spent : (digest : String → String) (c : Claim) (r : Registry) → Spent digest c (abort c r)
unfolding abort
abort-Spent digest c r = finish_found-Spent digest c r (find c.digest r.entries) refl

-- However ExecuteNextPage ends, served or refused, the claim that it made of the token is spent
-- then: it rotates nothing, completes nothing and aborts nothing any more, whatever the others did to
-- the registry in the meantime.
pub execute_next_page-Spent :
    (env : Env) (req : NextPageRequest) (w v : World) (c : Claim)
    → (env.has_parts && env.has_audit) ≡ true
    → (◌>>◌ {E = Code} (interfere env) (claim_token env req.token)) w ≡ (ok c, v)
    → Spent env.digest c (execute_next_page env req w).1.registry
unfolding execute_next_page abort_claim
execute_next_page-Spent env req w v c parts claimed =
    let x : World = (claimed_page env req c v).1 in
    rw (parts, claimed)
      (abort-Spent env.digest c (after_calls env.digest (env.others x.log) x.registry))
