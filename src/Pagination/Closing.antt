-- ===== src/Pagination/Closing.antt =====
-- The registry of pagination/registry.go after `Close`.
use web_db.Prelude.{◌≡◌, refl, sym, subst, ◌∙◌, ap, ℕ, String, List, [], ◌∷◌, Option, none, some}
use web_db.Pagination.State.{ContinuationState}
use web_db.Pagination.Quota.{Registry, close}
use web_db.Pagination.Registry.{
  Claim, registry_closed, invalid_page_token, refuse, create, claim, revoke, cleanup_expired,
  cleanup_from, rotate, rotate_found, complete, abort, finish_found,
}
use web_db.Pagination.Calls.{
  Call, creates, claims, revokes, cleans_up, rotates, completes, aborts, closes, after_call,
  after_calls,
}
use web_db.Pagination.Entries.{find}

-- A closed registry refuses what returns an error and ignores what does not.
pub record IsShut (digest : String → String) (r : Registry) : Type 0 where
  pub creates_none :
      (now : ℕ) (handle : Option String) (s : Option ContinuationState)
      → create digest now handle s r ≡ refuse r registry_closed
  pub claims_none :
      (now : ℕ) (handle : String) → claim digest now handle r ≡ refuse r registry_closed
  pub rotates_none :
      (now : ℕ) (handle : Option String) (c : Claim) (s : Option ContinuationState)
      → rotate digest now handle c s r ≡ refuse r invalid_page_token
  pub unchanged : (c : Call) → after_call digest c r ≡ r

module _ (digest : String → String) (r : Registry) where
  create-close :
      (now : ℕ) (handle : Option String) (s : Option ContinuationState)
      → create digest now handle s (close r) ≡ refuse (close r) registry_closed
  unfolding create close
  create-close now handle none = refl
  create-close now handle (some s) = refl

  claim-close :
      (now : ℕ) (handle : String)
      → claim digest now handle (close r) ≡ refuse (close r) registry_closed
  unfolding claim close
  claim-close now handle = refl

  rotate-close :
      (now : ℕ) (handle : Option String) (c : Claim) (s : Option ContinuationState)
      → rotate digest now handle c s (close r) ≡ refuse (close r) invalid_page_token
  unfolding rotate close rotate_found find
  rotate-close now handle c s = refl

  after_call-close : (c : Call) → after_call digest c (close r) ≡ close r
  unfolding after_call revoke cleanup_expired complete abort close cleanup_from finish_found find
  after_call-close (creates now handle s) = ap (λ q. q.0) (create-close now handle s)
  after_call-close (claims now handle) = ap (λ q. q.0) (claim-close now handle)
  after_call-close (revokes handle) = refl
  after_call-close (cleans_up now) = refl
  after_call-close (rotates now handle c s) = ap (λ q. q.0) (rotate-close now handle c s)
  after_call-close (completes c) = refl
  after_call-close (aborts c) = refl
  after_call-close closes = refl

  close-IsShut : IsShut digest (close r)
  close-IsShut = record {
    creates_none = create-close;
    claims_none = claim-close;
    rotates_none = rotate-close;
    unchanged = after_call-close;
  }

  pub stays_closed : (cs : List Call) → after_calls digest cs (close r) ≡ close r
  unfolding after_calls
  stays_closed [] = refl
  stays_closed (c ∷ cs) = ap (after_calls digest cs) (after_call-close c) ∙ stays_closed cs

-- Once closed, a registry stays as it is over any calls; a create and a claim answer that it is
-- closed, and a rotation that its token is invalid.
pub after_calls-close :
    (digest : String → String) (r : Registry) (cs : List Call)
    → (after_calls digest cs (close r) ≡ close r) × IsShut digest (after_calls digest cs (close r))
after_calls-close digest r cs = (
  stays_closed digest r cs,
  subst (IsShut digest) (sym (stays_closed digest r cs)) (close-IsShut digest r),
)
