-- ===== src/Pagination/Ownership.antt =====
-- A claim of pagination/registry.go is good for one use: the versions that `owns` compares.
use web_db.Prelude.{ℕ, ◌≡◌, refl, true, false, String, List, Option, none, some, arith}
use web_db.Pagination.State.{ContinuationState}
use web_db.Pagination.Entries.{Entry, find}
use web_db.Pagination.Quota.{Registry, delete_entry}
use web_db.Pagination.Accounting.{IsAccounted}
use web_db.Pagination.Eviction.{delete_entry-find_self}
use web_db.Pagination.Registry.{
  Claim, invalid_page_token, refuse, rotate, rotate_found, complete, abort, finish_found, owns,
}
use web_db.Pagination.Calls.{
  Call, creates, claims, revokes, cleans_up, rotates, completes, aborts, closes, after_call,
  after_calls,
}
use web_db.Pagination.Retired.{
  Retired, version_within, delete_entry-seq, rotate_owned-Retired, after_calls-Retired,
}

-- The claim has no effect.
pub record Spent (digest : String → String) (c : Claim) (r : Registry) : Type 0 where
  pub rotates_none :
      (now : ℕ) (handle : Option String) (s : Option ContinuationState)
      → rotate digest now handle c s r ≡ refuse r invalid_page_token
  pub completes_none : complete c r ≡ r
  pub aborts_none : abort c r ≡ r

Retired-disowned :
    (c : Claim) (r : Registry) (e : Entry)
    → Retired c r
    → find c.digest r.entries ≡ some e
    → owns c e ≡ false
unfolding owns
Retired-disowned c r e h f = ground (arith, h.gone e f)

Retired-finish_found :
    (c : Claim) (r : Registry)
    → Retired c r
    → (o : Option Entry) → find c.digest r.entries ≡ o
    → finish_found c o r ≡ r
unfolding finish_found
Retired-finish_found c r h none f = refl
Retired-finish_found c r h (some e) f = rw (Retired-disowned c r e h f) refl

Retired-Spent :
    (digest : String → String) (c : Claim) (r : Registry) → Retired c r → Spent digest c r
Retired-Spent digest c r h = record {
  rotates_none =
      λ now handle s. unfold rotate in at_entry now handle s (find c.digest r.entries) refl;
  completes_none = unfold complete in Retired-finish_found c r h (find c.digest r.entries) refl;
  aborts_none = unfold abort in Retired-finish_found c r h (find c.digest r.entries) refl;
}
  where
    at_entry :
        (now : ℕ) (handle : Option String) (s : Option ContinuationState) (o : Option Entry)
        → find c.digest r.entries ≡ o
        → rotate_found digest now handle c o s r ≡ refuse r invalid_page_token
    at_entry now handle s none f = unfold rotate_found in refl
    at_entry now handle s (some e) f = unfold rotate_found in rw (Retired-disowned c r e h f) refl

module _ (digest : String → String) (c : Claim) where
  -- The three calls that use a claim up.
  abbrev pub Uses : Call → Type 0
  Uses (creates now handle s) = ⊥
  Uses (claims now handle) = ⊥
  Uses (revokes handle) = ⊥
  Uses (cleans_up now) = ⊥
  Uses (rotates now handle b s) = b ≡ c
  Uses (completes b) = b ≡ c
  Uses (aborts b) = b ≡ c
  Uses closes = ⊥

  module _ (r : Registry) (e : Entry) (v : IsAccounted r) (f : find c.digest r.entries ≡ some e)
      (own : owns c e ≡ true) where
    deleted-Retired : Retired c (delete_entry c.digest r)
    unfolding owns
    deleted-Retired = record {
      past =
          rw (delete_entry-seq c.digest r)
            (ground (arith, version_within r.seq c.digest r.entries e v.versions f));
      gone = λ x g. absurd (ground (arith, delete_entry-find_self c.digest r));
    }

    finished-Retired : Retired c (finish_found c (find c.digest r.entries) r)
    unfolding finish_found
    finished-Retired = rw (f, own) deleted-Retired

    rotated-Retired :
        (now : ℕ) (handle : Option String) (s : Option ContinuationState)
        → Retired c (rotate_found digest now handle c (find c.digest r.entries) s r).0
    unfolding rotate_found
    rotated-Retired now handle s =
        rw (f, own) (rotate_owned-Retired digest c now handle c.digest e s r deleted-Retired)

    used-Retired : (b : Call) → Uses b → Retired c (after_call digest b r)
    unfolding after_call rotate complete abort
    used-Retired (rotates now handle b s) u = rw u (rotated-Retired now handle s)
    used-Retired (creates now handle s) u = absurd u
    used-Retired (claims now handle) u = absurd u
    used-Retired (revokes handle) u = absurd u
    used-Retired (cleans_up now) u = absurd u
    used-Retired (completes b) u = rw u finished-Retired
    used-Retired (aborts b) u = rw u finished-Retired
    used-Retired closes u = absurd u

-- A claim is good for one use. Where the registry's entry is the claim's, after the claim is
-- rotated, completed or aborted, whatever the rotation answers, and after any further calls, it
-- rotates nothing, and completing or aborting it changes nothing.
pub use-Spent :
    (digest : String → String) (c : Claim) (r : Registry) (e : Entry)
    → IsAccounted r
    → find c.digest r.entries ≡ some e
    → owns c e ≡ true
    → (b : Call) → Uses digest c b
    → (bs : List Call) → Spent digest c (after_calls digest bs (after_call digest b r))
use-Spent digest c r e v f own b u bs =
    Retired-Spent digest c _
      (after_calls-Retired digest c bs _ (used-Retired digest c r e v f own b u))
