-- ===== src/Pagination/Calls.antt =====
-- The registry of pagination/registry.go over any history of calls.
pub mod Writes
pub mod Sound
use web_db.Prelude.{ℕ, ◌≡◌, String, List, [], ◌∷◌, Option, none, some}
use web_db.Pagination.State.{ContinuationState}
use web_db.Pagination.Entries.{find}
use web_db.Pagination.Quota.{Registry, close}
use web_db.Pagination.Registry.{
  Claim, create, claim, revoke, cleanup_expired, rotate, complete, abort,
}

-- One call, with the clock's reading and the random handle that it gets.
pub data Call : Type 0 where
  creates : ℕ → Option String → Option ContinuationState → Call
  claims : ℕ → String → Call
  revokes : String → Call
  cleans_up : ℕ → Call
  rotates : ℕ → Option String → Claim → Option ContinuationState → Call
  completes aborts : Claim → Call
  closes : Call

module _ (digest : String → String) where
  unfoldable pub after_call : Call → Registry → Registry
  unfolding create claim revoke cleanup_expired rotate complete abort close
  after_call (creates now handle s) r = (create digest now handle s r).0
  after_call (claims now handle) r = (claim digest now handle r).0
  after_call (revokes handle) r = revoke digest handle r
  after_call (cleans_up now) r = cleanup_expired now r
  after_call (rotates now handle c s) r = (rotate digest now handle c s r).0
  after_call (completes c) r = complete c r
  after_call (aborts c) r = abort c r
  after_call closes r = close r

  unfoldable pub after_calls : List Call → Registry → Registry
  unfolding after_call
  after_calls [] r = r
  after_calls (c ∷ cs) r = after_calls cs (after_call c r)

  -- A random handle is not one that is in use.
  abbrev pub IsFresh : Option String → Registry → Type 0
  IsFresh none r = Unit
  IsFresh (some h) r = find (digest h) r.entries ≡ none

  abbrev pub DrawsFresh : Call → Registry → Type 0
  DrawsFresh (creates now handle s) r = IsFresh handle r
  DrawsFresh (rotates now handle c s) r = IsFresh handle r
  DrawsFresh (claims now handle) r = Unit
  DrawsFresh (revokes handle) r = Unit
  DrawsFresh (cleans_up now) r = Unit
  DrawsFresh (completes c) r = Unit
  DrawsFresh (aborts c) r = Unit
  DrawsFresh closes r = Unit

  abbrev pub AllDrawFresh : List Call → Registry → Type 0
  AllDrawFresh [] r = Unit
  AllDrawFresh (c ∷ cs) r = DrawsFresh c r × AllDrawFresh cs (after_call c r)
