-- ===== src/Pagination/Waiting/Calls.antt =====
-- A handle of pagination/registry.go waits through any calls that leave its entry alone.
use web_db.Prelude.{
  Result, ℕ, ◌+◌, ◌≡◌, ◌≢◌, refl, true, String, List, [], ◌∷◌, Option, none, some, arith, ltb,
  by_test,
}
use web_db.Pagination.State.{ContinuationState, state_bytes, valid_state}
use web_db.Pagination.Entries.{Entry, find, Distinct}
use web_db.Pagination.Quota.{Registry, evict_for_quota, evict_loop, has_room, is_ready}
use web_db.Pagination.Registry.{
  Claim, ErrorCode, create, create_valid, claim, revoke, cleanup_expired, rotate, rotate_found,
  complete, abort, finish_found, owns,
}
use web_db.Pagination.Calls.{
  Call, creates, claims, revokes, cleans_up, rotates, completes, aborts, closes, after_call,
  after_calls, IsFresh, DrawsFresh, AllDrawFresh,
}
use web_db.Pagination.Calls.Writes.{IsSound}
use web_db.Pagination.Calls.Sound.{after_call-IsKept, IsKept-open}
use web_db.Pagination.Lineage.{IsOther}
use web_db.Pagination.Preserve.{DrawnIn, create_evicted-keeps, rotate_owned-keeps}
use web_db.Pagination.Waiting.{
  Waits, HasRoomFor, Spares, AllSpare, delete_entry-Waits, insert_entry-Waits, find-Passes,
  cleanup_from-Waits, claim_found-Waits, revoke_found-Waits,
}

module _ (d : String) (e : Entry) where
  abbrev Keeps : {A : Type 0} → Registry × Result ErrorCode A → Type 0
  Keeps q = Waits d e q.0

  module _ (is : is_ready e.status ≡ true) where
    -- A claim owns entries in flight only, so that none of the digest owns its entry.
    owned-other :
        (c : Claim) (x : Entry) (r : Registry)
        → find c.digest r.entries ≡ some x
        → owns c x ≡ true
        → Waits d e r
        → c.digest ≢ d
    unfolding owns
    owned-other c x r f own w same =
        let found : find d r.entries ≡ some x = rw same at f in ground (arith, w.held, found)

    finish_found-Waits :
        (c : Claim) (o : Option Entry) (r : Registry)
        → find c.digest r.entries ≡ o
        → Waits d e r
        → Waits d e (finish_found c o r)
    unfolding finish_found
    finish_found-Waits c none r f w = w
    finish_found-Waits c (some x) r f w =
        by_test (Waits d e) (owns c x) _ _
          (λ own. delete_entry-Waits d e c.digest r (owned-other c x r f own w) w) (λ _. w)

    module _ (digest : String → String) where
      -- A rotation, with a handle that has another digest.
      rotate_found-Waits :
          (now : ℕ) (handle : Option String) (c : Claim) (o : Option Entry)
          (s : Option ContinuationState) (r : Registry)
          → DrawnIn (IsOther digest d) handle
          → find c.digest r.entries ≡ o
          → Waits d e r
          → Keeps (rotate_found digest now handle c o s r)
      unfolding rotate_found
      rotate_found-Waits now handle c none s r a f w = w
      rotate_found-Waits now handle c (some x) s r a f w =
          by_test Keeps (owns c x) _ _
            (λ own.
              rotate_owned-keeps digest (IsOther digest d) (Waits d e)
                (λ t y n at_now q other v. insert_entry-Waits d e (digest t) y n at_now q other v)
                now handle c.digest x s r a
                (delete_entry-Waits d e c.digest r (owned-other c x r f own w) w))
            (λ _. w)

      -- A creation that needs no eviction.
      create_valid-Waits :
          (now : ℕ) (handle : Option String) (s : ContinuationState) (r : Registry)
          → DrawnIn (IsOther digest d) handle
          → has_room s (state_bytes s) r ≡ true
          → Waits d e r
          → Keeps (create_valid digest now handle s r)
      unfolding create_valid evict_for_quota evict_loop
      create_valid-Waits now handle s r a room w =
          by_test Keeps (ltb r.cfg.max_state_bytes (state_bytes s)) _ _ (λ _. w)
            (λ _. rw room (
              create_evicted-keeps digest (IsOther digest d) (Waits d e)
                (λ t y n at_now q other v. insert_entry-Waits d e (digest t) y n at_now q other v)
                now handle s (state_bytes s) r true a w))

      create-Waits :
          (now : ℕ) (handle : Option String) (s : Option ContinuationState) (r : Registry)
          → DrawnIn (IsOther digest d) handle
          → HasRoomFor now s r
          → Waits d e r
          → Keeps (create digest now handle s r)
      unfolding create
      create-Waits now handle none r a room w = by_test Keeps r.closed _ _ (λ _. w) (λ _. w)
      create-Waits now handle (some s) r a room w =
          by_test Keeps r.closed _ _ (λ _. w)
            (λ _.
              by_test Keeps (valid_state s) _ _
                (λ _.
                  create_valid-Waits now handle (record s { expires_at = now + r.cfg.ttl }) r a room
                    w)
                (λ _. w))

      fresh-IsOther :
          (handle : Option String) (r : Registry)
          → IsFresh digest handle r
          → Waits d e r
          → DrawnIn (IsOther digest d) handle
      fresh-IsOther none r f w = tt
      fresh-IsOther (some t) r f w = λ same. absurd (ground (arith, w.held, rw same at f))

      after_call-Waits :
          (b : Call) (r : Registry)
          → Distinct r.entries
          → DrawsFresh digest b r
          → Spares digest d e.expires_at b r
          → Waits d e r
          → Waits d e (after_call digest b r)
      unfolding after_call claim revoke cleanup_expired rotate complete abort
      after_call-Waits (creates now handle s) r v f p w =
          create-Waits now handle s r (fresh-IsOther handle r f w) p w
      after_call-Waits (claims now handle) r v f p w =
          by_test Keeps r.closed _ _ (λ _. w)
            (λ _. claim_found-Waits d e (digest handle) now _ r p w)
      after_call-Waits (revokes handle) r v f p w =
          by_test (Waits d e) r.closed _ _ (λ _. w)
            (λ _. revoke_found-Waits d e (digest handle) _ r p w)
      after_call-Waits (cleans_up now) r v f p w =
          cleanup_from-Waits d e now r.entries r (find-Passes d e now r.entries v w.held p) w
      after_call-Waits (rotates now handle c s) r v f p w =
          rotate_found-Waits now handle c _ s r (fresh-IsOther handle r f w) refl w
      after_call-Waits (completes c) r v f p w = finish_found-Waits c _ r refl w
      after_call-Waits (aborts c) r v f p w = finish_found-Waits c _ r refl w
      after_call-Waits closes r v f p w = absurd p

      pub after_calls-Waits :
          (bs : List Call) (r : Registry)
          → IsSound r
          → AllDrawFresh digest bs r
          → AllSpare digest d e.expires_at bs r
          → Waits d e r
          → Waits d e (after_calls digest bs r)
      unfolding after_calls
      after_calls-Waits [] r v f p w = w
      after_calls-Waits (b ∷ bs) r v f p w =
          let after = after_call-Waits b r v.accounted.distinct f.0 p.0 w in
          after_calls-Waits bs (after_call digest b r)
            (IsKept-open _ after.is_open (after_call-IsKept digest b r v f.0)) f.1 p.1 after
