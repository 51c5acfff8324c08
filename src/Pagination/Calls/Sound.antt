-- ===== src/Pagination/Calls/Sound.antt =====
-- The counters and limits of pagination/registry.go over any history of calls.
use web_db.Prelude.{
  ℕ, ◌≡◌, ◌⊎◌, refl, ap, ◌∙◌, inl, inr, false, String, List, [], ◌∷◌, Option, none, some, arith,
  by_test, ltb,
}
use web_db.Pagination.Config.{Config}
use web_db.Pagination.Entries.{EntryStatus, in_flight, set_status, Entry, EntryMap, find}
use web_db.Pagination.Quota.{Registry, new, close, is_ready}
use web_db.Pagination.Accounting.{set_status-IsAccounted, new-IsAccounted}
use web_db.Pagination.Limits.{new-IsWithin}
use web_db.Pagination.Registry.{
  Claim, claim, claim_found, revoke, revoke_found, cleanup_expired, cleanup_from, complete, abort,
  finish_found, owns,
}
use web_db.Pagination.Calls.{
  Call, creates, claims, revokes, cleans_up, rotates, completes, aborts, closes, after_call,
  after_calls, DrawsFresh, AllDrawFresh,
}
use web_db.Pagination.Closing.{stays_closed}
use web_db.Pagination.Calls.Writes.{
  rotate-IsSound, create-IsSound, IsSound, Sound, delete_entry-IsSound,
}

-- Sound, or what `close` made of a sound registry.
abbrev pub IsKept : Registry → Type 0
IsKept r = IsSound r ⊎ ((q : Registry) × IsSound q × (r ≡ close q))

module _ (digest : String → String) where
  set_status-IsSound :
      (d : String) (status : EntryStatus) (r : Registry)
      → IsSound r
      → IsSound (record r { entries = set_status d status r.entries })
  set_status-IsSound d status r v = record {
    accounted = set_status-IsAccounted d status r v.accounted;
    within = record {
      users = v.within.users;
      workspaces = v.within.workspaces;
      connections = v.within.connections;
      global = v.within.global;
      user_sizes = v.within.user_sizes;
      ws_sizes = v.within.ws_sizes;
      conn_sizes = v.within.conn_sizes;
      global_size = v.within.global_size;
    };
  }

  claim_found-IsSound :
      (d : String) (now : ℕ) (o : Option Entry) (r : Registry)
      → IsSound r
      → IsSound (claim_found d now o r).0
  unfolding claim_found
  claim_found-IsSound d now none r v = v
  claim_found-IsSound d now (some e) r v =
      by_test Sound (is_ready e.status) _ _
        (λ _.
          by_test Sound (ltb now e.expires_at) _ _ (λ _. set_status-IsSound d in_flight r v)
            (λ _. delete_entry-IsSound d r v))
        (λ _. v)

  claim-IsSound :
      (now : ℕ) (handle : String) (r : Registry) → IsSound r → IsSound (claim digest now handle r).0
  unfolding claim
  claim-IsSound now handle r v =
      by_test Sound r.closed _ _ (λ _. v)
        (λ _. claim_found-IsSound (digest handle) now (find (digest handle) r.entries) r v)

  revoke_found-IsSound :
      (d : String) (o : Option Entry) (r : Registry) → IsSound r → IsSound (revoke_found d o r)
  unfolding revoke_found
  revoke_found-IsSound d none r v = v
  revoke_found-IsSound d (some e) r v =
      by_test IsSound (is_ready e.status) _ _ (λ _. delete_entry-IsSound d r v) (λ _. v)

  revoke-IsSound : (handle : String) (r : Registry) → IsSound r → IsSound (revoke digest handle r)
  unfolding revoke
  revoke-IsSound handle r v =
      by_test IsSound r.closed _ _ (λ _. v)
        (λ _. revoke_found-IsSound (digest handle) (find (digest handle) r.entries) r v)

  cleanup_from-IsSound :
      (now : ℕ) (es : EntryMap) (r : Registry) → IsSound r → IsSound (cleanup_from now es r)
  unfolding cleanup_from
  cleanup_from-IsSound now [] r v = v
  cleanup_from-IsSound now ((d, e) ∷ es) r v =
      cleanup_from-IsSound now es _
        (by_test IsSound (ltb now e.expires_at) _ _ (λ _. v) (λ _. delete_entry-IsSound d r v))

  finish_found-IsSound :
      (c : Claim) (o : Option Entry) (r : Registry) → IsSound r → IsSound (finish_found c o r)
  unfolding finish_found
  finish_found-IsSound c none r v = v
  finish_found-IsSound c (some e) r v =
      by_test IsSound (owns c e) _ _ (λ _. delete_entry-IsSound c.digest r v) (λ _. v)

  pub after_call-IsKept :
      (c : Call) (r : Registry) → IsSound r → DrawsFresh digest c r → IsKept (after_call digest c r)
  unfolding after_call cleanup_expired complete abort
  after_call-IsKept (creates now handle s) r v f = inl (create-IsSound digest now handle s r v f)
  after_call-IsKept (claims now handle) r v f = inl (claim-IsSound now handle r v)
  after_call-IsKept (revokes handle) r v f = inl (revoke-IsSound handle r v)
  after_call-IsKept (cleans_up now) r v f = inl (cleanup_from-IsSound now r.entries r v)
  after_call-IsKept (rotates now handle c s) r v f =
      inl (rotate-IsSound digest now handle c s r v f)
  after_call-IsKept (completes c) r v f = inl (finish_found-IsSound c (find c.digest r.entries) r v)
  after_call-IsKept (aborts c) r v f = inl (finish_found-IsSound c (find c.digest r.entries) r v)
  after_call-IsKept closes r v f = inr (r, v, refl)

  from_IsKept :
      (cs : List Call) (r : Registry)
      → IsKept r
      → AllDrawFresh digest cs r
      → IsKept (after_calls digest cs r)
  unfolding after_calls
  from_IsKept [] r v f = v
  from_IsKept (c ∷ cs) r (inl v) f =
      from_IsKept cs (after_call digest c r) (after_call-IsKept c r v f.0) f.1
  from_IsKept (c ∷ cs) r (inr (q, v, e)) f =
      inr (q, v, ap (after_calls digest (c ∷ cs)) e ∙ stays_closed digest q (c ∷ cs))

-- After any calls on a new registry, `Close` among them, each drawing a random handle that is not
-- in use, either each of the eight counters is exactly the number, or the bytes, of the entries that
-- it is about, no digest stands twice, no version is above the sequence number, and no counter is
-- over its limit; or the registry is closed and has no entries, and the rest of it is as it was in
-- a registry that these hold of.
pub after_calls-IsKept :
    (digest : String → String) (cfg : Config) (cs : List Call)
    → AllDrawFresh digest cs (new cfg)
    → IsKept (after_calls digest cs (new cfg))
after_calls-IsKept digest cfg cs f =
    from_IsKept digest cs (new cfg)
      (inl (record { accounted = new-IsAccounted cfg; within = new-IsWithin cfg })) f

-- A registry that is open is none that `close` left.
pub IsKept-open : (r : Registry) → r.closed ≡ false → IsKept r → IsSound r
unfolding close
IsKept-open r o (inl v) = v
IsKept-open r o (inr (q, v, e)) = absurd (ground (arith, ap (λ x. x.closed) e))
