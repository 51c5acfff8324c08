-- ===== src/Pagination/Waiting.antt =====
-- A handle of pagination/registry.go that waits for its claim while other calls go on.
pub mod Calls
use web_db.Prelude.{
  Result, ℕ, ◌+◌, ◌≡◌, ◌≢◌, ◌<◌, refl, ◌∙◌, true, false, String, List, [], ◌∷◌, Option, none, some,
  arith, Bool-cases, inl, inr, ltb, by_test, str_eq, eq_iff, str_eq_ne,
}
use web_db.Pagination.State.{ContinuationState, state_bytes}
use web_db.Pagination.Entries.{
  EntryStatus, in_flight, Entry, EntryMap, find, set_status, Absent, Distinct,
}
use web_db.Pagination.Quota.{Registry, delete_entry, drop_entry, insert_entry, has_room, is_ready}
use web_db.Pagination.Eviction.{find-without_ne}
use web_db.Pagination.Registry.{ErrorCode, claim_found, revoke_found, cleanup_from}
use web_db.Pagination.Calls.{
  Call, creates, claims, revokes, cleans_up, rotates, completes, aborts, closes, after_call,
}
use web_db.Pagination.Created.{delete_entry-closed}
use web_db.Pagination.Lineage.{IsOther}

-- The registry is open, and the digest's entry is `e`.
pub record Waits (d : String) (e : Entry) (r : Registry) : Type 0 where
  pub is_open : r.closed ≡ false
  pub held : find d r.entries ≡ some e

-- The state of a creation finds room, so that nothing is evicted for it.
abbrev pub HasRoomFor : ℕ → Option ContinuationState → Registry → Type 0
HasRoomFor now none r = Unit
HasRoomFor now (some s) r =
    has_room (record s { expires_at = now + r.cfg.ttl })
      (state_bytes (record s { expires_at = now + r.cfg.ttl })) r
    ≡ true

-- A call that leaves the digest's entry alone, which is to expire at `expiry`: it neither claims
-- nor revokes a handle with that digest, evicts nothing, does not clean up from `expiry` on, and
-- does not close the registry.
abbrev pub Spares : (String → String) → String → ℕ → Call → Registry → Type 0
Spares digest d expiry (creates now handle s) r = HasRoomFor now s r
Spares digest d expiry (claims now handle) r = IsOther digest d handle
Spares digest d expiry (revokes handle) r = IsOther digest d handle
Spares digest d expiry (cleans_up now) r = now < expiry
Spares digest d expiry (rotates now handle c s) r = Unit
Spares digest d expiry (completes c) r = Unit
Spares digest d expiry (aborts c) r = Unit
Spares digest d expiry closes r = ⊥

abbrev pub AllSpare : (String → String) → String → ℕ → List Call → Registry → Type 0
AllSpare digest d expiry [] r = Unit
AllSpare digest d expiry (c ∷ cs) r =
    Spares digest d expiry c r × AllSpare digest d expiry cs (after_call digest c r)

delete_entry-find_ne :
    (j d : String) (r : Registry) → j ≢ d → find d (delete_entry j r).entries ≡ find d r.entries
delete_entry-find_ne j d r ne = unfold delete_entry in at_entry (find j r.entries)
  where
    at_entry : (o : Option Entry) → find d (drop_entry j o r).entries ≡ find d r.entries
    at_entry none = unfold drop_entry in refl
    at_entry (some x) = unfold drop_entry in find-without_ne j d r.entries ne

set_status-find_ne :
    (j d : String) (status : EntryStatus) (es : EntryMap)
    → j ≢ d
    → find d (set_status j status es) ≡ find d es
unfolding set_status find
set_status-find_ne j d status [] ne = refl
set_status-find_ne j d status ((k, x) ∷ es) ne =
    ground (arith, set_status-find_ne j d status es ne, eq_iff k j, eq_iff k d)

module _ (d : String) (e : Entry) where
  abbrev Keeps : {A : Type 0} → Registry × Result ErrorCode A → Type 0
  Keeps q = Waits d e q.0

  pub delete_entry-Waits :
      (j : String) (r : Registry) → j ≢ d → Waits d e r → Waits d e (delete_entry j r)
  delete_entry-Waits j r ne w = record {
    is_open = delete_entry-closed j r ∙ w.is_open;
    held = delete_entry-find_ne j d r ne ∙ w.held;
  }

  pub insert_entry-Waits :
      (j : String) (s : ContinuationState) (n now : ℕ) (r : Registry)
      → j ≢ d
      → Waits d e r
      → Waits d e (insert_entry j s n now r)
  unfolding insert_entry find
  insert_entry-Waits j s n now r ne w = record {
    is_open = w.is_open;
    held = rw (str_eq_ne j d ne) (find-without_ne j d r.entries ne ∙ w.held);
  }

  -- A clean-up at `now` passes over every entry of the digest.
  abbrev pub Passes : ℕ → EntryMap → Type 0
  Passes now [] = Unit
  Passes now ((k, x) ∷ es) = (k ≡ d → ltb now x.expires_at ≡ true) × Passes now es

  Absent-Passes : (now : ℕ) (es : EntryMap) → Absent d es → Passes now es
  Absent-Passes now [] a = tt
  Absent-Passes now ((k, x) ∷ es) a = (λ q. absurd (a.0 q), Absent-Passes now es a.1)

  -- The map holds the digest once, and its entry is not yet to expire.
  pub find-Passes :
      (now : ℕ) (es : EntryMap)
      → Distinct es
      → find d es ≡ some e
      → now < e.expires_at
      → Passes now es
  unfolding find
  find-Passes now [] a f l = tt
  find-Passes now ((k, x) ∷ es) a f l = elim (Bool-cases (str_eq k d)) [
    | inl q ↦
        (let same : k ≡ d = (eq_iff k d).0 q in
          (λ _. ground arith, Absent-Passes now es (rw same at a.0)))
    | inr q ↦ (λ same. absurd (ground (arith, eq_iff k d)), find-Passes now es a.1 (rw q at f) l)
  ]

  pub cleanup_from-Waits :
      (now : ℕ) (es : EntryMap) (r : Registry)
      → Passes now es
      → Waits d e r
      → Waits d e (cleanup_from now es r)
  unfolding cleanup_from
  cleanup_from-Waits now [] r p w = w
  cleanup_from-Waits now ((k, x) ∷ es) r p w = cleanup_from-Waits now es _ p.1 (
      by_test (Waits d e) (ltb now x.expires_at) _ _ (λ _. w)
        (λ late. delete_entry-Waits k r (λ same. ground (arith, p.0 same)) w))

  pub claim_found-Waits :
      (j : String) (now : ℕ) (o : Option Entry) (r : Registry)
      → j ≢ d
      → Waits d e r
      → Waits d e (claim_found j now o r).0
  unfolding claim_found
  claim_found-Waits j now none r ne w = w
  claim_found-Waits j now (some x) r ne w =
      by_test Keeps (is_ready x.status) _ _
        (λ _.
          by_test Keeps (ltb now x.expires_at) _ _
            (λ _. record {
              is_open = w.is_open;
              held = set_status-find_ne j d in_flight r.entries ne ∙ w.held;
            })
            (λ _. delete_entry-Waits j r ne w))
        (λ _. w)

  pub revoke_found-Waits :
      (j : String) (o : Option Entry) (r : Registry)
      → j ≢ d
      → Waits d e r
      → Waits d e (revoke_found j o r)
  unfolding revoke_found
  revoke_found-Waits j none r ne w = w
  revoke_found-Waits j (some x) r ne w =
      by_test (Waits d e) (is_ready x.status) _ _ (λ _. delete_entry-Waits j r ne w) (λ _. w)
