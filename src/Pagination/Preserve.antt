-- ===== src/Pagination/Preserve.antt =====
-- What the methods of pagination/registry.go keep: whatever the steps that they are made of keep,
-- which are to delete an entry, to put one in flight, to insert one, and to close the registry.
use web_db.Prelude.{
  ℕ, zero, suc, ◌+◌, String, List, [], ◌∷◌, Option, none, some, Bool, true, false, Bool-cases, inl,
  inr, Result, ltb, Option-cases, ◌&&◌, by_test,
}
use web_db.Pagination.State.{ContinuationState, state_bytes, valid_state}
use web_db.Pagination.Entries.{in_flight, Entry, EntryMap, set_status}
use web_db.Pagination.Quota.{
  Registry, delete_entry, insert_entry, evict_for_quota, evict_loop, has_room, pick_evictable,
  is_ready, close,
}
use web_db.Pagination.Registry.{
  Claim, ErrorCode, create, create_valid, create_evicted, claim, claim_found, revoke, revoke_found,
  cleanup_expired, cleanup_from, rotate, rotate_found, rotate_owned, rotate_state, rotate_checked,
  rotate_write, complete, abort, finish_found, owns, same_identity, fits_bytes,
}
use web_db.Pagination.Calls.{
  Call, creates, claims, revokes, cleans_up, rotates, completes, aborts, closes, after_call,
  after_calls,
}

-- The handle that a call draws, if it draws one.
abbrev pub DrawnIn : (String → Type 0) → Option String → Type 0
DrawnIn Allows none = Unit
DrawnIn Allows (some h) = Allows h

abbrev pub Draws : (String → Type 0) → Call → Type 0
Draws Allows (creates now handle s) = DrawnIn Allows handle
Draws Allows (claims now handle) = Unit
Draws Allows (revokes handle) = Unit
Draws Allows (cleans_up now) = Unit
Draws Allows (rotates now handle c s) = DrawnIn Allows handle
Draws Allows (completes c) = Unit
Draws Allows (aborts c) = Unit
Draws Allows closes = Unit

abbrev pub AllDraw : (String → Type 0) → List Call → Type 0
AllDraw Allows [] = Unit
AllDraw Allows (c ∷ cs) = Draws Allows c × AllDraw Allows cs

-- The steps keep `I`, where insertions use allowed handles only.
pub record IsStable (digest : String → String) (Allows : String → Type 0) (I : Registry → Type 0)
    : Type 0 where
  pub deletes : (d : String) (r : Registry) → I r → I (delete_entry d r)
  pub flies :
      (d : String) (r : Registry)
      → I r
      → I (record r { entries = set_status d in_flight r.entries })
  pub inserts :
      (t : String) (s : ContinuationState) (n now : ℕ) (r : Registry)
      → Allows t
      → I r
      → I (insert_entry (digest t) s n now r)
  pub shuts : (r : Registry) → I r → I (close r)

abbrev Kept : (Registry → Type 0) → {A : Type 0} → Registry × Result ErrorCode A → Type 0
Kept I q = I q.0

module _ (digest : String → String) (Allows : String → Type 0) (I : Registry → Type 0)
    (inserts : (t : String) (s : ContinuationState) (n now : ℕ) (r : Registry)
      → Allows t
      → I r
      → I (insert_entry (digest t) s n now r)) where
  pub create_evicted-keeps :
      (now : ℕ) (handle : Option String) (s : ContinuationState) (n : ℕ) (r : Registry)
      (done : Bool)
      → DrawnIn Allows handle
      → I r
      → Kept I (create_evicted digest now handle s n (r, done))
  unfolding create_evicted
  create_evicted-keeps now handle s n r false a h = h
  create_evicted-keeps now none s n r true a h = h
  create_evicted-keeps now (some t) s n r true a h = inserts t s n now r a h

  -- A rotation keeps what holds once the rotated entry is deleted.
  rotate_write-keeps :
      (now : ℕ) (handle : Option String) (d : String) (s : ContinuationState) (r : Registry)
      → DrawnIn Allows handle
      → I (delete_entry d r)
      → Kept I (rotate_write digest now handle d s r)
  unfolding rotate_write
  rotate_write-keeps now none d s r a h = h
  rotate_write-keeps now (some t) d s r a h = inserts t s (state_bytes s) now (delete_entry d r) a h

  rotate_checked-keeps :
      (now : ℕ) (handle : Option String) (d : String) (e : Entry) (s : ContinuationState)
      (r : Registry)
      → DrawnIn Allows handle
      → I (delete_entry d r)
      → Kept I (rotate_checked digest now handle d e s r)
  unfolding rotate_checked
  rotate_checked-keeps now handle d e s r a h =
      by_test (Kept I) (ltb r.cfg.max_state_bytes (state_bytes s)) _ _ (λ _. h)
        (λ _.
          by_test (Kept I) (fits_bytes s (state_bytes s) e.bytes r) _ _
            (λ _. rotate_write-keeps now handle d s r a h) (λ _. h))

  rotate_state-keeps :
      (now : ℕ) (handle : Option String) (d : String) (e : Entry) (s : Option ContinuationState)
      (r : Registry)
      → DrawnIn Allows handle
      → I (delete_entry d r)
      → Kept I (rotate_state digest now handle d e s r)
  unfolding rotate_state
  rotate_state-keeps now handle d e none r a h = h
  rotate_state-keeps now handle d e (some s) r a h =
      by_test (Kept I) (valid_state s && same_identity s e.state) _ _
        (λ _. rotate_checked-keeps now handle d e _ r a h) (λ _. h)

  pub rotate_owned-keeps :
      (now : ℕ) (handle : Option String) (d : String) (e : Entry) (s : Option ContinuationState)
      (r : Registry)
      → DrawnIn Allows handle
      → I (delete_entry d r)
      → Kept I (rotate_owned digest now handle d e s r)
  unfolding rotate_owned
  rotate_owned-keeps now handle d e s r a h =
      by_test (Kept I) (ltb now e.expires_at) _ _ (λ _. rotate_state-keeps now handle d e s r a h)
        (λ _. h)

module _ (digest : String → String) (Allows : String → Type 0) (I : Registry → Type 0)
    (k : IsStable digest Allows I) where
  evict_loop-keeps :
      (fuel : ℕ) (s : ContinuationState) (n : ℕ) (r : Registry) → I r → I (evict_loop fuel s n r).0
  unfolding evict_loop
  evict_loop-keeps zero s n r h = h
  evict_loop-keeps (suc fuel) s n r h = elim (Bool-cases (has_room s n r)) [
    | inl e ↦ rw e h
    | inr e ↦ elim (Option-cases (pick_evictable s n r)) [
      | inl f ↦ rw (e, f) h
      | inr ((d, t), f) ↦ rw (e, f) (evict_loop-keeps fuel s n (delete_entry d r) (k.deletes d r h))
    ]
  ]

  create_valid-keeps :
      (now : ℕ) (handle : Option String) (s : ContinuationState) (r : Registry)
      → DrawnIn Allows handle
      → I r
      → Kept I (create_valid digest now handle s r)
  unfolding create_valid evict_for_quota
  create_valid-keeps now handle s r a h =
      by_test (Kept I) (ltb r.cfg.max_state_bytes (state_bytes s)) _ _ (λ _. h)
        (λ _.
          create_evicted-keeps digest Allows I k.inserts now handle s (state_bytes s) _ _ a
            (evict_loop-keeps _ s (state_bytes s) r h))

  create-keeps :
      (now : ℕ) (handle : Option String) (s : Option ContinuationState) (r : Registry)
      → DrawnIn Allows handle
      → I r
      → Kept I (create digest now handle s r)
  unfolding create
  create-keeps now handle none r a h = by_test (Kept I) r.closed _ _ (λ _. h) (λ _. h)
  create-keeps now handle (some s) r a h =
      by_test (Kept I) r.closed _ _ (λ _. h)
        (λ _.
          by_test (Kept I) (valid_state s) _ _
            (λ _. create_valid-keeps now handle (record s { expires_at = now + r.cfg.ttl }) r a h)
            (λ _. h))

  claim_found-keeps :
      (d : String) (now : ℕ) (o : Option Entry) (r : Registry)
      → I r
      → Kept I (claim_found d now o r)
  unfolding claim_found
  claim_found-keeps d now none r h = h
  claim_found-keeps d now (some e) r h =
      by_test (Kept I) (is_ready e.status) _ _
        (λ _.
          by_test (Kept I) (ltb now e.expires_at) _ _ (λ _. k.flies d r h) (λ _. k.deletes d r h))
        (λ _. h)

  revoke_found-keeps : (d : String) (o : Option Entry) (r : Registry) → I r → I (revoke_found d o r)
  unfolding revoke_found
  revoke_found-keeps d none r h = h
  revoke_found-keeps d (some e) r h =
      by_test I (is_ready e.status) _ _ (λ _. k.deletes d r h) (λ _. h)

  cleanup_from-keeps : (now : ℕ) (es : EntryMap) (r : Registry) → I r → I (cleanup_from now es r)
  unfolding cleanup_from
  cleanup_from-keeps now [] r h = h
  cleanup_from-keeps now ((d, e) ∷ es) r h =
      cleanup_from-keeps now es _
        (by_test I (ltb now e.expires_at) _ _ (λ _. h) (λ _. k.deletes d r h))

  finish_found-keeps : (b : Claim) (o : Option Entry) (r : Registry) → I r → I (finish_found b o r)
  unfolding finish_found
  finish_found-keeps b none r h = h
  finish_found-keeps b (some e) r h =
      by_test I (owns b e) _ _ (λ _. k.deletes b.digest r h) (λ _. h)

  rotate_found-keeps :
      (now : ℕ) (handle : Option String) (b : Claim) (o : Option Entry)
      (s : Option ContinuationState) (r : Registry)
      → DrawnIn Allows handle
      → I r
      → Kept I (rotate_found digest now handle b o s r)
  unfolding rotate_found
  rotate_found-keeps now handle b none s r a h = h
  rotate_found-keeps now handle b (some e) s r a h =
      by_test (Kept I) (owns b e) _ _
        (λ _.
          rotate_owned-keeps digest Allows I k.inserts now handle b.digest e s r a
            (k.deletes b.digest r h))
        (λ _. h)

  after_call-keeps : (b : Call) (r : Registry) → Draws Allows b → I r → I (after_call digest b r)
  unfolding after_call claim revoke cleanup_expired rotate complete abort
  after_call-keeps (creates now handle s) r a h = create-keeps now handle s r a h
  after_call-keeps (claims now handle) r a h =
      by_test (Kept I) r.closed _ _ (λ _. h) (λ _. claim_found-keeps _ now _ r h)
  after_call-keeps (revokes handle) r a h =
      by_test I r.closed _ _ (λ _. h) (λ _. revoke_found-keeps _ _ r h)
  after_call-keeps (cleans_up now) r a h = cleanup_from-keeps now r.entries r h
  after_call-keeps (rotates now handle b s) r a h = rotate_found-keeps now handle b _ s r a h
  after_call-keeps (completes b) r a h = finish_found-keeps b _ r h
  after_call-keeps (aborts b) r a h = finish_found-keeps b _ r h
  after_call-keeps closes r a h = k.shuts r h

  pub after_calls-keeps :
      (bs : List Call) (r : Registry) → AllDraw Allows bs → I r → I (after_calls digest bs r)
  unfolding after_calls
  after_calls-keeps [] r a h = h
  after_calls-keeps (b ∷ bs) r a h = after_calls-keeps bs _ a.1 (after_call-keeps b r a.0 h)

-- Where any handle is allowed.
abbrev pub AnyHandle : String → Type 0
AnyHandle t = Unit

pub any_drawn : (handle : Option String) → DrawnIn AnyHandle handle
any_drawn none = tt
any_drawn (some t) = tt

any-Draws : (b : Call) → Draws AnyHandle b
any-Draws (creates now handle s) = any_drawn handle
any-Draws (rotates now handle c s) = any_drawn handle
any-Draws (claims now handle) = tt
any-Draws (revokes handle) = tt
any-Draws (cleans_up now) = tt
any-Draws (completes c) = tt
any-Draws (aborts c) = tt
any-Draws closes = tt

pub any_draw : (bs : List Call) → AllDraw AnyHandle bs
any_draw [] = tt
any_draw (b ∷ bs) = (any-Draws b, any_draw bs)
