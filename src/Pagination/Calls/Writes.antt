-- ===== src/Pagination/Calls/Writes.antt =====
-- The calls that write entries in pagination/registry.go: `Create` and `Rotate`.
use web_db.Prelude.{
  ℕ, ◌+◌, ◌≡◌, refl, Bool, true, false, String, Option, none, some, Bool-cases, by_test, and_right,
  inl, inr, Result, ltb, ◌&&◌, zero, suc, Option-cases,
}
use web_db.Pagination.State.{ContinuationState, state_bytes, valid_state}
use web_db.Pagination.Entries.{Entry, find}
use web_db.Pagination.Quota.{
  Registry, delete_entry, evict_for_quota, evict_loop, has_room, pick_evictable, insert_entry,
}
use web_db.Pagination.Accounting.{IsAccounted, delete_entry-IsAccounted, insert_entry-IsAccounted}
use web_db.Pagination.Eviction.{evict_for_quota-Evicted, delete_entry-find_none}
use web_db.Pagination.Limits.{
  IsWithin, HasRoom, has_room-HasRoom, insert_entry-IsWithin, delete_entry-IsWithin, slot-HasRoom,
}
use web_db.Pagination.Registry.{
  Claim, create, create_valid, create_evicted, rotate, rotate_found, rotate_owned, rotate_state,
  ErrorCode, rotate_checked, rotate_write, owns, same_identity, fits_bytes,
}
use web_db.Pagination.Calls.{IsFresh}

-- What holds of the registry between two calls.
pub record IsSound (r : Registry) : Type 0 where
  pub accounted : IsAccounted r
  pub within : IsWithin r

pub delete_entry-IsSound : (d : String) (r : Registry) → IsSound r → IsSound (delete_entry d r)
delete_entry-IsSound d r v = record {
  accounted = delete_entry-IsAccounted d r v.accounted;
  within = delete_entry-IsWithin d r v.within;
}

evict_loop-IsWithin :
    (fuel : ℕ) (s : ContinuationState) (n : ℕ) (r : Registry)
    → IsWithin r
    → IsWithin (evict_loop fuel s n r).0
unfolding evict_loop
evict_loop-IsWithin zero s n r w = w
evict_loop-IsWithin (suc fuel) s n r w = elim (Bool-cases (has_room s n r)) [
  | inl e ↦ rw e w
  | inr e ↦ elim (Option-cases (pick_evictable s n r)) [
    | inl f ↦ rw (e, f) w
    | inr ((d, t), f) ↦
        rw (e, f) (evict_loop-IsWithin fuel s n (delete_entry d r) (delete_entry-IsWithin d r w))
  ]
]

insert_entry-IsSound :
    (d : String) (s : ContinuationState) (n now : ℕ) (r : Registry)
    → IsSound r
    → find d r.entries ≡ none
    → HasRoom s n r
    → IsSound (insert_entry d s n now r)
insert_entry-IsSound d s n now r v f room = record {
  accounted = insert_entry-IsAccounted d s n now r v.accounted f;
  within = insert_entry-IsWithin d s n now r v.within room;
}

-- A call's answer, with the registry that it leaves.
abbrev pub Sound : {A : Type 0} → Registry × Result ErrorCode A → Type 0
Sound q = IsSound q.0

module _ (digest : String → String) where
  create_evicted-IsSound :
      (now : ℕ) (handle : Option String) (s : ContinuationState) (n : ℕ) (r : Registry)
      (done : Bool)
      → IsSound r
      → IsFresh digest handle r
      → (done ≡ true → has_room s n r ≡ true)
      → IsSound (create_evicted digest now handle s n (r, done)).0
  unfolding create_evicted
  create_evicted-IsSound now handle s n r false v f room = v
  create_evicted-IsSound now none s n r true v f room = v
  create_evicted-IsSound now (some h) s n r true v f room =
      insert_entry-IsSound (digest h) s n now r v f (has_room-HasRoom s n r (room refl))

  IsFresh-after :
      (handle : Option String) (r q : Registry)
      → ((d : String) → find d r.entries ≡ none → find d q.entries ≡ none)
      → IsFresh digest handle r
      → IsFresh digest handle q
  IsFresh-after none r q keep f = tt
  IsFresh-after (some h) r q keep f = keep (digest h) f

  create_valid-IsSound :
      (now : ℕ) (handle : Option String) (s : ContinuationState) (r : Registry)
      → IsSound r
      → IsFresh digest handle r
      → IsSound (create_valid digest now handle s r).0
  unfolding create_valid
  create_valid-IsSound now handle s r v f =
      elim (Bool-cases (ltb r.cfg.max_state_bytes (state_bytes s))) [
        | inl big ↦ rw big v
        | inr small ↦
            (let q = evict_for_quota-Evicted s (state_bytes s) r v.accounted in
              rw small (
                create_evicted-IsSound now handle s (state_bytes s)
                  (evict_for_quota s (state_bytes s) r).0 (evict_for_quota s (state_bytes s) r).1
                  (record {
                    accounted = q.accounted;
                    within =
                        unfold evict_for_quota in
                        evict_loop-IsWithin _ s (state_bytes s) r v.within;
                  })
                  (IsFresh-after handle r _ q.adds_none f) q.roomy))
      ]

  pub create-IsSound :
      (now : ℕ) (handle : Option String) (s : Option ContinuationState) (r : Registry)
      → IsSound r
      → IsFresh digest handle r
      → IsSound (create digest now handle s r).0
  unfolding create
  create-IsSound now handle none r v f = by_test Sound r.closed _ _ (λ _. v) (λ _. v)
  create-IsSound now handle (some s) r v f =
      by_test Sound r.closed _ _ (λ _. v)
        (λ _.
          by_test Sound (valid_state s) _ _
            (λ _. create_valid-IsSound now handle (record s { expires_at = now + r.cfg.ttl }) r v f)
            (λ _. v))

  rotate_write-IsSound :
      (now : ℕ) (handle : Option String) (d : String) (s : ContinuationState) (r : Registry)
      → IsSound r
      → IsFresh digest handle r
      → HasRoom s (state_bytes s) (delete_entry d r)
      → IsSound (rotate_write digest now handle d s r).0
  unfolding rotate_write
  rotate_write-IsSound now none d s r v f room = delete_entry-IsSound d r v
  rotate_write-IsSound now (some h) d s r v f room =
      insert_entry-IsSound (digest h) s (state_bytes s) now (delete_entry d r)
        (delete_entry-IsSound d r v) (delete_entry-find_none d (digest h) r f) room

  rotate_checked-IsSound :
      (now : ℕ) (handle : Option String) (d : String) (e : Entry) (s : ContinuationState)
      (r : Registry)
      → IsSound r
      → IsFresh digest handle r
      → find d r.entries ≡ some e
      → same_identity s e.state ≡ true
      → IsSound (rotate_checked digest now handle d e s r).0
  unfolding rotate_checked
  rotate_checked-IsSound now handle d e s r v f found same =
      by_test Sound (ltb r.cfg.max_state_bytes (state_bytes s)) _ _
        (λ _. delete_entry-IsSound d r v)
        (λ _.
          by_test Sound (fits_bytes s (state_bytes s) e.bytes r) _ _
            (λ fits.
              rotate_write-IsSound now handle d s r v f
                (slot-HasRoom d e s (state_bytes s) r v.accounted v.within found same fits))
            (λ _. delete_entry-IsSound d r v))

  rotate_state-IsSound :
      (now : ℕ) (handle : Option String) (d : String) (e : Entry) (s : Option ContinuationState)
      (r : Registry)
      → IsSound r
      → IsFresh digest handle r
      → find d r.entries ≡ some e
      → IsSound (rotate_state digest now handle d e s r).0
  unfolding rotate_state
  rotate_state-IsSound now handle d e none r v f found = delete_entry-IsSound d r v
  rotate_state-IsSound now handle d e (some s) r v f found =
      by_test Sound (valid_state s && same_identity s e.state) _ _
        (λ both.
          rotate_checked-IsSound now handle d e _ r v f found (and_right (valid_state s) _ both))
        (λ _. delete_entry-IsSound d r v)

  pub rotate-IsSound :
      (now : ℕ) (handle : Option String) (c : Claim) (s : Option ContinuationState) (r : Registry)
      → IsSound r
      → IsFresh digest handle r
      → IsSound (rotate digest now handle c s r).0
  unfolding rotate
  rotate-IsSound now handle c s r v f = at_entry (find c.digest r.entries) refl
    where
      at_entry :
          (o : Option Entry)
          → find c.digest r.entries ≡ o
          → IsSound (rotate_found digest now handle c o s r).0
      at_entry none _ = unfold rotate_found in v
      at_entry (some e) found =
          unfold rotate_found rotate_owned in
          by_test Sound (owns c e) _ _
            (λ _.
              by_test Sound (ltb now e.expires_at) _ _
                (λ _. rotate_state-IsSound now handle c.digest e s r v f found)
                (λ _. delete_entry-IsSound c.digest r v))
            (λ _. v)
