-- ===== src/Pagination/Created.antt =====
-- What `Create` of pagination/registry.go leaves where it gives a handle.
use web_db.Prelude.{
  ℕ, zero, suc, ◌+◌, ◌≡◌, refl, Bool, true, false, String, Option, none, some, arith, Bool-cases,
  inl, inr, ok, ltb, Option-cases, by_test, ◌∙◌, ap, length, str_eq_refl,
}
use web_db.Pagination.State.{ContinuationState, state_bytes, valid_state}
use web_db.Pagination.Entries.{ready, Entry, find}
use web_db.Pagination.Quota.{
  Registry, delete_entry, drop_entry, insert_entry, evict_for_quota, evict_loop, has_room,
  pick_evictable,
}
use web_db.Pagination.Registry.{create, create_valid, create_evicted}

-- `create` gave the handle: the registry is open, and the handle's entry holds the state, ready,
-- to expire `ttl` after the creation.
pub record Created (digest : String → String) (now : ℕ) (s : ContinuationState) (r : Registry)
    (t : String) (q : Registry) : Type 0 where
  pub is_open : q.closed ≡ false
  pub entry : Entry
  pub held : find (digest t) q.entries ≡ some entry
  pub is_ready_entry : entry.status ≡ ready
  pub expiry : entry.expires_at ≡ now + r.cfg.ttl
  pub state : entry.state ≡ record s { expires_at = now + r.cfg.ttl }

pub delete_entry-closed : (d : String) (r : Registry) → (delete_entry d r).closed ≡ r.closed
delete_entry-closed d r = unfold delete_entry in at_entry (find d r.entries)
  where
    at_entry : (o : Option Entry) → (drop_entry d o r).closed ≡ r.closed
    at_entry none = unfold drop_entry in refl
    at_entry (some e) = unfold drop_entry in refl

evict_loop-closed :
    (fuel : ℕ) (s : ContinuationState) (n : ℕ) (r : Registry)
    → (evict_loop fuel s n r).0.closed ≡ r.closed
unfolding evict_loop
evict_loop-closed zero s n r = refl
evict_loop-closed (suc fuel) s n r = elim (Bool-cases (has_room s n r)) [
  | inl e ↦ rw e refl
  | inr e ↦ elim (Option-cases (pick_evictable s n r)) [
    | inl f ↦ rw (e, f) refl
    | inr ((d, t), f) ↦
        rw (e, f) (evict_loop-closed fuel s n (delete_entry d r) ∙ delete_entry-closed d r)
  ]
]

pub evict_for_quota-closed :
    (s : ContinuationState) (n : ℕ) (r : Registry) → (evict_for_quota s n r).0.closed ≡ r.closed
unfolding evict_for_quota
evict_for_quota-closed s n r = evict_loop-closed (suc (length r.entries)) s n r

-- The entry that an insertion puts there.
pub find-insert_entry :
    (d : String) (s : ContinuationState) (n now : ℕ) (r : Registry)
    → find d (insert_entry d s n now r).entries
      ≡ some (record {
        state = s;
        status = ready;
        version = r.seq + 1;
        bytes = n;
        expires_at = s.expires_at;
        created_at = now;
      })
unfolding insert_entry find
find-insert_entry d s n now r = rw (str_eq_refl d) refl

create_evicted-Created :
    (digest : String → String) (now : ℕ) (handle : Option String) (s : ContinuationState) (n : ℕ)
    (r p : Registry) (done : Bool) (q : Registry) (t : String)
    → p.closed ≡ false
    → create_evicted digest now handle (record s { expires_at = now + r.cfg.ttl }) n (p, done)
      ≡ (q, ok t)
    → Created digest now s r t q
unfolding create_evicted insert_entry
create_evicted-Created digest now handle s n r p false q t c h = absurd (ground arith)
create_evicted-Created digest now none s n r p true q t c h = absurd (ground arith)
create_evicted-Created digest now (some j) s n r p true q t c h =
    let x : ContinuationState = record s { expires_at = now + r.cfg.ttl } in
    let left : insert_entry (digest j) x n now p ≡ q = ap (λ a. a.0) h in
    let same : j ≡ t = ground arith in
    rw⁻¹ (left, same)
      (record {
        is_open = c;
        entry = _;
        held = find-insert_entry (digest j) x n now p;
        is_ready_entry = refl;
        expiry = refl;
        state = refl;
      })

create_valid-Created :
    (digest : String → String) (now : ℕ) (handle : Option String) (s : ContinuationState)
    (r q : Registry) (t : String)
    → r.closed ≡ false
    → create_valid digest now handle (record s { expires_at = now + r.cfg.ttl }) r ≡ (q, ok t)
    → Created digest now s r t q
unfolding create_valid
create_valid-Created digest now handle s r q t c =
    let x : ContinuationState = record s { expires_at = now + r.cfg.ttl } in
    let p : Registry × Bool = evict_for_quota x (state_bytes x) r in
    by_test (λ a. a ≡ (q, ok t) → Created digest now s r t q)
      (ltb r.cfg.max_state_bytes (state_bytes x)) _ _ (λ _ h. absurd (ground arith))
      (λ _ h.
        create_evicted-Created digest now handle s (state_bytes x) r p.0 p.1 q t
          (evict_for_quota-closed x (state_bytes x) r ∙ c) h)

pub create-Created :
    (digest : String → String) (now : ℕ) (handle : Option String) (s : ContinuationState)
    (r q : Registry) (t : String)
    → create digest now handle (some s) r ≡ (q, ok t)
    → Created digest now s r t q
unfolding create
create-Created digest now handle s r q t =
    by_test (λ a. a ≡ (q, ok t) → Created digest now s r t q) r.closed _ _
      (λ _ h. absurd (ground arith))
      (λ c.
        by_test (λ a. a ≡ (q, ok t) → Created digest now s r t q) (valid_state s) _ _
          (λ _ h. create_valid-Created digest now handle s r q t c h)
          (λ _ h. absurd (ground arith)))
