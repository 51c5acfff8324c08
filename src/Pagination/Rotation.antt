-- ===== src/Pagination/Rotation.antt =====
-- A rotation in pagination/registry.go that succeeds: the lifetime and the identity that it hands on.
use web_db.Prelude.{
  ℕ, ◌+◌, ◌≡◌, ◌≢◌, ◌<◌, refl, sym, true, String, Option, none, some, arith, Bool-cases, inl, inr,
  ok, ltb, ltb→lt, ◌&&◌, by_test, and_right, ◌∙◌, ap, str_eq_ne, str_ne, eq_iff, str_eq, ◌⊎◌,
}
use web_db.Pagination.State.{ContinuationState, state_bytes, valid_state}
use web_db.Pagination.Entries.{ready, Entry, find}
use web_db.Pagination.Quota.{Registry, delete_entry, insert_entry}
use web_db.Pagination.Eviction.{delete_entry-find_self, find-without_none}
use web_db.Pagination.Created.{find-insert_entry}
use web_db.Pagination.Retired.{delete_entry-seq}
use web_db.Pagination.Registry.{
  Claim, rotate, rotate_found, rotate_owned, rotate_state, rotate_checked, rotate_write, owns,
  same_identity, fits_bytes,
}

-- The entry of the new state, in the old one's lifetime.
abbrev pub rotated_entry : ℕ → ContinuationState → Entry → ℕ → Entry
rotated_entry now s e seq = record {
  state = record s { expires_at = e.expires_at };
  status = ready;
  version = seq + 1;
  bytes = state_bytes (record s { expires_at = e.expires_at });
  expires_at = e.expires_at;
  created_at = now;
}

pub record Replaced (digest : String → String) (now : ℕ) (d : String) (e : Entry)
    (s : ContinuationState) (r : Registry) (t : String) (q : Registry) : Type 0 where
  pub held : find (digest t) q.entries ≡ some (rotated_entry now s e r.seq)
  pub gone : (d ≡ digest t) ⊎ (find d q.entries ≡ none)

pub record Rotated (digest : String → String) (now : ℕ) (c : Claim) (s : ContinuationState)
    (r : Registry) (t : String) (q : Registry) : Type 0 where
  pub old : Entry
  pub was_held : find c.digest r.entries ≡ some old
  pub was_owned : owns c old ≡ true
  pub in_time : now < old.expires_at
  pub same : same_identity s old.state ≡ true
  pub replaced : Replaced digest now c.digest old s r t q

-- A digest that is not inserted is found as before.
insert_entry-find_none :
    (d j : String) (s : ContinuationState) (n now : ℕ) (r : Registry)
    → j ≢ d
    → find j r.entries ≡ none
    → find j (insert_entry d s n now r).entries ≡ none
unfolding insert_entry find
insert_entry-find_none d j s n now r ne f =
    rw (str_eq_ne d j (λ q. ne (sym q))) (find-without_none d j r.entries f)

old_gone :
    (d j : String) (s : ContinuationState) (now : ℕ) (r : Registry)
    → (d ≡ j) ⊎ (find d (insert_entry j s (state_bytes s) now (delete_entry d r)).entries ≡ none)
old_gone d j s now r = elim (Bool-cases (str_eq d j)) [
  | inl q ↦ inl ((eq_iff d j).0 q)
  | inr q ↦ inr (
      insert_entry-find_none j d s (state_bytes s) now (delete_entry d r) (str_ne d j q)
        (delete_entry-find_self d r))
]

rotate_write-Replaced :
    (digest : String → String) (now : ℕ) (handle : Option String) (d : String) (e : Entry)
    (s : ContinuationState) (r q : Registry) (t : String)
    → rotate_write digest now handle d (record s { expires_at = e.expires_at }) r ≡ (q, ok t)
    → Replaced digest now d e s r t q
unfolding rotate_write
rotate_write-Replaced digest now none d e s r q t h = absurd (ground arith)
rotate_write-Replaced digest now (some j) d e s r q t h =
    let x : ContinuationState = record s { expires_at = e.expires_at } in
    let left : insert_entry (digest j) x (state_bytes x) now (delete_entry d r) ≡ q =
      ap (λ a. a.0) h in
    let same : j ≡ t = ground arith in
    rw⁻¹ (left, same)
      (record {
        held =
            find-insert_entry (digest j) x (state_bytes x) now (delete_entry d r)
            ∙ ap (λ v. some (rotated_entry now s e v)) (delete_entry-seq d r);
        gone = old_gone d (digest j) x now r;
      })

module _ (digest : String → String) (now : ℕ) (handle : Option String) (s : ContinuationState)
    (r q : Registry) (t : String) where
  rotate_checked-Replaced :
      (d : String) (e : Entry)
      → rotate_checked digest now handle d e (record s { expires_at = e.expires_at }) r ≡ (q, ok t)
      → Replaced digest now d e s r t q
  unfolding rotate_checked
  rotate_checked-Replaced d e =
      let x : ContinuationState = record s { expires_at = e.expires_at } in
      by_test (λ a. a ≡ (q, ok t) → Replaced digest now d e s r t q)
        (ltb r.cfg.max_state_bytes (state_bytes x)) _ _ (λ _ h. absurd (ground arith))
        (λ _.
          by_test (λ a. a ≡ (q, ok t) → Replaced digest now d e s r t q)
            (fits_bytes x (state_bytes x) e.bytes r) _ _
            (λ _ h. rotate_write-Replaced digest now handle d e s r q t h)
            (λ _ h. absurd (ground arith)))

  rotate_owned-Replaced :
      (d : String) (e : Entry)
      → rotate_owned digest now handle d e (some s) r ≡ (q, ok t)
      → (now < e.expires_at) × (same_identity s e.state ≡ true) × Replaced digest now d e s r t q
  unfolding rotate_owned rotate_state
  rotate_owned-Replaced d e =
      by_test
        (λ a.
          a ≡ (q, ok t)
          → (now < e.expires_at)
            × (same_identity s e.state ≡ true)
            × Replaced digest now d e s r t q)
        (ltb now e.expires_at) _ _
        (λ live.
          by_test
            (λ a.
              a ≡ (q, ok t)
              → (now < e.expires_at)
                × (same_identity s e.state ≡ true)
                × Replaced digest now d e s r t q)
            (valid_state s && same_identity s e.state) _ _
            (λ both h. (
              ltb→lt now e.expires_at live,
              and_right (valid_state s) _ both,
              rotate_checked-Replaced d e h,
            ))
            (λ _ h. absurd (ground arith)))
        (λ _ h. absurd (ground arith))

  rotate_found-Rotated :
      (c : Claim) (o : Option Entry)
      → find c.digest r.entries ≡ o
      → rotate_found digest now handle c o (some s) r ≡ (q, ok t)
      → Rotated digest now c s r t q
  unfolding rotate_found
  rotate_found-Rotated c none f h = absurd (ground arith)
  rotate_found-Rotated c (some e) f h =
      by_test (λ a. a ≡ (q, ok t) → Rotated digest now c s r t q) (owns c e) _ _
        (λ own g.
          (let (live, same, new) = rotate_owned-Replaced c.digest e g in
            record {
              old = e;
              was_held = f;
              was_owned = own;
              in_time = live;
              same = same;
              replaced = new;
            }))
        (λ _ g. absurd (ground arith)) h

-- A rotation that succeeds was asked for by the claim that owns an entry in flight, before the
-- entry expired and for the same user, workspace and connection. The new handle's entry is ready,
-- with the new state, the next version and the old entry's expiry, which a rotation never puts
-- off; the old digest, unless the new handle has it, is gone.
pub rotate-Rotated :
    (digest : String → String) (now : ℕ) (handle : Option String) (s : ContinuationState)
    (r q : Registry) (t : String) (c : Claim)
    → rotate digest now handle c (some s) r ≡ (q, ok t)
    → Rotated digest now c s r t q
unfolding rotate
rotate-Rotated digest now handle s r q t c h =
    rotate_found-Rotated digest now handle s r q t c (find c.digest r.entries) refl h
