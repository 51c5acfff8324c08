-- ===== src/Pagination/Handles.antt =====
-- The handles of pagination/registry.go over any calls: what they are claimed with, when no longer,
-- and that one claim is all that they are good for.
use web_db.Prelude.{
  ℕ, ◌+◌, ◌≡◌, ◌≤◌, ◌<◌, refl, false, String, List, [], ◌∷◌, Option, none, some, arith, Bool-cases,
  inl, inr, ok, err, ltb, Option-cases, by_test, str_eq, ap, if◌then◌else◌, subst,
}
use web_db.Pagination.State.{ContinuationState}
use web_db.Pagination.Entries.{EntryStatus, in_flight, Entry, EntryMap, find, set_status}
use web_db.Pagination.Quota.{Registry, is_ready}
use web_db.Pagination.Eviction.{delete_entry-find_self}
use web_db.Pagination.Registry.{
  Claim, invalid_page_token, registry_closed, refuse, create, claim, claim_found, revoke,
  revoke_found,
}
use web_db.Pagination.Calls.{Call, after_calls, IsFresh, AllDrawFresh}
use web_db.Pagination.Calls.Writes.{IsSound, create-IsSound}
use web_db.Pagination.Waiting.{AllSpare}
use web_db.Pagination.Waiting.Calls.{after_calls-Waits}
use web_db.Pagination.Created.{create-Created}
use web_db.Pagination.Preserve.{AllDraw}
use web_db.Pagination.Lineage.{EntryIs, EntryIs-of_find, IsOther, after_calls-EntryIs}

find-set_status :
    (d : String) (status : EntryStatus) (es : EntryMap) (e : Entry)
    → find d es ≡ some e
    → find d (set_status d status es) ≡ some (record e { status = status })
unfolding find set_status
find-set_status d status [] e h = absurd (ground arith)
find-set_status d status ((k, x) ∷ es) e h = elim (Bool-cases (str_eq k d)) [
  | inl q ↦ (let same : x ≡ e = ground arith in rw (q, same) refl)
  | inr q ↦ rw q (find-set_status d status es e (rw q at h))
]

-- The claim was given: the handle's entry is in flight.
record Taken (d : String) (r q : Registry) : Type 0 where
  is_open : q.closed ≡ r.closed
  entry : Entry
  held : find d q.entries ≡ some entry
  flying : entry.status ≡ in_flight

claim_found-Taken :
    (d : String) (now : ℕ) (o : Option Entry) (r q : Registry) (c : Claim)
    → find d r.entries ≡ o
    → claim_found d now o r ≡ (q, ok c)
    → Taken d r q
unfolding claim_found
claim_found-Taken d now none r q c f h = absurd (ground arith)
claim_found-Taken d now (some e) r q c f h =
    by_test (λ a. a ≡ (q, ok c) → Taken d r q) (is_ready e.status) _ _
      (λ _.
        by_test (λ a. a ≡ (q, ok c) → Taken d r q) (ltb now e.expires_at) _ _
          (λ _ g.
            (let left : record r { entries = set_status d in_flight r.entries } ≡ q =
                ap (λ a. a.0) g in
              rw⁻¹ left (record {
                is_open = refl;
                entry = _;
                held = find-set_status d in_flight r.entries e f;
                flying = refl;
              })))
          (λ _ g. absurd (ground arith)))
      (λ _ g. absurd (ground arith)) h

-- Claiming the handle and revoking it do nothing.
abbrev pub Refuses : (String → String) → ℕ → String → Registry → Type 0
Refuses digest later handle r =
    (claim digest later handle r
      ≡ refuse r (if r.closed then registry_closed else invalid_page_token))
    × (revoke digest handle r ≡ r)

not_ready-refused :
    (digest : String → String) (later : ℕ) (handle : String) (r : Registry)
    → EntryIs (λ e. is_ready e.status ≡ false) (digest handle) r
    → Refuses digest later handle r
unfolding claim claim_found revoke revoke_found
not_ready-refused digest later handle r h = elim (Option-cases (find (digest handle) r.entries)) [
  | inl f ↦ rw f (ground arith)
  | inr (e, f) ↦ rw (f, h e f) (ground arith)
]

-- A handle is good for one claim. After it is claimed, and after any further calls, as long as none
-- of them draws a handle with the same digest, a second claim of it is refused and revoking it does
-- nothing; both leave the registry as it was.
pub claim-exclusive :
    (digest : String → String) (now later : ℕ) (handle : String) (r q : Registry) (c : Claim)
    → claim digest now handle r ≡ (q, ok c)
    → (bs : List Call) → AllDraw (IsOther digest (digest handle)) bs
    → Refuses digest later handle (after_calls digest bs q)
unfolding claim
claim-exclusive digest now later handle r q c =
    by_test
      (λ a.
        a ≡ (q, ok c)
        → (bs : List Call) → AllDraw (IsOther digest (digest handle)) bs
        → Refuses digest later handle (after_calls digest bs q))
      r.closed _ _ (λ _ h. absurd (ground arith))
      (λ _ h bs a.
        (let k =
            claim_found-Taken (digest handle) now (find (digest handle) r.entries) r q c refl h in
          not_ready-refused digest later handle (after_calls digest bs q) (
            after_calls-EntryIs digest (digest handle) (λ e. is_ready e.status ≡ false)
              (λ e _. refl) bs q a
              (EntryIs-of_find (λ e. is_ready e.status ≡ false) (digest handle) q k.entry k.held
                (rw k.flying refl)))))

-- The claim is refused, and leaves no entry of the handle but one in flight.
abbrev pub TooLate : (String → String) → ℕ → String → Registry → Type 0
TooLate digest later t r =
    ((claim digest later t r).1 ≡ err (if r.closed then registry_closed else invalid_page_token))
    × (r.closed ≡ false
        → (e : Entry) → find (digest t) (claim digest later t r).0.entries ≡ some e
        → e.status ≡ in_flight)

expired-TooLate :
    (digest : String → String) (x later : ℕ) (t : String) (r : Registry)
    → EntryIs (λ e. e.expires_at ≡ x) (digest t) r
    → x ≤ later
    → TooLate digest later t r
unfolding claim claim_found
expired-TooLate digest x later t r h l = elim (Bool-cases r.closed) [
  | inl c ↦ rw c (refl, λ o. absurd (ground arith))
  | inr c ↦ elim (Option-cases (find (digest t) r.entries)) [
    | inl f ↦ rw (c, f) (refl, λ _ e g. absurd (ground arith))
    | inr (e, f) ↦ elim (Bool-cases (is_ready e.status)) [
      | inl is ↦
          (let late : ltb later e.expires_at ≡ false = ground (arith, h e f) in
            rw (c, f, is, late)
              (refl, λ _ x g. absurd (ground (arith, delete_entry-find_self (digest t) r))))
      | inr not_ready ↦ rw (c, f, not_ready) (refl, λ _ x g. ground arith)
    ]
  ]
]

-- A handle that `create` gives in a sound registry can be claimed at any time before its time to
-- live has run out, with the state that was given, after any calls that draw random handles that
-- are not in use and leave its entry alone: none of them claims or revokes a handle with the same
-- digest, evicts, cleans up from that time on, or closes the registry.
pub create-claim_in_time :
    (digest : String → String) (now later : ℕ) (handle : Option String) (s : ContinuationState)
    (r q : Registry) (t : String)
    → IsSound r
    → IsFresh digest handle r
    → create digest now handle (some s) r ≡ (q, ok t)
    → (bs : List Call) → AllDrawFresh digest bs q
    → AllSpare digest (digest t) (now + r.cfg.ttl) bs q
    → later < now + r.cfg.ttl
    → (c : Claim) × ((claim digest later t (after_calls digest bs q)).1 ≡ ok c)
      × (c.digest ≡ digest t)
      × (c.state ≡ record s { expires_at = now + r.cfg.ttl })
unfolding claim claim_found
create-claim_in_time digest now later handle s r q t v f h bs draws p l =
    let k = create-Created digest now handle s r q t h in
    let sound : IsSound q =
      subst IsSound (ap (λ a. a.0) h) (create-IsSound digest now handle (some s) r v f) in
    let w =
      after_calls-Waits (digest t) k.entry (rw k.is_ready_entry refl) digest bs q sound draws
        (rw k.expiry p) (record { is_open = k.is_open; held = k.held }) in
    (
      record { digest = digest t; version = k.entry.version; state = k.entry.state },
      rw (w.is_open, w.held, k.is_ready_entry) (ground (arith, k.expiry)),
      refl,
      k.state,
    )

-- A handle that `create` gives is dead once its time to live has run out. After any calls, as long
-- as none of them draws a handle with the same digest, a claim of it is refused, and if the
-- registry is open, leaves no entry of it behind but one in flight.
pub create-claim_late :
    (digest : String → String) (now later : ℕ) (handle : Option String) (s : ContinuationState)
    (r q : Registry) (t : String)
    → create digest now handle (some s) r ≡ (q, ok t)
    → (bs : List Call) → AllDraw (IsOther digest (digest t)) bs
    → now + r.cfg.ttl ≤ later
    → TooLate digest later t (after_calls digest bs q)
create-claim_late digest now later handle s r q t h bs a l =
    let k = create-Created digest now handle s r q t h in
    expired-TooLate digest (now + r.cfg.ttl) later t (after_calls digest bs q)
      (after_calls-EntryIs digest (digest t) (λ e. e.expires_at ≡ now + r.cfg.ttl) (λ e p. p) bs q a
        (EntryIs-of_find (λ e. e.expires_at ≡ now + r.cfg.ttl) (digest t) q k.entry k.held
          k.expiry))
      l
