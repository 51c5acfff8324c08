-- ===== src/Pagination/Eviction.antt =====
-- The eviction of pagination/registry.go (`evictForQuota`, `pickEvictable`).
mod Deletion
pub use Deletion.*
use web_db.Prelude.{
  ℕ, zero, suc, ◌≡◌, ◌≢◌, ◌<◌, refl, ◌∙◌, ◌⊎◌, inl, inr, Bool, true, false, ◌&&◌, String, [], ◌∷◌,
  Option, none, some, str_eq, eq_iff, arith, length, Bool-cases, Option-cases, In, ltb,
}
use web_db.Pagination.State.{ContinuationState}
use web_db.Pagination.Entries.{ready, in_flight, Entry, EntryMap, find, Absent, Distinct}
use web_db.Pagination.Quota.{
  Registry, delete_entry, has_room, may_pick, pick, pick_from, pick_evictable, evict_loop,
  evict_for_quota, is_ready,
}
use web_db.Pagination.Accounting.{tally, one, tally-without, IsAccounted, delete_entry-IsAccounted}

not_in-Absent : (d : String) (e : Entry) (es : EntryMap) → Absent d es → In (d, e) es → ⊥
not_in-Absent d e [] a i = i
not_in-Absent d e ((k, x) ∷ es) a (inl q) = a.0 (ground arith)
not_in-Absent d e ((k, x) ∷ es) a (inr i) = not_in-Absent d e es a.1 i

find_of_In :
    (d : String) (e : Entry) (es : EntryMap) → Distinct es → In (d, e) es → find d es ≡ some e
unfolding find
find_of_In d e [] h i = absurd i
find_of_In d e ((k, x) ∷ es) h (inl q) = ground (arith, eq_iff k d)
find_of_In d e ((k, x) ∷ es) h (inr i) = elim (Bool-cases (str_eq k d)) [
  | inl q ↦
      (let same : k ≡ d = (eq_iff k d).0 q in absurd (not_in-Absent d e es (rw same at h.0) i))
  | inr q ↦ rw q (find_of_In d e es h.1 i)
]

-- What the search returns is the candidate that it began with, or an entry that it may pick.
record Picked (allowed : Entry → Bool) (es : EntryMap) (d : String) : Type 0 where
  entry : Entry
  held : In (d, entry) es
  is_allowed : allowed entry ≡ true
  is_ready_entry : entry.status ≡ ready

skip-Picked :
    (allowed : Entry → Bool) (x : String × Entry) (es : EntryMap) (d : String)
    → Picked allowed es d
    → Picked allowed (x ∷ es) d
skip-Picked allowed x es d p = record {
  entry = p.entry;
  held = inr p.held;
  is_allowed = p.is_allowed;
  is_ready_entry = p.is_ready_entry;
}

pick-cases :
    (best : Option (String × ℕ)) (k : String) (e : Entry) (d : String) (b : ℕ)
    → pick best k e ≡ some (d, b)
    → ((b' : ℕ) × (best ≡ some (d, b'))) ⊎ (k ≡ d)
unfolding pick
pick-cases none k e d b h = inr (ground arith)
pick-cases (some (j, t)) k e d b h = elim (Bool-cases (ltb e.expires_at t)) [
  | inl lt ↦ inr (ground arith)
  | inr ge ↦ inl (t, ground arith)
]

pick_from-Picked :
    (allowed : Entry → Bool) (best : Option (String × ℕ)) (es : EntryMap) (d : String) (t : ℕ)
    → pick_from allowed best es ≡ some (d, t)
    → ((b : ℕ) × (best ≡ some (d, b))) ⊎ Picked allowed es d
unfolding pick_from
pick_from-Picked allowed best [] d t h = inl (t, h)
pick_from-Picked allowed best ((k, e) ∷ es) d t h =
    elim (Bool-cases (allowed e && is_ready e.status)) [
      | inl ok_entry ↦ elim (pick_from-Picked allowed (pick best k e) es d t (rw ok_entry at h)) [
        | inl (b, q) ↦ (elim (pick-cases best k e d b q) [
          | inl before ↦ inl before
          | inr same ↦ inr (record {
            entry = e;
            held = inl (ground arith);
            is_allowed = ground arith;
            is_ready_entry = ground arith;
          })
        ])
        | inr p ↦ inr (skip-Picked allowed (k, e) es d p)
      ]
      | inr not_entry ↦ elim (pick_from-Picked allowed best es d t (rw not_entry at h)) [
        | inl q ↦ inl q
        | inr p ↦ inr (skip-Picked allowed (k, e) es d p)
      ]
    ]

-- The search returns the digest of a ready entry that it may pick.
pick_evictable-Picked :
    (s : ContinuationState) (n : ℕ) (r : Registry) (d : String) (t : ℕ)
    → pick_evictable s n r ≡ some (d, t)
    → Picked (may_pick s n r) r.entries d
unfolding pick_evictable
pick_evictable-Picked s n r d t h = elim (pick_from-Picked (may_pick s n r) none r.entries d t h) [
  | inl (b, q) ↦ absurd (ground arith)
  | inr p ↦ p
]

-- Every in-flight entry of `r` stands unchanged in `q`.
abbrev pub KeepsInFlight : Registry → Registry → Type 0
KeepsInFlight r q =
    (d : String) (e : Entry)
    → find d r.entries ≡ some e
    → e.status ≡ in_flight
    → find d q.entries ≡ some e

delete_ready-KeepsInFlight :
    (d : String) (r : Registry) (x : Entry)
    → find d r.entries ≡ some x
    → x.status ≡ ready
    → KeepsInFlight r (delete_entry d r)
delete_ready-KeepsInFlight d r x f is_ready_x j e g flying =
    rw (delete_entry-entries d r x f) (find-without_ne d j r.entries other ∙ g)
  where
    other : d ≢ j
    other q = absurd (ground arith)

-- A round of the eviction loop deletes a ready entry.
pub evict_round :
    (s : ContinuationState) (n : ℕ) (r : Registry) (d : String) (t : ℕ)
    → IsAccounted r
    → pick_evictable s n r ≡ some (d, t)
    → (e : Entry) × (find d r.entries ≡ some e) × (e.status ≡ ready)
evict_round s n r d t v h =
    let p = pick_evictable-Picked s n r d t h in
    (p.entry, find_of_In d p.entry r.entries v.distinct p.held, p.is_ready_entry)

-- What the loop leaves: the counters still add up, in-flight entries stand, and the loop ended by
-- its own tests.
pub record Evicted (s : ContinuationState) (n : ℕ) (r q : Registry) (done : Bool) : Type 0 where
  pub accounted : IsAccounted q
  pub keeps : KeepsInFlight r q
  pub adds_none : (d : String) → find d r.entries ≡ none → find d q.entries ≡ none
  pub roomy : done ≡ true → has_room s n q ≡ true
  pub stuck : done ≡ false → (has_room s n q ≡ false) × (pick_evictable s n q ≡ none)

evict_loop-Evicted :
    (fuel : ℕ) (s : ContinuationState) (n : ℕ) (r : Registry)
    → IsAccounted r
    → tally one r.entries < fuel
    → Evicted s n r (evict_loop fuel s n r).0 (evict_loop fuel s n r).1
unfolding evict_loop
evict_loop-Evicted zero s n r v l = absurd (omega arith)
evict_loop-Evicted (suc fuel) s n r v l = elim (Bool-cases (has_room s n r)) [
  | inl room ↦ rw room (record {
    accounted = v;
    keeps = λ d e f g. f;
    adds_none = λ d f. f;
    roomy = λ _. room;
    stuck = λ q. absurd (ground arith);
  })
  | inr full ↦ elim (Option-cases (pick_evictable s n r)) [
    | inl nothing ↦
        rw (full, nothing)
          (record {
            accounted = v;
            keeps = λ d e f g. f;
            adds_none = λ d f. f;
            roomy = λ q. absurd (ground arith);
            stuck = λ _. (full, nothing);
          })
    | inr ((d, t), found) ↦
        (let (x, f, is_ready_x) = evict_round s n r d t v found in
          let next =
            evict_loop-Evicted fuel s n (delete_entry d r) (delete_entry-IsAccounted d r v) (
              rw (delete_entry-entries d r x f)
                (omega (arith, tally-without one d r.entries x v.distinct f))) in
          rw (full, found)
            (record {
              accounted = next.accounted;
              keeps = λ j e g flying.
                  next.keeps j e (delete_ready-KeepsInFlight d r x f is_ready_x j e g flying)
                    flying;
              adds_none = λ j g. next.adds_none j (delete_entry-find_none d j r g);
              roomy = next.roomy;
              stuck = next.stuck;
            }))
  ]
]

length-tally : (es : EntryMap) → tally one es ≡ length es
length-tally [] = refl
length-tally (x ∷ es) = omega (arith, length-tally es)

pub evict_for_quota-Evicted :
    (s : ContinuationState) (n : ℕ) (r : Registry)
    → IsAccounted r
    → Evicted s n r (evict_for_quota s n r).0 (evict_for_quota s n r).1
unfolding evict_for_quota
evict_for_quota-Evicted s n r v =
    evict_loop-Evicted (suc (length r.entries)) s n r v (omega (arith, length-tally r.entries))

-- From counters that are exact, eviction ends by its own tests, never for want of rounds: with
-- success there is room for the new entry, and without it there is none and nothing is left to
-- evict.
pub evict_for_quota-ends :
    (s : ContinuationState) (n : ℕ) (r : Registry)
    → IsAccounted r
    → (((evict_for_quota s n r).1 ≡ true) × (has_room s n (evict_for_quota s n r).0 ≡ true))
      ⊎ (((evict_for_quota s n r).1 ≡ false)
          × (has_room s n (evict_for_quota s n r).0 ≡ false)
          × (pick_evictable s n (evict_for_quota s n r).0 ≡ none))
evict_for_quota-ends s n r v =
    let e = evict_for_quota-Evicted s n r v in
    elim (Bool-cases (evict_for_quota s n r).1) [
      | inl done ↦ inl (done, e.roomy done)
      | inr failed ↦ inr (failed, (e.stuck failed).0, (e.stuck failed).1)
    ]

-- From counters that are exact, eviction leaves every entry in flight as it is.
pub evict_for_quota-keeps :
    (s : ContinuationState) (n : ℕ) (r : Registry) (d : String) (e : Entry)
    → IsAccounted r
    → find d r.entries ≡ some e
    → e.status ≡ in_flight
    → find d (evict_for_quota s n r).0.entries ≡ some e
evict_for_quota-keeps s n r d e v f flying = (evict_for_quota-Evicted s n r v).keeps d e f flying
