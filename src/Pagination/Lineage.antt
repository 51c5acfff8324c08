-- ===== src/Pagination/Lineage.antt =====
-- What stays true, over any calls, of the entry that pagination/registry.go keeps under a digest,
-- where no call draws a handle with that digest again.
use web_db.Prelude.{
  ◌≡◌, ◌≢◌, ◌⊎◌, refl, String, List, [], ◌∷◌, some, arith, Bool-cases, inl, inr, str_eq, eq_iff,
}
use web_db.Pagination.Entries.{EntryStatus, in_flight, Entry, EntryMap, find, set_status}
use web_db.Pagination.Quota.{Registry, insert_entry, close}
use web_db.Pagination.Eviction.{delete_entry-find-some, without-find-some}
use web_db.Pagination.Calls.{Call, after_calls}
use web_db.Pagination.Preserve.{IsStable, AllDraw, after_calls-keeps}

abbrev pub EntryIs : (Entry → Type 0) → String → Registry → Type 0
EntryIs P d r = (e : Entry) → find d r.entries ≡ some e → P e

pub EntryIs-of_find :
    (P : Entry → Type 0) (d : String) (r : Registry) (x : Entry)
    → find d r.entries ≡ some x
    → P x
    → EntryIs P d r
EntryIs-of_find P d r x f p e g = let same : x ≡ e = ground arith in rw⁻¹ same p

-- The handle has another digest.
abbrev pub IsOther : (String → String) → String → String → Type 0
IsOther digest d t = digest t ≢ d

set_status-found :
    (d j : String) (status : EntryStatus) (es : EntryMap) (e : Entry)
    → find j (set_status d status es) ≡ some e
    → (x : Entry) × (find j es ≡ some x) × ((x ≡ e) ⊎ (record x { status = status } ≡ e))
unfolding set_status find
set_status-found d j status [] e h = absurd (ground arith)
set_status-found d j status ((k, x) ∷ es) e h = elim (Bool-cases (str_eq k j)) [
  | inl q ↦ elim (Bool-cases (str_eq k d)) [
    | inl same ↦ (x, rw q refl, inr (ground arith))
    | inr other ↦ (x, rw q refl, inl (ground arith))
  ]
  | inr q ↦ (let (y, f, kind) = set_status-found d j status es e (rw q at h) in (y, rw q f, kind))
]

module _ (digest : String → String) (d : String) (P : Entry → Type 0)
    (flies : (e : Entry) → P e → P (record e { status = in_flight })) where
  EntryIs-IsStable : IsStable digest (IsOther digest d) (EntryIs P d)
  unfolding insert_entry close find
  EntryIs-IsStable = record {
    deletes = λ j r h e f. h e (delete_entry-find-some j d r e f);
    flies = λ j r h e f.
        (let (x, g, kind) = set_status-found j d in_flight r.entries e f in
          elim kind [ inl same ↦ rw⁻¹ same (h x g) | inr flown ↦ rw⁻¹ flown (flies x (h x g)) ]);
    inserts = λ t s n now r other h e f. elim (Bool-cases (str_eq (digest t) d)) [
      | inl q ↦ absurd (other (ground (arith, eq_iff (digest t) d)))
      | inr q ↦ h e (without-find-some (digest t) d r.entries e (rw q at f))
    ];
    shuts = λ r h e f. absurd (ground arith);
  }

  pub after_calls-EntryIs :
      (bs : List Call) (r : Registry)
      → AllDraw (IsOther digest d) bs
      → EntryIs P d r
      → EntryIs P d (after_calls digest bs r)
  after_calls-EntryIs bs r a h =
      after_calls-keeps digest (IsOther digest d) (EntryIs P d) EntryIs-IsStable bs r a h
