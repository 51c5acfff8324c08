-- ===== src/Pagination/Retired.antt =====
-- Claims of pagination/registry.go that no entry answers to any longer: the versions that `owns`
-- compares only grow.
use web_db.Prelude.{
  ℕ, ◌≡◌, ◌≢◌, ◌≤◌, refl, String, List, [], ◌∷◌, Option, none, some, arith, Bool-cases, inl, inr,
  str_eq, ◌∙◌,
}
use web_db.Pagination.State.{ContinuationState}
use web_db.Pagination.Entries.{EntryStatus, in_flight, Entry, EntryMap, find, set_status}
use web_db.Pagination.Quota.{Registry, delete_entry, drop_entry, insert_entry, close}
use web_db.Pagination.Accounting.{VersionsWithin}
use web_db.Pagination.Eviction.{delete_entry-find-some, without-find-some}
use web_db.Pagination.Registry.{Claim, rotate_owned}
use web_db.Pagination.Calls.{Call, after_calls}
use web_db.Pagination.Preserve.{
  IsStable, AnyHandle, any_drawn, any_draw, rotate_owned-keeps, after_calls-keeps,
}

-- No entry has the digest and the version of the claim, and none can get them.
pub record Retired (c : Claim) (r : Registry) : Type 0 where
  pub past : c.version ≤ r.seq
  pub gone : (e : Entry) → find c.digest r.entries ≡ some e → e.version ≢ c.version

pub version_within :
    (n : ℕ) (d : String) (es : EntryMap) (e : Entry)
    → VersionsWithin n es
    → find d es ≡ some e
    → e.version ≤ n
unfolding find
version_within n d [] e v f = absurd (ground arith)
version_within n d ((k, x) ∷ es) e v f = elim (Bool-cases (str_eq k d)) [
  | inl q ↦ (let same : x ≡ e = ground arith in rw⁻¹ same v.0)
  | inr q ↦ version_within n d es e v.1 (rw q at f)
]

pub delete_entry-seq : (d : String) (r : Registry) → (delete_entry d r).seq ≡ r.seq
delete_entry-seq d r = unfold delete_entry in at_entry (find d r.entries)
  where
    at_entry : (o : Option Entry) → (drop_entry d o r).seq ≡ r.seq
    at_entry none = unfold drop_entry in refl
    at_entry (some e) = unfold drop_entry in refl

pub delete_entry-Retired :
    (c : Claim) (d : String) (r : Registry) → Retired c r → Retired c (delete_entry d r)
delete_entry-Retired c d r h = record {
  past = rw (delete_entry-seq d r) h.past;
  gone = λ e f. h.gone e (delete_entry-find-some d c.digest r e f);
}

insert_entry-Retired :
    (c : Claim) (d : String) (s : ContinuationState) (n now : ℕ) (r : Registry)
    → Retired c r
    → Retired c (insert_entry d s n now r)
unfolding insert_entry find
insert_entry-Retired c d s n now r h = record {
  past = omega (arith, h.past);
  gone = λ e f. elim (Bool-cases (str_eq d c.digest)) [
    | inl q ↦ λ same. ground (arith, h.past)
    | inr q ↦ h.gone e (without-find-some d c.digest r.entries e (rw q at f))
  ];
}

set_status-find :
    (d j : String) (status : EntryStatus) (es : EntryMap) (e : Entry)
    → find j (set_status d status es) ≡ some e
    → (x : Entry) × (find j es ≡ some x) × (x.version ≡ e.version)
unfolding set_status find
set_status-find d j status [] e h = absurd (ground arith)
set_status-find d j status ((k, x) ∷ es) e h = elim (Bool-cases (str_eq k j)) [
  | inl q ↦ (x, rw q refl, ground arith)
  | inr q ↦ (let (y, f, same) = set_status-find d j status es e (rw q at h) in (y, rw q f, same))
]

set_status-Retired :
    (c : Claim) (d : String) (status : EntryStatus) (r : Registry)
    → Retired c r
    → Retired c (record r { entries = set_status d status r.entries })
set_status-Retired c d status r h = record {
  past = h.past;
  gone = λ e f.
      (let (x, g, same) = set_status-find d c.digest status r.entries e f in
        λ q. h.gone x g (same ∙ q));
}

Retired-IsStable : (digest : String → String) (c : Claim) → IsStable digest AnyHandle (Retired c)
unfolding close find
Retired-IsStable digest c = record {
  deletes = delete_entry-Retired c;
  flies = λ d r h. set_status-Retired c d in_flight r h;
  inserts = λ t s n now r a h. insert_entry-Retired c (digest t) s n now r h;
  shuts = λ r h. record { past = h.past; gone = λ e f. absurd (ground arith) };
}

module _ (digest : String → String) (c : Claim) where
  pub rotate_owned-Retired :
      (now : ℕ) (handle : Option String) (d : String) (e : Entry) (s : Option ContinuationState)
      (r : Registry)
      → Retired c (delete_entry d r)
      → Retired c (rotate_owned digest now handle d e s r).0
  rotate_owned-Retired now handle d e s r h =
      rotate_owned-keeps digest AnyHandle (Retired c) (Retired-IsStable digest c).inserts now handle
        d e s r (any_drawn handle) h

  pub after_calls-Retired :
      (bs : List Call) (r : Registry) → Retired c r → Retired c (after_calls digest bs r)
  after_calls-Retired bs r h =
      after_calls-keeps digest AnyHandle (Retired c) (Retired-IsStable digest c) bs r (any_draw bs)
        h
