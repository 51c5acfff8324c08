-- ===== src/Pagination/Accounting/Tally.antt =====
-- Sums over the entries of the map of pagination/registry.go, and counters that hold them.
use web_db.Prelude.{
  ℕ, ◌+◌, ◌≡◌, refl, ap, inl, inr, String, [], ◌∷◌, none, some, str_eq, eq_iff, if◌then◌else◌,
  arith, Bool-cases, str_ne,
}
use web_db.Pagination.Counters.{Counters, get, increase, decrease, get-increase, get-decrease}
use web_db.Pagination.Entries.{
  EntryStatus, Entry, EntryMap, find, without, set_status, Absent, Distinct,
}

abbrev pub tally : (Entry → ℕ) → EntryMap → ℕ
tally w [] = 0
tally w ((d, e) ∷ es) = w e + tally w es

-- What an entry adds to the counter of the key `k`.
abbrev pub weigh : (Entry → String) → (Entry → ℕ) → String → Entry → ℕ
weigh key amount k e = if str_eq (key e) k then amount e else 0

abbrev pub Counts : Counters → (Entry → String) → (Entry → ℕ) → EntryMap → Type 0
Counts m key amount es = (k : String) → get m k ≡ tally (weigh key amount k) es

pub find-Absent : (d : String) (es : EntryMap) → find d es ≡ none → Absent d es
unfolding find
find-Absent d [] h = tt
find-Absent d ((k, e) ∷ es) h = elim (Bool-cases (str_eq k d)) [
  | inl q ↦ absurd (ground arith)
  | inr q ↦ (str_ne k d q, find-Absent d es (rw q at h))
]

without-Absent : (d : String) (es : EntryMap) → Absent d es → without d es ≡ es
unfolding without
without-Absent d [] h = refl
without-Absent d ((k, e) ∷ es) h = ground (arith, without-Absent d es h.1, eq_iff k d)

Absent-without : (d j : String) (es : EntryMap) → Absent j es → Absent j (without d es)
unfolding without
Absent-without d j [] h = tt
Absent-without d j ((k, e) ∷ es) h = ground (arith, Absent-without d j es h.1)

pub Absent-without_self : (d : String) (es : EntryMap) → Absent d (without d es)
unfolding without
Absent-without_self d [] = tt
Absent-without_self d ((k, e) ∷ es) = ground (arith, Absent-without_self d es, eq_iff k d)

pub Distinct-without : (d : String) (es : EntryMap) → Distinct es → Distinct (without d es)
unfolding without
Distinct-without d [] h = tt
Distinct-without d ((k, e) ∷ es) h =
    ground (arith, Distinct-without d es h.1, Absent-without d k es h.0)

pub tally-without :
    (w : Entry → ℕ) (d : String) (es : EntryMap) (e : Entry)
    → Distinct es
    → find d es ≡ some e
    → tally w (without d es) + w e ≡ tally w es
unfolding find without
tally-without w d [] e h f = absurd (ground arith)
tally-without w d ((k, x) ∷ es) e h f = elim (Bool-cases (str_eq k d)) [
  | inl q ↦
      (let same : k ≡ d = (eq_iff k d).0 q in
        let gone : without d es ≡ es = without-Absent d es (rw same at h.0) in ground (arith, gone))
  | inr q ↦ rw q (omega (arith, tally-without w d es e h.1 (rw q at f)))
]

pub tally-absent :
    (w : Entry → ℕ) (d : String) (es : EntryMap)
    → find d es ≡ none
    → tally w (without d es) ≡ tally w es
tally-absent w d es h = ap (tally w) (without-Absent d es (find-Absent d es h))

pub tally-set_status :
    (w : Entry → ℕ) (d : String) (status : EntryStatus) (es : EntryMap)
    → ((e : Entry) → w (record e { status = status }) ≡ w e)
    → tally w (set_status d status es) ≡ tally w es
unfolding set_status
tally-set_status w d status [] same = refl
tally-set_status w d status ((k, e) ∷ es) same =
    ground (arith, same e, tally-set_status w d status es same)

module _ (key : Entry → String) (amount : Entry → ℕ) (m : Counters) (es : EntryMap)
    (c : Counts m key amount es) where
  pub Counts-without :
      (d : String) (e : Entry)
      → Distinct es
      → find d es ≡ some e
      → Counts (decrease m (key e) (amount e)) key amount (without d es)
  Counts-without d e h f k = elim (Bool-cases (str_eq (key e) k)) [
    | inl q ↦
        (let same : key e ≡ k = (eq_iff (key e) k).0 q in
          ground (
            arith,
            get-decrease m (key e) k (amount e),
            c k,
            tally-without (weigh key amount k) d es e h f,
          ))
    | inr q ↦ ground (
      arith,
      get-decrease m (key e) k (amount e),
      c k,
      tally-without (weigh key amount k) d es e h f,
    )
  ]

  pub Counts-insert :
      (d : String) (e : Entry)
      → find d es ≡ none
      → Counts (increase m (key e) (amount e)) key amount ((d, e) ∷ without d es)
  Counts-insert d e f k = elim (Bool-cases (str_eq (key e) k)) [
    | inl q ↦
        (let same : key e ≡ k = (eq_iff (key e) k).0 q in
          ground (
            arith,
            get-increase m (key e) k (amount e),
            c k,
            tally-absent (weigh key amount k) d es f,
          ))
    | inr q ↦
        ground (
          arith,
          get-increase m (key e) k (amount e),
          c k,
          tally-absent (weigh key amount k) d es f,
        )
  ]
