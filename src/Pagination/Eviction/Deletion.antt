-- ===== src/Pagination/Eviction/Deletion.antt =====
-- What a deletion in pagination/registry.go leaves in the map of entries.
use web_db.Prelude.{
  ◌≡◌, ◌≢◌, refl, sym, ◌∙◌, inl, inr, String, [], ◌∷◌, Option, none, some, str_eq, eq_iff, arith,
  Bool-cases, str_ne,
}
use web_db.Pagination.Entries.{Entry, EntryMap, find, without, Absent}
use web_db.Pagination.Quota.{Registry, delete_entry, drop_entry}
use web_db.Pagination.Accounting.{Absent-without_self}

pub find-without_ne : (d j : String) (es : EntryMap) → d ≢ j → find j (without d es) ≡ find j es
unfolding find without
find-without_ne d j [] h = refl
find-without_ne d j ((k, e) ∷ es) h =
    ground (arith, find-without_ne d j es h, eq_iff k d, eq_iff k j)

pub find-Absent_of : (d : String) (es : EntryMap) → Absent d es → find d es ≡ none
unfolding find
find-Absent_of d [] a = refl
find-Absent_of d ((k, e) ∷ es) a = ground (arith, find-Absent_of d es a.1, eq_iff k d)

pub find-without_none :
    (d j : String) (es : EntryMap) → find j es ≡ none → find j (without d es) ≡ none
find-without_none d j es h = elim (Bool-cases (str_eq d j)) [
  | inl q ↦
      (let same : d ≡ j = (eq_iff d j).0 q in
        rw same (find-Absent_of j (without j es) (Absent-without_self j es)))
  | inr q ↦ find-without_ne d j es (str_ne d j q) ∙ h
]

-- After a deletion the digest is gone, and no other has come.
pub delete_entry-find_none :
    (d j : String) (r : Registry)
    → find j r.entries ≡ none
    → find j (delete_entry d r).entries ≡ none
delete_entry-find_none d j r h = unfold delete_entry in at_entry (find d r.entries)
  where
    at_entry : (o : Option Entry) → find j (drop_entry d o r).entries ≡ none
    at_entry none = unfold drop_entry in h
    at_entry (some e) = unfold drop_entry in find-without_none d j r.entries h

pub delete_entry-find_self : (d : String) (r : Registry) → find d (delete_entry d r).entries ≡ none
delete_entry-find_self d r = unfold delete_entry in at_entry (find d r.entries) refl
  where
    at_entry : (o : Option Entry) → find d r.entries ≡ o → find d (drop_entry d o r).entries ≡ none
    at_entry none f = unfold drop_entry in f
    at_entry (some e) f =
        unfold drop_entry in
        find-Absent_of d (without d r.entries) (Absent-without_self d r.entries)

pub delete_entry-entries :
    (d : String) (r : Registry) (e : Entry)
    → find d r.entries ≡ some e
    → (delete_entry d r).entries ≡ without d r.entries
unfolding delete_entry
delete_entry-entries d r e h = rw (h, drop_entry)

-- A deletion brings no entry.
pub without-find-some :
    (d j : String) (es : EntryMap) (e : Entry) → find j (without d es) ≡ some e → find j es ≡ some e
without-find-some d j es e h = elim (Bool-cases (str_eq d j)) [
  | inl q ↦
      (let same : d ≡ j = (eq_iff d j).0 q in
        absurd (
          ground (arith, find-Absent_of j (without j es) (Absent-without_self j es), rw same at h)))
  | inr q ↦ sym (find-without_ne d j es (str_ne d j q)) ∙ h
]

drop_entry-find-some :
    (d j : String) (o : Option Entry) (r : Registry) (e : Entry)
    → find j (drop_entry d o r).entries ≡ some e
    → find j r.entries ≡ some e
unfolding drop_entry
drop_entry-find-some d j none r e h = h
drop_entry-find-some d j (some x) r e h = without-find-some d j r.entries e h

pub delete_entry-find-some :
    (d j : String) (r : Registry) (e : Entry)
    → find j (delete_entry d r).entries ≡ some e
    → find j r.entries ≡ some e
unfolding delete_entry
delete_entry-find-some d j r e h = drop_entry-find-some d j (find d r.entries) r e h
