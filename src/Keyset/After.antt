-- ===== src/Keyset/After.antt =====
-- The condition of adapter/keyset.go against the order of rows.
use web_db.Prelude.{
  ℕ, ◌≡◌, refl, Bool, true, false, List, [], ◌∷◌, ◌++◌, map, Option, none, some, ltb, ◌==◌, ◌||◌,
  ◌&&◌, if◌then◌else◌, arith,
}
use web_db.QueryPlan.Plan.{SortSpec}
use web_db.Keyset.Build.{
  either, both, key_spec, Last, Argument, Condition, strictly_after, level_with, own_arguments,
  level_arguments, build_after,
}
use web_db.Keyset.Rows.{Row, Truth, or_truth, and_truth, evaluate, keeps}

-- Where a value stands to the last one in the order of a sort column.
pub data Place : Type 0 where
  before level after : Place

abbrev pub by_value : Bool → ℕ → ℕ → Place
by_value asc a b =
    if a == b
    then level
    else if ltb a b
    then (if asc then before else after)
    else (if asc then after else before)

-- `ORDER BY col ASC|DESC NULLS FIRST|LAST`
abbrev pub place : SortSpec → Option ℕ → Option ℕ → Place
place s none none = level
place s none (some b) = if s.nulls_last then after else before
place s (some a) none = if s.nulls_last then before else after
place s (some a) (some b) = by_value s.ascending a b

-- The row stands strictly after the last one: by the first column that tells them apart.
unfoldable pub comes_after : List SortSpec → List (Option ℕ) → Row → Bool
comes_after (s ∷ ss) (v ∷ vs) row =
    let rest = comes_after ss vs row in
    elim (place s (row s.column) v) [ before ↦ false | level ↦ rest | after ↦ true ]
comes_after _ _ row = false

abbrev pub is_after : Place → Bool
is_after after = true
is_after _ = false

abbrev is_level : Place → Bool
is_level level = true
is_level _ = false

-- `ExtractLastValues` gives a column's flag with its value.
abbrev pub last_of : Option ℕ → Last
last_of none = (true, none)
last_of (some a) = (false, some a)

strictly_after-place :
    (s : SortSpec) (v : Option ℕ) (row : Row) (args : List Argument)
    → (keeps (evaluate row (strictly_after (key_spec s)) (own_arguments (last_of v) ++ args)).0
        ≡ is_after (place s (row s.column) v))
      × ((evaluate row (strictly_after (key_spec s)) (own_arguments (last_of v) ++ args)).1 ≡ args)
unfolding strictly_after key_spec evaluate
strictly_after-place s none row args = ground arith
strictly_after-place s (some b) row args = ground arith

level_with-place :
    (s : SortSpec) (v : Option ℕ) (row : Row) (args : List Argument)
    → (keeps (evaluate row (level_with (key_spec s)) (level_arguments (last_of v) ++ args)).0
        ≡ is_level (place s (row s.column) v))
      × ((evaluate row (level_with (key_spec s)) (level_arguments (last_of v) ++ args)).1 ≡ args)
unfolding level_with key_spec evaluate
level_with-place s none row args = ground arith
level_with-place s (some b) row args = ground arith

keeps-or : (a b : Truth) → keeps (or_truth a b) ≡ (keeps a || keeps b)
keeps-or a b = ground arith

keeps-and : (a b : Truth) → keeps (and_truth a b) ≡ (keeps a && keeps b)
keeps-and a b = ground arith

by_place :
    (p : Place) (rest : Bool)
    → (is_after p || (is_level p && rest)) ≡ elim p [ before ↦ false | level ↦ rest | after ↦ true ]
by_place before rest = refl
by_place level rest = refl
by_place after rest = refl

one_column : (p : Place) → is_after p ≡ elim p [ before ↦ false | level ↦ false | after ↦ true ]
one_column before = refl
one_column level = refl
one_column after = refl

-- A condition and its arguments select the rows that come after, and use their arguments up.
abbrev Selects : List SortSpec → List (Option ℕ) → Row → Condition × List Argument → Type 0
Selects specs lasts row (cond, own) =
    (args : List Argument)
    → (keeps (evaluate row cond (own ++ args)).0 ≡ comes_after specs lasts row)
      × ((evaluate row cond (own ++ args)).1 ≡ args)

step-Selects :
    (s : SortSpec) (v : Option ℕ) (specs : List SortSpec) (lasts : List (Option ℕ)) (row : Row)
    (cond : Condition) (own : List Argument)
    → Selects specs lasts row (cond, own)
    → Selects (s ∷ specs) (v ∷ lasts) row (
      either (strictly_after (key_spec s)) (both (level_with (key_spec s)) cond),
      own_arguments (last_of v) ++ (level_arguments (last_of v) ++ own),
    )
unfolding evaluate comes_after
step-Selects s v specs lasts row cond own h args =
    let a = strictly_after-place s v row (level_arguments (last_of v) ++ (own ++ args)) in
    let l = level_with-place s v row (own ++ args) in
    let r = h args in
    rw (a.1, l.1, keeps-or, keeps-and, a.0, l.0, r.0, r.1)
      (by_place (place s (row s.column) v) (comes_after specs lasts row), refl)

-- The condition that is built for any sort and any last values, read with the arguments that the
-- builder appended and with any others behind them, keeps exactly the rows that come strictly after
-- the last one in the order of the sort, and takes just its own arguments.
pub build_after-comes_after :
    (specs : List SortSpec) (lasts : List (Option ℕ)) (row : Row) (args : List Argument)
    → (keeps
          (evaluate row
            (build_after (map key_spec specs) (map last_of lasts)).0
            ((build_after (map key_spec specs) (map last_of lasts)).1 ++ args)).0
        ≡ comes_after specs lasts row)
      × ((evaluate row
            (build_after (map key_spec specs) (map last_of lasts)).0
            ((build_after (map key_spec specs) (map last_of lasts)).1 ++ args)).1
          ≡ args)
unfolding build_after comes_after evaluate
build_after-comes_after [] lasts row args = (refl, refl)
build_after-comes_after (s ∷ []) [] row args = (refl, refl)
build_after-comes_after (s ∷ t ∷ specs) [] row args = (refl, refl)
build_after-comes_after (s ∷ []) (v ∷ lasts) row args =
    let a = strictly_after-place s v row args in
    rw (a.0, a.1) (one_column (place s (row s.column) v), refl)
build_after-comes_after (s ∷ t ∷ specs) (v ∷ lasts) row args =
    step-Selects s v (t ∷ specs) lasts row
      (build_after (map key_spec (t ∷ specs)) (map last_of lasts)).0
      (build_after (map key_spec (t ∷ specs)) (map last_of lasts)).1
      (build_after-comes_after (t ∷ specs) lasts row) args
