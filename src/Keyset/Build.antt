-- ===== src/Keyset/Build.antt =====
-- adapter/keyset.go: the specs of the sort, and the condition that `buildAfter` writes, as a tree. A
-- placeholder is a hole: it has no number, since the builder appends one argument with each
-- placeholder that it writes, in the order in which they stand in the text, so that `?` and the
-- numbers of `$n` name the arguments in that order. A column's values are numbers, in place of any
-- type with a total order, and `none` for NULL.
use web_db.Prelude.{ℕ, Bool, String, List, [], ◌∷◌, ◌++◌, Option, none, some, if◌then◌else◌}
use mathlib.Core.Option
use web_db.QueryPlan.Types.{valid_ident}
use web_db.QueryPlan.Plan.{SortSpec}

-- `sortSpec`
pub record KeySpec : Type 0 where
  pub column : String
  pub asc : Bool
  pub nulls_last : Bool
  pub null_rank : ℕ
  pub non_null_rank : ℕ

unfoldable pub key_spec : SortSpec → KeySpec
key_spec s = record {
  column = s.column;
  asc = s.ascending;
  nulls_last = s.nulls_last;
  null_rank = if s.nulls_last then 1 else 0;
  non_null_rank = if s.nulls_last then 0 else 1;
}

unfoldable pub key_specs : List SortSpec → Option (List KeySpec)
key_specs [] = some []
key_specs (s ∷ ss) =
    let rest = key_specs ss in
    if valid_ident s.column then Option.map (λ ks. key_spec s ∷ ks) rest else none

-- `sortSpecsFromSpecs`; `none` is the error.
unfoldable pub sort_specs_from_specs : List SortSpec → Option (List KeySpec)
unfolding key_specs
sort_specs_from_specs [] = none
sort_specs_from_specs (s ∷ ss) = key_specs (s ∷ ss)

-- `(CASE WHEN col IS NULL THEN a ELSE b END)`, `(CASE WHEN ? THEN a ELSE b END)`, and a number.
pub data Rank : Type 0 where
  column_rank : String → ℕ → ℕ → Rank
  hole_rank : ℕ → ℕ → Rank
  number_rank : ℕ → Rank

-- `compares col asc` is `col > ?` or `col < ?`, and `equals col` is `col = ?`.
pub data Condition : Type 0 where
  falsehood : Condition
  exceeds same : Rank → Rank → Condition
  compares : String → Bool → Condition
  equals : String → Condition
  both either : Condition → Condition → Condition

-- An argument of a placeholder: whether the last value is NULL, or the value.
pub data Argument : Type 0 where
  is_null : Bool → Argument
  value : Option ℕ → Argument

-- The two values of `lastVals` for one column.
abbrev pub Last : Type 0
Last = Bool × Option ℕ

abbrev pub column_case : KeySpec → Rank
column_case s = column_rank s.column s.null_rank s.non_null_rank

abbrev pub hole_case : KeySpec → Rank
hole_case s = hole_rank s.null_rank s.non_null_rank

-- `(cr > lr0) OR (cr = lr1 AND cr = nonNullRank AND col ao ?)`
unfoldable pub strictly_after : KeySpec → Condition
strictly_after s = either (exceeds (column_case s) (hole_case s)) (
    both
      (both (same (column_case s) (hole_case s))
        (same (column_case s) (number_rank s.non_null_rank)))
      (compares s.column s.asc))

-- `(cr = lr2 AND (cr = nullRank OR col = ?))`
unfoldable pub level_with : KeySpec → Condition
level_with s =
    both (same (column_case s) (hole_case s))
      (either (same (column_case s) (number_rank s.null_rank)) (equals s.column))

abbrev pub own_arguments : Last → List Argument
own_arguments l = is_null l.0 ∷ is_null l.0 ∷ value l.1 ∷ []

abbrev pub level_arguments : Last → List Argument
level_arguments l = is_null l.0 ∷ value l.1 ∷ []

-- `buildAfter`, with the arguments that it appends; each spec has its last values.
unfoldable pub build_after : List KeySpec → List Last → Condition × List Argument
unfolding strictly_after level_with
build_after (s ∷ t ∷ ss) (l ∷ ls) =
    let rest = build_after (t ∷ ss) ls in
    (
      either (strictly_after s) (both (level_with s) rest.0),
      own_arguments l ++ (level_arguments l ++ rest.1),
    )
build_after (s ∷ []) (l ∷ ls) = (strictly_after s, own_arguments l)
build_after _ _ = (falsehood, [])
