-- ===== src/Keyset/Rows.antt =====
-- What a condition of adapter/keyset.go says of a row, by the rules of SQL: a comparison with NULL is
-- NULL, AND and OR are those of three values, and WHERE keeps a row for which the condition is true.
-- Placeholders take the arguments one by one, from the left.
use web_db.Prelude.{ℕ, Bool, true, false, String, List, ◌∷◌, Option, none, some, ltb, ◌==◌}
use web_db.Keyset.Build.{
  Rank, column_rank, hole_rank, number_rank, Condition, falsehood, exceeds, same, compares, equals,
  both, either, Argument, is_null, value,
}

-- The values of a row's columns, `none` for NULL.
abbrev pub Row : Type 0
Row = String → Option ℕ

-- `none` is NULL.
abbrev pub Truth : Type 0
Truth = Option Bool

abbrev pub and_truth : Truth → Truth → Truth
and_truth (some false) b = some false
and_truth (some true) b = b
and_truth none (some false) = some false
and_truth none _ = none

abbrev pub or_truth : Truth → Truth → Truth
or_truth (some true) b = some true
or_truth (some false) b = b
or_truth none (some true) = some true
or_truth none _ = none

-- A value and the arguments that are left; `none` where there is no such argument.
abbrev pub rank_of : Row → Rank → List Argument → Option ℕ × List Argument
rank_of row (column_rank c a b) args = (elim (row c) [ none ↦ some a | some v ↦ some b ], args)
rank_of row (hole_rank a b) (is_null true ∷ args) = (some a, args)
rank_of row (hole_rank a b) (is_null false ∷ args) = (some b, args)
rank_of row (hole_rank a b) args = (none, args)
rank_of row (number_rank n) args = (some n, args)

abbrev pub compared : (ℕ → ℕ → Bool) → Option ℕ → Option ℕ → Truth
compared test (some a) (some b) = some (test a b)
compared test _ _ = none

abbrev pub two_ranks :
    (ℕ → ℕ → Bool) → Row → Rank → Option ℕ × List Argument → Truth × List Argument
two_ranks test row second (a, args) =
    let (b, more) = rank_of row second args in (compared test a b, more)

abbrev pub with_value : (ℕ → ℕ → Bool) → Option ℕ → List Argument → Truth × List Argument
with_value test a (value b ∷ args) = (compared test a b, args)
with_value test a args = (none, args)

abbrev pub direction : Bool → ℕ → ℕ → Bool
direction true a b = ltb b a
direction false a b = ltb a b

abbrev pub combine : (Truth → Truth → Truth) → Truth → Truth × List Argument → Truth × List Argument
combine f x (y, args) = (f x y, args)

unfoldable pub evaluate : Row → Condition → List Argument → Truth × List Argument
evaluate row falsehood args = (some false, args)
evaluate row (exceeds a b) args = two_ranks (λ m n. ltb n m) row b (rank_of row a args)
evaluate row (same a b) args = two_ranks (λ m n. m == n) row b (rank_of row a args)
evaluate row (compares c asc) args = with_value (direction asc) (row c) args
evaluate row (equals c) args = with_value (λ m n. m == n) (row c) args
evaluate row (both p q) args =
    let first = evaluate row p args in combine and_truth first.0 (evaluate row q first.1)
evaluate row (either p q) args =
    let first = evaluate row p args in combine or_truth first.0 (evaluate row q first.1)

-- WHERE
abbrev pub keeps : Truth → Bool
keeps (some b) = b
keeps none = false
