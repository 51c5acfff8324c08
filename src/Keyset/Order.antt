-- ===== src/Keyset/Order.antt =====
-- The ORDER BY clause of adapter/keyset.go (`buildOrderByClause`), and the order that it gives.
use web_db.Prelude.{
  ℕ, ◌≡◌, refl, Bool, true, false, not, String, List, [], ◌∷◌, map, Option, none, some,
  if◌then◌else◌, arith,
}
use web_db.QueryPlan.Plan.{SortSpec}
use web_db.Keyset.Build.{KeySpec, key_spec}
use web_db.Keyset.Rows.{Row}
use web_db.Keyset.After.{Place, before, level, after, by_value, place, is_after, comes_after}

pub data Engine : Type 0 where
  postgresql my_sql : Engine

-- `col ASC|DESC`, with `NULLS FIRST|LAST` or without, and `CASE WHEN col IS NULL THEN a ELSE b END`.
pub data OrderItem : Type 0 where
  by_column : String → Bool → Option Bool → OrderItem
  by_null : String → ℕ → ℕ → OrderItem

-- `buildOrderByClause`, as the list of what it joins with commas.
unfoldable pub order_by : Engine → List KeySpec → List OrderItem
order_by engine [] = []
order_by postgresql (s ∷ ss) = by_column s.column s.asc (some s.nulls_last) ∷ order_by postgresql ss
order_by my_sql (s ∷ ss) =
    by_null s.column (if s.nulls_last then 1 else 0) (if s.nulls_last then 0 else 1)
    ∷ by_column s.column s.asc none
    ∷ order_by my_sql ss

abbrev null_place : Bool → Option ℕ → Option ℕ → Place → Place
null_place nulls_last none none other = level
null_place nulls_last none (some b) other = if nulls_last then after else before
null_place nulls_last (some a) none other = if nulls_last then before else after
null_place nulls_last (some a) (some b) other = other

abbrev value_place : Bool → Option ℕ → Option ℕ → Place
value_place asc (some a) (some b) = by_value asc a b
value_place asc _ _ = level

-- MySQL takes NULL for the least value where the clause does not say.
abbrev item_place : OrderItem → Row → Row → Place
item_place (by_column c asc (some nulls_last)) row last =
    null_place nulls_last (row c) (last c) (value_place asc (row c) (last c))
item_place (by_column c asc none) row last =
    null_place (not asc) (row c) (last c) (value_place asc (row c) (last c))
item_place (by_null c a b) row last =
    by_value true (elim (row c) [ none ↦ a | some v ↦ b ]) (elim (last c) [ none ↦ a | some v ↦ b ])

abbrev first_place : Place → Place → Place
first_place level other = other
first_place p other = p

-- Where a row stands to another in the order of the clause: by the first item that tells them apart.
unfoldable pub order_place : List OrderItem → Row → Row → Place
order_place [] row last = level
order_place (i ∷ is) row last =
    let rest = order_place is row last in first_place (item_place i row last) rest

abbrev pub values_of : List SortSpec → Row → List (Option ℕ)
values_of specs row = map (λ s. row s.column) specs

pg_step :
    (s : SortSpec) (x y : Option ℕ) (rest : Place) (b : Bool)
    → is_after rest ≡ b
    → is_after (first_place (null_place s.nulls_last x y (value_place s.ascending x y)) rest)
      ≡ elim (place s x y) [ before ↦ false | level ↦ b | after ↦ true ]
pg_step s none none rest b h = h
pg_step s none (some y) rest b h = ground arith
pg_step s (some x) none rest b h = ground arith
pg_step s (some x) (some y) rest b h = ground arith

my_step :
    (s : SortSpec) (x y : Option ℕ) (rest : Place) (b : Bool)
    → is_after rest ≡ b
    → is_after (
        first_place
          (by_value true
            (elim x [
              | none ↦ if s.nulls_last then 1 else 0
              | some v ↦ if s.nulls_last then 0 else 1
            ])
            (elim y [
              | none ↦ if s.nulls_last then 1 else 0
              | some v ↦ if s.nulls_last then 0 else 1
            ]))
          (first_place (null_place (not s.ascending) x y (value_place s.ascending x y)) rest))
      ≡ elim (place s x y) [ before ↦ false | level ↦ b | after ↦ true ]
my_step s none none rest b h = ground arith
my_step s none (some y) rest b h = ground arith
my_step s (some x) none rest b h = ground arith
my_step s (some x) (some y) rest b h = ground arith

-- On both engines the rows that stand after another row in the order of the ORDER BY clause are those
-- that come after its values: the clauses of the two engines give one order, and it is the one of the
-- keyset condition.
pub order_by-comes_after :
    (engine : Engine) (specs : List SortSpec) (row last : Row)
    → is_after (order_place (order_by engine (map key_spec specs)) row last)
      ≡ comes_after specs (values_of specs last) row
unfolding order_by order_place comes_after key_spec
order_by-comes_after engine [] row last = refl
order_by-comes_after postgresql (s ∷ ss) row last =
    pg_step s (row s.column) (last s.column)
      (order_place (order_by postgresql (map key_spec ss)) row last)
      (comes_after ss (values_of ss last) row) (order_by-comes_after postgresql ss row last)
order_by-comes_after my_sql (s ∷ ss) row last =
    my_step s (row s.column) (last s.column)
      (order_place (order_by my_sql (map key_spec ss)) row last)
      (comes_after ss (values_of ss last) row) (order_by-comes_after my_sql ss row last)
