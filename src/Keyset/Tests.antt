-- ===== src/Keyset/Tests.antt =====
-- The condition of adapter/keyset.go at a small sort, and the theorem about it there.
use web_db.Prelude.{
  ◌≡◌, refl, ℕ, true, false, List, [], ◌∷◌, ◌++◌, map, Option, none, some, str_eq, if◌then◌else◌,
}
use web_db.QueryPlan.Plan.{SortSpec}
use web_db.QueryPlan.Types.{valid_ident}
use web_db.Keyset.Build.{key_spec, key_specs, sort_specs_from_specs, build_after, value}
use web_db.Keyset.Rows.{Row, evaluate, keeps}
use web_db.Keyset.Order.{my_sql, order_by, order_place, values_of, order_by-comes_after}
use web_db.Keyset.After.{is_after, comes_after, last_of, build_after-comes_after}

-- `ORDER BY name DESC NULLS FIRST, id ASC NULLS LAST`
abbrev sort : List SortSpec
sort =
    record { column = "name"; base_column = "name"; ascending = false; nulls_last = false }
    ∷ record { column = "id"; base_column = "id"; ascending = true; nulls_last = true }
    ∷ []

abbrev lasts : List (Option ℕ)
lasts = none ∷ some 4 ∷ []

abbrev row : Row
row c = if str_eq c "id" then some 7 else none

sort_specs_run : sort_specs_from_specs sort ≡ some (map key_spec sort)
unfolding sort_specs_from_specs key_specs valid_ident
sort_specs_run = refl

comes_after_run : comes_after sort lasts row ≡ true
unfolding comes_after
comes_after_run = refl

build_after-comes_after_example :
    (keeps
        (evaluate row
          (build_after (map key_spec sort) (map last_of lasts)).0
          ((build_after (map key_spec sort) (map last_of lasts)).1 ++ (value (some 10) ∷ []))).0
      ≡ comes_after sort lasts row)
    × ((evaluate row
          (build_after (map key_spec sort) (map last_of lasts)).0
          ((build_after (map key_spec sort) (map last_of lasts)).1 ++ (value (some 10) ∷ []))).1
        ≡ value (some 10) ∷ [])
build_after-comes_after_example = build_after-comes_after sort lasts row (value (some 10) ∷ [])

abbrev last_row : Row
last_row c = if str_eq c "id" then some 4 else none

order_by-comes_after_example :
    is_after (order_place (order_by my_sql (map key_spec sort)) row last_row)
    ≡ comes_after sort (values_of sort last_row) row
order_by-comes_after_example = order_by-comes_after my_sql sort row last_row
