-- ===== src/QueryPlan/Shape.antt =====
-- queryplan/shape.go. The map of exposed columns is a list of pairs; Go's order of iteration
-- decides only which error is reported first.
use web_db.Prelude.{
  ◌>>◌, Bool, ◌||◌, String, List, [], ◌∷◌, Option, none, some, str_eq, length, ltb, if◌then◌else◌,
  Result, ok,
}
use web_db.QueryPlan.Types.{PlanError, bad_ident, no_exposed_columns, ensure, valid_ident}

pub record QueryShape : Type 0 where
  pub base_schema : String
  pub base_table : String
  pub select_star : Bool
  pub columns : List (String × String)

-- `shape.Columns[name]`
unfoldable pub lookup : String → List (String × String) → Option String
lookup k [] = none
lookup k ((j, v) ∷ m) = if str_eq j k then some v else lookup k m

unfoldable pub check_exposed : List (String × String) → Result PlanError (Unit {0})
check_exposed [] = ok tt
check_exposed ((exposed, base) ∷ rest) =
    let more = check_exposed rest in
    do
      ensure (valid_ident exposed) bad_ident
      ensure (str_eq base "" || valid_ident base) bad_ident
      more

-- `(*QueryShape).Validate`
unfoldable pub validate_shape : QueryShape → Result PlanError (Unit {0})
unfolding check_exposed
validate_shape s = do
  ensure (str_eq s.base_schema "" || valid_ident s.base_schema) bad_ident
  ensure (valid_ident s.base_table) bad_ident
  if s.select_star
      then ok tt
      else do ensure (ltb 0 (length s.columns)) no_exposed_columns; check_exposed s.columns
