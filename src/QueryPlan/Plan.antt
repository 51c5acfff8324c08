-- ===== src/QueryPlan/Plan.antt =====
-- queryplan/plan.go: the one way to a verified sort plan.

pub mod TotalOrder
pub mod Specs
use web_db.Prelude.{
  ℕ, ℤ, Bool, true, false, not, ◌&&◌, ◌||◌, String, List, [], ◌∷◌, Option, none, some, ltb, ◌==◌,
  if◌then◌else◌, str_eq, length, Result, ok, err, ◌>>=◌, ◌>>◌, map,
}
use web_db.QueryPlan.Types.{
  Dialect, SortDirection, desc, other_direction, SortKey, Column, PlanError, nil_snapshot,
  nil_shape, table_mismatch, no_sort_keys, bad_ident, bad_direction, duplicate_sort_column,
  not_exposed, computed_column, not_base_column, no_unique_key, not_covered, ensure, valid_ident,
  contains, identifiers_equal, find_unique_proofs, SchemaSnapshot, validate_snapshot,
}
use web_db.QueryPlan.Shape.{QueryShape, lookup, validate_shape}

pub record SortSpec : Type 0 where
  pub column : String
  pub base_column : String
  pub ascending : Bool
  pub nulls_last : Bool

pub record SnapshotBinding : Type 0 where
  pub connection_id : String
  pub dialect : Dialect
  pub pool_generation : ℤ
  pub schema_generation : String

abbrev pub sort_plan_version : ℕ
sort_plan_version = 1

pub record VerifiedSortPlan : Type 0 where
  pub version : ℕ
  pub valid : Bool
  pub specs : List SortSpec
  pub binding : SnapshotBinding

-- `IsValidVerifiedPlan`; a nil interface and a nil pointer are `none`.
unfoldable pub is_valid_verified_plan : Option VerifiedSortPlan → Bool
is_valid_verified_plan none = false
is_valid_verified_plan (some p) = p.valid && p.version == sort_plan_version

unfoldable pub column_exists : Dialect → List Column → String → Bool
column_exists d [] n = false
column_exists d (c ∷ cs) n = identifiers_equal d c.name n || column_exists d cs n

-- The base column of a sort key, `base` of the loop.
unfoldable pub base_column : QueryShape → String → Result PlanError String
base_column shape k =
    if shape.select_star
    then ok k
    else elim (lookup k shape.columns) [ none ↦ err not_exposed | some b ↦ ok b ]

abbrev pub is_direction : SortDirection → Bool
is_direction other_direction = false
is_direction _ = true

-- `k.Direction != SortDesc`
abbrev pub is_ascending : SortDirection → Bool
is_ascending desc = false
is_ascending _ = true

-- One round of the loop over the sort keys.
unfoldable pub sort_spec :
    SchemaSnapshot → QueryShape → List String → SortKey → Result PlanError SortSpec
unfolding base_column column_exists contains
sort_spec snapshot shape seen k = do
  ensure (valid_ident k.column) bad_ident
  ensure (is_direction k.direction) bad_direction
  ensure (not (contains seen k.column)) duplicate_sort_column
  base ← base_column shape k.column
  ensure (not (str_eq base "")) computed_column
  ensure (column_exists snapshot.dialect snapshot.table.columns base) not_base_column
  ok (record {
    column = k.column;
    base_column = base;
    ascending = is_ascending k.direction;
    nulls_last = k.nulls_last;
  })

unfoldable pub sort_specs :
    SchemaSnapshot → QueryShape → List String → List SortKey → Result PlanError (List SortSpec)
sort_specs snapshot shape seen [] = ok []
sort_specs snapshot shape seen (k ∷ ks) =
    let rest = sort_specs snapshot shape (k.column ∷ seen) ks in
    do spec ← sort_spec snapshot shape seen k; specs ← rest; ok (spec ∷ specs)

unfoldable pub covers_column : Dialect → List String → String → Bool
covers_column d [] pc = false
covers_column d (bc ∷ bcs) pc = identifiers_equal d bc pc || covers_column d bcs pc

unfoldable pub sort_columns_cover_proof : Dialect → List String → List String → Bool
unfolding covers_column
sort_columns_cover_proof d bcs [] = true
sort_columns_cover_proof d bcs (pc ∷ pcs) =
    covers_column d bcs pc && sort_columns_cover_proof d bcs pcs

unfoldable pub any_covered : Dialect → List String → List (List String) → Bool
unfolding sort_columns_cover_proof
any_covered d bcs [] = false
any_covered d bcs (p ∷ ps) = sort_columns_cover_proof d bcs p || any_covered d bcs ps

abbrev pub base_columns : List SortSpec → List String
base_columns = map (λ s. s.base_column)

-- `VerifySortPlan`, on what is not nil.
unfoldable pub verify_present :
    SchemaSnapshot → QueryShape → List SortKey → Result PlanError VerifiedSortPlan
verify_present snapshot shape keys = do
  validate_snapshot snapshot
  validate_shape shape
  ensure
      (str_eq shape.base_schema snapshot.table.schema
        && str_eq shape.base_table snapshot.table.table)
      table_mismatch
  ensure (ltb 0 (length keys)) no_sort_keys
  specs ← sort_specs snapshot shape [] keys
  ensure (ltb 0 (length (find_unique_proofs snapshot.dialect snapshot.table))) no_unique_key
  ensure
      (any_covered snapshot.dialect (base_columns specs)
        (find_unique_proofs snapshot.dialect snapshot.table))
      not_covered
  ok (record {
    version = sort_plan_version;
    valid = true;
    specs = specs;
    binding = record {
      connection_id = snapshot.connection_id;
      dialect = snapshot.dialect;
      pool_generation = snapshot.pool_generation;
      schema_generation = snapshot.schema_generation;
    };
  })

unfoldable pub verify_sort_plan :
    Option SchemaSnapshot → Option QueryShape → List SortKey → Result PlanError VerifiedSortPlan
unfolding verify_present
verify_sort_plan none shape keys = err nil_snapshot
verify_sort_plan (some snapshot) none keys = validate_snapshot snapshot >>= λ _. err nil_shape
verify_sort_plan (some snapshot) (some shape) keys = verify_present snapshot shape keys
