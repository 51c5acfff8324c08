-- ===== src/Execution/Limits.antt =====
-- The bounds of a page in `Execute` (execution/pipeline.go), and the values that the next page goes
-- on from (adapter/manager.go, queryplan/schema.go).
use web_db.Prelude.{
  ℤ, pos, negsuc, ◌≡◌, ◌≢◌, refl, String, true, List, [], ◌∷◌, none, some, arith, ok, is_positive,
  leb_ℤ, by_test, Option-cases, inl, inr, str_eq_ne,
}
use web_db.QueryPlan.Types.{Dialect, SchemaSnapshot, TableMetadata, validate_snapshot}
use web_db.QueryPlan.Value.{Value}
use web_db.QueryPlan.Plan.{SortSpec}
use web_db.Execution.Data.{ConnectionPolicy}
use web_db.Execution.Query.{effective_max_rows, effective_page_size}
use web_db.Execution.Sorting.{
  new_schema_snapshot, extract_last_values, sort_values, is_nil, value_at, last_row, has_duplicate,
}

-- A page size and a limit of rows: positive, at most 500, the limit at most the policy's, and the
-- page at most the limit.
pub record WithinLimits (policy : ConnectionPolicy) (size rows : ℤ) : Type 0 where
  pub some_rows : is_positive rows ≡ true
  pub some_page : is_positive size ≡ true
  pub hard_limit : leb_ℤ rows (pos 500) ≡ true
  pub policy_limit : leb_ℤ rows policy.max_rows ≡ true
  pub page_limit : leb_ℤ size rows ≡ true

positive_limits :
    (p a : ℤ)
    → is_positive p ≡ true
    → (policy : ConnectionPolicy) → policy.max_rows ≡ p
    → WithinLimits policy
        (effective_page_size a (effective_max_rows policy))
        (effective_max_rows policy)
unfolding effective_page_size effective_max_rows
positive_limits (pos n) (pos a) h policy q = record {
  some_rows = ground arith;
  some_page = ground arith;
  hard_limit = ground arith;
  policy_limit = ground arith;
  page_limit = ground arith;
}
positive_limits (pos n) (negsuc a) h policy q = record {
  some_rows = ground arith;
  some_page = ground arith;
  hard_limit = ground arith;
  policy_limit = ground arith;
  page_limit = ground arith;
}
positive_limits (negsuc n) a h policy q = absurd (ground arith)

-- For a policy with a positive limit of rows and whatever page size the client asks for, the page
-- size and the limit that the query runs with are positive, the page is at most the limit, and the
-- limit is at most 500 and at most the policy's.
pub effective_page_size-WithinLimits :
    (policy : ConnectionPolicy) (asked : ℤ)
    → is_positive policy.max_rows ≡ true
    → WithinLimits policy
        (effective_page_size asked (effective_max_rows policy))
        (effective_max_rows policy)
effective_page_size-WithinLimits policy asked h =
    positive_limits policy.max_rows asked h policy refl

-- Two values for each sort column: whether its value is null, and the value that the row has there.
pub data SortValues (columns : List String) (row : List Value)
    : List SortSpec → List Value → Type 0 where
  no_values : SortValues columns row [] []
  values :
      (s : SortSpec) (v : Value) (ss : List SortSpec) (vs : List Value)
      → value_at s.column columns row ≡ some v
      → SortValues columns row ss vs
      → SortValues columns row (s ∷ ss) (Value.boolean (is_nil v) ∷ v ∷ vs)

sort_values-SortValues :
    (columns : List String) (row : List Value) (specs : List SortSpec) (vs : List Value)
    → sort_values columns row specs ≡ some vs
    → SortValues columns row specs vs
unfolding sort_values
sort_values-SortValues columns row [] vs h = let e : [] ≡ vs = ground arith in rw⁻¹ e no_values
sort_values-SortValues columns row (s ∷ ss) vs h =
    elim (Option-cases (value_at s.column columns row)) [
      | inl f ↦ absurd (ground arith)
      | inr (v, f) ↦ elim (Option-cases (sort_values columns row ss)) [
        | inl g ↦ absurd (ground arith)
        | inr (us, g) ↦
            (let e : Value.boolean (is_nil v) ∷ v ∷ us ≡ vs = ground arith in
              rw⁻¹ e (values s v ss us f (sort_values-SortValues columns row ss us g)))
      ]
    ]

-- The values that a next page goes on from, where there are any, are those of the page's last row:
-- for each sort column in order whether its value is null, and the value under its name.
pub extract_last_values-SortValues :
    (columns : List String) (row : List Value) (rows : List (List Value)) (specs : List SortSpec)
    (vs : List Value)
    → extract_last_values (row ∷ rows) columns specs ≡ some vs
    → SortValues columns (last_row row rows) specs vs
unfolding extract_last_values
extract_last_values-SortValues columns row rows specs vs h =
    by_test (λ o. o ≡ some vs → SortValues columns (last_row row rows) specs vs)
      (has_duplicate [] columns) none (sort_values columns (last_row row rows) specs)
      (λ _ g. absurd (ground arith))
      (λ _ g. sort_values-SortValues columns (last_row row rows) specs vs g) h

-- What a snapshot is made of.
pub record IsSnapshot (connection : String) (dialect : Dialect) (pool : ℤ) (meta : TableMetadata)
    (s : SchemaSnapshot) : Type 0 where
  pub of_connection : s.connection_id ≡ connection
  pub of_dialect : s.dialect ≡ dialect
  pub of_pool : s.pool_generation ≡ pool
  pub of_table : s.table ≡ meta
  pub valid : validate_snapshot s ≡ ok tt

-- A snapshot that is made, whose generation is not the empty text, is valid and is bound to the
-- connection, the dialect, the pool generation and the table that it was made of.
pub new_schema_snapshot-IsSnapshot :
    (generation : TableMetadata → String) (connection : String) (dialect : Dialect) (pool : ℤ)
    (meta : TableMetadata) (s : SchemaSnapshot)
    → new_schema_snapshot generation connection dialect pool meta ≡ some s
    → generation meta ≢ ""
    → IsSnapshot connection dialect pool meta s
unfolding new_schema_snapshot validate_snapshot
new_schema_snapshot-IsSnapshot generation connection dialect pool meta s h ne = record {
  of_connection = ground arith;
  of_dialect = ground arith;
  of_pool = ground arith;
  of_table = ground arith;
  valid = ground (arith, str_eq_ne (generation meta) "" ne);
}
