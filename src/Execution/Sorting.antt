-- ===== src/Execution/Sorting.antt =====
-- What `Execute` does for a query that may need a next page: `NewSchemaSnapshot` of
-- queryplan/schema.go, `ExtractLastValues` of adapter/manager.go, and `verifySortPlan` and
-- `createContinuation` of execution/pipeline.go.
use web_db.Prelude.{
  ℤ, Bool, true, false, not, String, List, [], ◌∷◌, Option, none, some, Result, ok, err, str_eq,
  is_negative, if◌then◌else◌,
}
use mathlib.Core.Option
use web_db.QueryPlan.Types as Plan
use web_db.QueryPlan.Types.{
  Dialect, PlanError, SchemaSnapshot, TableMetadata, validate_table, ensure, is_known,
  empty_connection, unknown_dialect, bad_generation,
}
use web_db.QueryPlan.Value.{Value}
use web_db.QueryPlan.Shape.{QueryShape}
use web_db.QueryPlan.Plan.{SortSpec, VerifiedSortPlan, verify_sort_plan}
use web_db.SqlPolicy.Types as Policy
use web_db.Pagination.State.{ContinuationState}
use web_db.Pagination.Quota.{Registry}
use web_db.Pagination.Registry as Calls
use web_db.Pagination.Registry.{create}
use web_db.Execution.Data.{
  Connection, ConnectionPolicy, policy_version_of, ExecuteRequest, QueryResult,
}
use web_db.Execution.World.{
  Env, World, Program, give, leave, look, note, interfere, resolves_table, loads_table, ◌>>=◌, ◌>>◌,
}

-- `NewSchemaSnapshot`; the digest of the table's columns and keys is a parameter.
unfoldable pub new_schema_snapshot :
    (TableMetadata → String) → String → Dialect → ℤ → TableMetadata → Option SchemaSnapshot
unfolding validate_table
new_schema_snapshot generation connection dialect pool meta =
    if str_eq connection ""
    then none
    else if not (is_known dialect)
    then none
    else if is_negative pool
    then none
    else elim (validate_table meta) [
      | err e ↦ none
      | ok checked ↦ some (record {
        connection_id = connection;
        dialect = dialect;
        pool_generation = pool;
        schema_generation = generation meta;
        table = meta;
      })
    ]

-- Does a name stand twice in the columns? `colIdx` is the list of those that were passed.
unfoldable pub has_duplicate : List String → List String → Bool
unfolding Plan.contains
has_duplicate seen [] = false
has_duplicate seen (c ∷ cs) = if Plan.contains seen c then true else has_duplicate (c ∷ seen) cs

-- The value of the last row under a column's name. The drivers give a row a value for each column;
-- where Go would panic on a row that is too short, there is none.
unfoldable pub value_at : String → List String → List Value → Option Value
value_at name (c ∷ cs) (v ∷ vs) = if str_eq c name then some v else value_at name cs vs
value_at name _ _ = none

abbrev pub is_nil : Value → Bool
is_nil Value.nil = true
is_nil _ = false

-- For each sort column whether its value is null, and the value.
unfoldable pub sort_values : List String → List Value → List SortSpec → Option (List Value)
unfolding value_at
sort_values columns last [] = some []
sort_values columns last (s ∷ ss) =
    let rest = sort_values columns last ss in
    elim (value_at s.column columns last) [
      | none ↦ none
      | some v ↦ Option.map (λ vs. Value.boolean (is_nil v) ∷ v ∷ vs) rest
    ]

unfoldable pub last_row : List Value → List (List Value) → List Value
last_row row [] = row
last_row row (r ∷ rows) = last_row r rows

-- `ExtractLastValues`; Go's nil slice is the empty list.
unfoldable pub extract_last_values :
    List (List Value) → List String → List SortSpec → Option (List Value)
unfolding has_duplicate sort_values last_row
extract_last_values [] columns specs = some []
extract_last_values (row ∷ rows) columns specs =
    if has_duplicate [] columns then none else sort_values columns (last_row row rows) specs

-- `queryplan.Dialect(engine)` and `sqlpolicy.Dialect(engine)`
unfoldable pub plan_dialect : String → Dialect
plan_dialect engine =
    if str_eq engine "postgresql"
    then Plan.postgresql
    else if str_eq engine "mysql"
    then Plan.my_sql
    else Plan.other_dialect

unfoldable pub policy_dialect : String → Policy.Dialect
policy_dialect engine =
    if str_eq engine "postgresql"
    then Policy.postgresql
    else if str_eq engine "mysql"
    then Policy.my_sql
    else Policy.unknown_dialect

-- Every failure of `verifySortPlan` is `unsupported_query` to its caller.
pub data SortRefusal : Type 0 where
  no_sort_plan : SortRefusal

abbrev pub or_refuse : {A : Type 0} → Option A → Program SortRefusal A
or_refuse none = leave no_sort_plan
or_refuse (some a) = give a

abbrev pub ok_or_refuse : {A : Type 0} → Result PlanError A → Program SortRefusal A
ok_or_refuse (err e) = leave no_sort_plan
ok_or_refuse (ok a) = give a

-- An answer of the handle to a question about a table, which is asked whatever comes of it.
abbrev answered : Option String → Option String
answered none = none
answered (some s) = if str_eq s "" then none else some s

-- A table without a schema is looked up.
unfoldable pub qualified : Env → QueryShape → Program SortRefusal QueryShape
qualified env shape w =
    if str_eq shape.base_schema ""
    then (elim (answered (env.resolve_table w.log shape.base_table)) [
      | none ↦ (err no_sort_plan, note resolves_table w)
      | some s ↦ (ok (record shape { base_schema = s }), note resolves_table w)
    ])
    else (ok shape, w)

abbrev pub table_of : Env → String → String → Program SortRefusal TableMetadata
table_of env schema table w = elim (env.load_table w.log schema table) [
  | none ↦ (err no_sort_plan, note loads_table w)
  | some m ↦ (ok m, note loads_table w)
]

-- The plan, and the snapshot that it was verified against.
unfoldable pub verify_sort :
    Env → ExecuteRequest → Connection → Program SortRefusal (VerifiedSortPlan × SchemaSnapshot)
unfolding qualified new_schema_snapshot verify_sort_plan plan_dialect policy_dialect
verify_sort env req conn = do
  parsed ← or_refuse (env.analyze_shape (policy_dialect conn.engine) req.sql)
  shape ← qualified env parsed
  meta ← table_of env shape.base_schema shape.base_table
  pool ← look (λ w. env.pool_generation w.log)
  snapshot ←
      or_refuse
        (new_schema_snapshot env.schema_generation conn.id (plan_dialect conn.engine) pool meta)
  plan ← ok_or_refuse (verify_sort_plan (some snapshot) (some shape) req.sort_keys)
  give (plan, snapshot)

-- The state that `createContinuation` hands to the registry.
unfoldable pub continuation_of :
    ExecuteRequest
    → Connection
    → ℤ
    → VerifiedSortPlan
    → SchemaSnapshot
    → ConnectionPolicy
    → ℤ
    → String
    → QueryResult
    → List Value
    → ℤ
    → ℤ
    → ContinuationState
continuation_of req conn pool plan snapshot policy version hash page last page_size max_rows =
    record {
      user_id = req.principal.user_id;
      workspace_id = req.principal.workspace_id;
      connection_id = conn.id;
      pool_generation = pool;
      schema_generation = snapshot.schema_generation;
      table_schema = snapshot.table.schema;
      table_name = snapshot.table.table;
      policy_version = version;
      statement_hash = hash;
      sort_plan = some plan;
      sql = req.sql;
      args = req.args;
      last_sort_values = last;
      cumulative_count = page.total_returned;
      page_size = page_size;
      max_rows = max_rows;
      timeout_ms = policy.statement_timeout_ms;
      expires_at = 0;
    }

-- Why there is no continuation: neither of the first two is an error of the registry.
pub data TokenError : Type 0 where
  no_last_values no_policy_version : TokenError
  registry_error : Calls.ErrorCode → TokenError

abbrev pub or_leave : {E A : Type 0} → E → Option A → Program E A
or_leave e none = leave e
or_leave e (some a) = give a

abbrev pub token_answer :
    Registry × Result Calls.ErrorCode String → World → Result TokenError String × World
token_answer (r, err e) w = (err (registry_error e), record w { registry = r })
token_answer (r, ok token) w = (ok token, record w { registry = r })

-- `p.registry.Create`
unfoldable pub create_token : Env → ContinuationState → Program TokenError String
unfolding create
create_token env s w =
    token_answer (create env.digest (env.clock w.log) (env.draw w.log) (some s) w.registry) w

unfoldable pub create_continuation :
    Env
    → ExecuteRequest
    → Connection
    → VerifiedSortPlan
    → SchemaSnapshot
    → ConnectionPolicy
    → String
    → QueryResult
    → ℤ
    → ℤ
    → Program TokenError String
unfolding extract_last_values policy_version_of continuation_of create_token
create_continuation env req conn plan snapshot policy hash page page_size max_rows = do
  last ← or_leave no_last_values (extract_last_values page.rows page.columns plan.specs)
  version ← or_leave no_policy_version (policy_version_of policy)
  pool ← look (λ w. env.pool_generation w.log)
  interfere env
  create_token env
      (continuation_of req conn pool plan snapshot policy version hash page last page_size max_rows)
