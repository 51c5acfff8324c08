-- ===== src/Pagination/State.antt =====
-- pagination/state.go: what a continuation keeps, and how many bytes that is charged for. A byte
-- slice shows only its length. The fields' texts are compared and measured, never taken apart; `len`
-- counts the bytes of a text in UTF-8, as Go's does.
use Prim.Native.String.{len}
use web_db.Prelude.{
  ℕ, ◌+◌, ℤ, Bool, not, ◌&&◌, String, List, [], ◌∷◌, Option, none, some, str_eq, is_positive,
}
use web_db.QueryPlan.Plan.{SortSpec, VerifiedSortPlan, is_valid_verified_plan}
use web_db.QueryPlan.Value as V
use web_db.QueryPlan.Value.{Value, Values, Pairs}

pub record ContinuationState : Type 0 where
  pub user_id : String
  pub workspace_id : String
  pub connection_id : String
  pub pool_generation : ℤ
  pub schema_generation : String
  pub table_schema : String
  pub table_name : String
  pub policy_version : ℤ
  pub statement_hash : String
  pub sort_plan : Option VerifiedSortPlan
  pub sql : String
  pub args : List Value
  pub last_sort_values : List Value
  pub cumulative_count : ℤ
  pub page_size : ℤ
  pub max_rows : ℤ
  pub timeout_ms : ℤ
  pub expires_at : ℕ

unfoldable mutual
  pub retained_bytes : Value → ℕ
  retained_bytes V.nil = 0
  retained_bytes (V.boolean b) = 1
  retained_bytes (V.text s) = len s
  retained_bytes (V.bytes n) = n
  retained_bytes (V.number n) = 8
  retained_bytes (V.time t) = 32
  retained_bytes (V.slice vs) = 16 + retained_values vs
  retained_bytes (V.array vs) = 16 + retained_values vs
  retained_bytes (V.dictionary ps) = 32 + retained_pairs ps
  retained_bytes V.unknown = 64

  pub retained_values : Values → ℕ
  retained_values V.none = 0
  retained_values (V.more v vs) = retained_bytes v + retained_values vs

  pub retained_pairs : Pairs → ℕ
  retained_pairs V.end = 0
  retained_pairs (V.pair k v ps) = 8 + retained_bytes k + retained_bytes v + retained_pairs ps

unfoldable pub sum_retained : List Value → ℕ
sum_retained [] = 0
sum_retained (v ∷ vs) = retained_bytes v + sum_retained vs

unfoldable pub specs_bytes : List SortSpec → ℕ
specs_bytes [] = 0
specs_bytes (s ∷ ss) = (len s.column + len s.base_column + 2) + specs_bytes ss

unfoldable pub plan_bytes : Option VerifiedSortPlan → ℕ
unfolding specs_bytes
plan_bytes none = 0
plan_bytes (some p) = specs_bytes p.specs

unfoldable pub state_bytes : ContinuationState → ℕ
unfolding sum_retained plan_bytes retained_bytes retained_values retained_pairs
state_bytes s =
    len s.sql
    + (len s.user_id
        + len s.workspace_id
        + len s.connection_id
        + len s.schema_generation
        + len s.table_schema
        + len s.table_name
        + len s.statement_hash)
    + sum_retained s.args
    + sum_retained s.last_sort_values
    + plan_bytes s.sort_plan

abbrev is_text : String → Bool
is_text s = not (str_eq s "")

-- `validState`
unfoldable pub valid_state : ContinuationState → Bool
unfolding is_valid_verified_plan
valid_state s =
    is_text s.user_id
    && is_text s.workspace_id
    && is_text s.connection_id
    && is_text s.schema_generation
    && is_text s.table_schema
    && is_text s.table_name
    && is_positive s.policy_version
    && is_text s.statement_hash
    && is_valid_verified_plan s.sort_plan
    && is_text s.sql
    && is_positive s.page_size
    && is_positive s.max_rows
