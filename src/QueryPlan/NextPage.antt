-- ===== src/QueryPlan/NextPage.antt =====
-- queryplan/nextpage.go: the one way to the plan of a next page. Copies of values are the values.
use web_db.Prelude.{
  ◌>>◌, ℕ, ◌*◌, ◌≡◌, ◌≢◌, ◌<◌, ℤ, pos, is_positive, is_negative, leb_ℤ, Bool, true, false, not,
  ◌&&◌, String, List, Option, none, some, ltb, ◌==◌, str_eq, length, Result, ok, err, arith, eq_iff,
  str_eq_refl,
}
use web_db.QueryPlan.Types.{
  PlanError, ensure, invalid_sort_plan, empty_specs, empty_sql, bad_page_size, bad_max_rows,
  bad_count, value_count,
}
use web_db.QueryPlan.Plan.{SortSpec, VerifiedSortPlan, is_valid_verified_plan}
use web_db.QueryPlan.Value.{Value}

pub record VerifiedNextPagePlan : Type 0 where
  pub version : ℕ
  pub valid : Bool
  pub specs : List SortSpec
  pub last_sort_values : List Value
  pub sql : String
  pub args : List Value
  pub page_size : ℤ
  pub max_rows : ℤ
  pub cumulative_count : ℤ

abbrev pub next_page_plan_version : ℕ
next_page_plan_version = 1

-- `IsValidVerifiedNextPagePlan`, with `Valid`; a nil interface and a nil pointer are `none`.
unfoldable pub is_valid_verified_next_page_plan : Option VerifiedNextPagePlan → Bool
is_valid_verified_next_page_plan none = false
is_valid_verified_next_page_plan (some p) = p.valid && p.version == next_page_plan_version

-- `NewVerifiedNextPagePlan`
unfoldable pub new_verified_next_page_plan :
    Option VerifiedSortPlan
    → List Value
    → String
    → List Value
    → ℤ
    → ℤ
    → ℤ
    → Result PlanError VerifiedNextPagePlan
unfolding is_valid_verified_plan
new_verified_next_page_plan none values sql args page_size max_rows count = err invalid_sort_plan
new_verified_next_page_plan (some plan) values sql args page_size max_rows count = do
  ensure (is_valid_verified_plan (some plan)) invalid_sort_plan
  ensure (ltb 0 (length plan.specs)) empty_specs
  ensure (not (str_eq sql "")) empty_sql
  ensure (is_positive page_size) bad_page_size
  ensure (is_positive max_rows) bad_max_rows
  ensure (not (is_negative count) && not (leb_ℤ max_rows count)) bad_count
  ensure (length values == length plan.specs * 2) value_count
  ok (record {
    version = next_page_plan_version;
    valid = true;
    specs = plan.specs;
    last_sort_values = values;
    sql = sql;
    args = args;
    page_size = page_size;
    max_rows = max_rows;
    cumulative_count = count;
  })

-- What a plan of a next page promises: it has a sort, two values for each sort column, a text, and
-- room for at least one more row.
pub record IsRunnable (p : VerifiedNextPagePlan) : Type 0 where
  pub is_valid : is_valid_verified_next_page_plan (some p) ≡ true
  pub sorted : 0 < length p.specs
  pub two_values : length p.last_sort_values ≡ length p.specs * 2
  pub has_text : p.sql ≢ ""
  pub page : ℕ
  pub is_page : (p.page_size ≡ pos page) × (0 < page)
  pub rows : ℕ
  pub is_rows : p.max_rows ≡ pos rows
  pub seen : ℕ
  pub is_seen : (p.cumulative_count ≡ pos seen) × (seen < rows)

from_present-IsRunnable :
    (plan : VerifiedSortPlan) (values : List Value) (sql : String) (args : List Value) (n m c : ℤ)
    (p : VerifiedNextPagePlan)
    → new_verified_next_page_plan (some plan) values sql args n m c ≡ ok p
    → IsRunnable p
unfolding new_verified_next_page_plan is_valid_verified_next_page_plan
from_present-IsRunnable plan values sql args (pos n) (pos m) (pos c) p h = record {
  is_valid = ground arith;
  sorted = ground arith;
  two_values = ground arith;
  has_text = λ e. ground (arith, str_eq_refl sql, eq_iff sql "");
  page = n;
  is_page = ground arith;
  rows = m;
  is_rows = ground arith;
  seen = c;
  is_seen = ground arith;
}
from_present-IsRunnable plan values sql args _ _ _ p h = absurd (ground arith)

-- A plan of a next page that is made is valid, has a sort and two values for each of its columns,
-- a text, a positive page size, and a count of rows so far that is below its limit.
pub new_verified_next_page_plan-IsRunnable :
    (plan : Option VerifiedSortPlan) (values : List Value) (sql : String) (args : List Value)
    (n m c : ℤ) (p : VerifiedNextPagePlan)
    → new_verified_next_page_plan plan values sql args n m c ≡ ok p
    → IsRunnable p
unfolding new_verified_next_page_plan
new_verified_next_page_plan-IsRunnable none values sql args n m c p h = absurd (ground arith)
new_verified_next_page_plan-IsRunnable (some plan) values sql args n m c p h =
    from_present-IsRunnable plan values sql args n m c p h
