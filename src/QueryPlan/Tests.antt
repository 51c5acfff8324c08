-- ===== src/QueryPlan/Tests.antt =====
-- A run of queryplan/plan.go on a small table, and the theorem about it there.
use web_db.Prelude.{
  ℕ, ◌≡◌, refl, sym, ap, subst, ◌∙◌, if◌then◌else◌, inl, inr, true, false, String, [], ◌∷◌, none,
  some, arith, ok, err, pos, str_eq, eq_iff,
}
use web_db.QueryPlan.Types.{
  postgresql, asc, SchemaSnapshot, SortKey, not_covered, identifiers_equal, valid_ident,
  validate_snapshot, is_not_null_column, find_unique_proofs,
}
use web_db.QueryPlan.Shape.{QueryShape, validate_shape}
use web_db.QueryPlan.Plan.{VerifiedSortPlan, verify_sort_plan, sort_specs, sort_spec, any_covered}
use web_db.QueryPlan.Plan.{is_valid_verified_plan}
use web_db.QueryPlan.Plan.Specs.{IsFaithful, verify_sort_plan-IsFaithful}
use web_db.QueryPlan.Value.{number, boolean}
use web_db.QueryPlan.NextPage.{
  VerifiedNextPagePlan, new_verified_next_page_plan, IsRunnable,
  new_verified_next_page_plan-IsRunnable,
}
use web_db.QueryPlan.Plan.TotalOrder.{Row, Agree, Satisfies, verify_sort_plan-total}

abbrev snapshot : SchemaSnapshot
snapshot = record {
  connection_id = "c";
  dialect = postgresql;
  pool_generation = pos 1;
  schema_generation = "g";
  table = record {
    schema = "public";
    table = "t";
    columns =
        record { name = "id"; ordinal = 1; nullable = false }
        ∷ record { name = "note"; ordinal = 2; nullable = true }
        ∷ [];
    primary_key = some ("id" ∷ []);
    unique_constraints = [];
  };
}

abbrev shape : QueryShape
shape = record { base_schema = "public"; base_table = "t"; select_star = true; columns = [] }

abbrev key : String → SortKey
key name = record { column = name; direction = asc; nulls_last = true }

abbrev plan : VerifiedSortPlan
plan = record {
  version = 1;
  valid = true;
  specs = record { column = "id"; base_column = "id"; ascending = true; nulls_last = true } ∷ [];
  binding = record {
    connection_id = "c";
    dialect = postgresql;
    pool_generation = pos 1;
    schema_generation = "g";
  };
}

verify_run : verify_sort_plan (some snapshot) (some shape) (key "id" ∷ []) ≡ ok plan
unfolding verify_sort_plan validate_snapshot valid_ident validate_shape sort_specs sort_spec
    identifiers_equal find_unique_proofs is_not_null_column any_covered
verify_run = refl

refuse_run : verify_sort_plan (some snapshot) (some shape) (key "note" ∷ []) ≡ err not_covered
unfolding verify_sort_plan validate_snapshot valid_ident validate_shape sort_specs sort_spec
    identifiers_equal find_unique_proofs is_not_null_column any_covered
refuse_run = refl

-- The table's rows: any number of them, with ids of their own.
abbrev row : ℕ → Row ℕ
row n name = if str_eq name "id" then some n else none

abbrev IsTestRow : Row ℕ → Type 0
IsTestRow r = (n : ℕ) × (r ≡ row n)

same_row : (r s : Row ℕ) → IsTestRow r → IsTestRow s → r "id" ≡ s "id" → r ≡ s
same_row r s (n, e) (m, f) h =
    let same : n ≡ m =
      (let at_id : row n "id" ≡ row m "id" = ap (λ x. x "id") (sym e) ∙ h ∙ ap (λ x. x "id") f in
        ground arith) in
    e ∙ ap row same ∙ sym f

row-Satisfies : Satisfies postgresql snapshot.table IsTestRow
unfolding identifiers_equal
row-Satisfies = record {
  reads_names = λ r a b is e. ap r ((eq_iff a b).0 e);
  not_null = λ r c is held plain. elim held [
    | inl e ↦ (let (n, is_row) = is in rw (is_row, e) (λ q. ground arith))
    | inr (inl e) ↦ absurd (ground arith)
    | inr (inr x) ↦ absurd x
  ];
  primary = λ ks r s e is_r is_s full agree.
      (let same : ks ≡ "id" ∷ [] = ground arith in
        same_row r s is_r is_s (subst (λ k. Agree k r s) same agree).0);
  unique = λ u r s held is_r is_s full agree. absurd held;
}

verify_sort_plan-total_example : row 7 ≡ row 7
verify_sort_plan-total_example =
    verify_sort_plan-total snapshot shape (key "id" ∷ []) plan IsTestRow (row 7) (row 7) verify_run
      row-Satisfies (7, refl) (7, refl) (refl, tt)

verify_sort_plan-IsFaithful_example : IsFaithful snapshot shape (key "id" ∷ []) plan
verify_sort_plan-IsFaithful_example =
    verify_sort_plan-IsFaithful snapshot shape (key "id" ∷ []) plan verify_run

abbrev next_plan : VerifiedNextPagePlan
next_plan = record {
  version = 1;
  valid = true;
  specs = plan.specs;
  last_sort_values = number 7 ∷ boolean false ∷ [];
  sql = "SELECT id FROM t";
  args = [];
  page_size = pos 10;
  max_rows = pos 100;
  cumulative_count = pos 10;
}

next_run :
    new_verified_next_page_plan
      (some plan)
      (number 7 ∷ boolean false ∷ [])
      "SELECT id FROM t"
      []
      (pos 10)
      (pos 100)
      (pos 10)
    ≡ ok next_plan
unfolding new_verified_next_page_plan is_valid_verified_plan
next_run = refl

new_verified_next_page_plan-IsRunnable_example : IsRunnable next_plan
new_verified_next_page_plan-IsRunnable_example =
    new_verified_next_page_plan-IsRunnable (some plan) (number 7 ∷ boolean false ∷ [])
      "SELECT id FROM t" [] (pos 10) (pos 100) (pos 10) next_plan next_run
