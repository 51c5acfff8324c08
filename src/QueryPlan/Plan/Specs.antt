-- ===== src/QueryPlan/Plan/Specs.antt =====
-- The sort specs of a verified plan, against the sort keys that were asked for
-- (queryplan/plan.go).
use web_db.Prelude.{◌≡◌, ◌≢◌, true, false, String, List, [], ◌∷◌, some, ok, arith, eq_iff}
use web_db.QueryPlan.Types.{SortKey, SchemaSnapshot, contains}
use web_db.QueryPlan.Shape.{QueryShape}
use web_db.QueryPlan.Plan.{
  SortSpec, VerifiedSortPlan, is_valid_verified_plan, column_exists, base_column, is_ascending,
  sort_spec, sort_specs, verify_present, verify_sort_plan,
}

-- One spec carries out one key: its column and order, and a base column of the table that the
-- query's shape traces it to.
pub record Answers (sn : SchemaSnapshot) (shape : QueryShape) (k : SortKey) (s : SortSpec)
    : Type 0 where
  pub column : s.column ≡ k.column
  pub order : s.ascending ≡ is_ascending k.direction
  pub nulls : s.nulls_last ≡ k.nulls_last
  pub traced : base_column shape k.column ≡ ok s.base_column
  pub exists_base : column_exists sn.dialect sn.table.columns s.base_column ≡ true

-- The specs carry out the keys one by one, in their order, and no column comes twice.
abbrev pub AllAnswer :
    SchemaSnapshot → QueryShape → List String → List SortKey → List SortSpec → Type 0
AllAnswer sn shape seen [] [] = Unit
AllAnswer sn shape seen [] (s ∷ ss) = ⊥
AllAnswer sn shape seen (k ∷ ks) [] = ⊥
AllAnswer sn shape seen (k ∷ ks) (s ∷ ss) =
    Answers sn shape k s
    × (contains seen k.column ≡ false)
    × AllAnswer sn shape (k.column ∷ seen) ks ss

sort_spec-Answers :
    (sn : SchemaSnapshot) (shape : QueryShape) (seen : List String) (k : SortKey) (s : SortSpec)
    → sort_spec sn shape seen k ≡ ok s
    → Answers sn shape k s × (contains seen k.column ≡ false)
unfolding sort_spec
sort_spec-Answers sn shape seen k s h = (
  record {
    column = ground arith;
    order = ground arith;
    nulls = ground arith;
    traced = ground arith;
    exists_base = ground arith;
  },
  ground arith,
)

sort_specs-AllAnswer :
    (sn : SchemaSnapshot) (shape : QueryShape) (seen : List String) (ks : List SortKey)
    (ss : List SortSpec)
    → sort_specs sn shape seen ks ≡ ok ss
    → AllAnswer sn shape seen ks ss
unfolding sort_specs
sort_specs-AllAnswer sn shape seen [] [] h = tt
sort_specs-AllAnswer sn shape seen [] (s ∷ ss) h = absurd (ground arith)
sort_specs-AllAnswer sn shape seen (k ∷ ks) [] h = absurd (ground arith)
sort_specs-AllAnswer sn shape seen (k ∷ ks) (s ∷ ss) h =
    let (answers, fresh) = sort_spec-Answers sn shape seen k s (ground arith) in
    (answers, fresh, sort_specs-AllAnswer sn shape (k.column ∷ seen) ks ss (ground arith))

-- What a verified plan carries over from the request and the snapshot.
pub record IsFaithful (sn : SchemaSnapshot) (shape : QueryShape) (keys : List SortKey)
    (plan : VerifiedSortPlan) : Type 0 where
  pub answers : AllAnswer sn shape [] keys plan.specs
  pub some_key : keys ≢ []
  pub valid : is_valid_verified_plan (some plan) ≡ true
  pub schema : shape.base_schema ≡ sn.table.schema
  pub table : shape.base_table ≡ sn.table.table
  pub connection : plan.binding.connection_id ≡ sn.connection_id
  pub dialect : plan.binding.dialect ≡ sn.dialect
  pub pool : plan.binding.pool_generation ≡ sn.pool_generation
  pub generation : plan.binding.schema_generation ≡ sn.schema_generation

-- A verified plan has one sort spec for each key, in the keys' order, with no column twice, each
-- with the key's direction and a base column that the query's shape traces it to and the table
-- has. It is valid, its shape is over the snapshot's table, and it is bound to the snapshot.
pub verify_sort_plan-IsFaithful :
    (sn : SchemaSnapshot) (shape : QueryShape) (keys : List SortKey) (plan : VerifiedSortPlan)
    → verify_sort_plan (some sn) (some shape) keys ≡ ok plan
    → IsFaithful sn shape keys plan
unfolding verify_sort_plan verify_present is_valid_verified_plan
verify_sort_plan-IsFaithful sn shape keys plan h = record {
  answers = sort_specs-AllAnswer sn shape [] keys plan.specs (ground arith);
  some_key = λ e. ground arith;
  valid = ground arith;
  schema = (eq_iff shape.base_schema sn.table.schema).0 (ground arith);
  table = (eq_iff shape.base_table sn.table.table).0 (ground arith);
  connection = ground arith;
  dialect = ground arith;
  pool = ground arith;
  generation = ground arith;
}
