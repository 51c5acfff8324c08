-- ===== src/QueryPlan/Types.antt =====
-- queryplan/types.go and the snapshot of queryplan/schema.go. A name is a text; a nil pointer is
-- `none`. Copies that keep a caller from changing the plan have no part here: values do not change.
use web_db.Prelude.{
  ◌>>=◌, ◌>>◌, ℕ, ◌+◌, ℤ, Bool, true, false, not, ◌&&◌, ◌||◌, String, List, [], ◌∷◌, ◌++◌, map,
  Option, none, some, Bytes, leb, ltb, ◌==◌, if◌then◌else◌, str_eq, codes, bytes_eq, length,
  is_negative, Result, ok, err,
}

pub data Dialect : Type 0 where
  postgresql my_sql other_dialect : Dialect

pub data SortDirection : Type 0 where
  asc desc other_direction : SortDirection

pub record SortKey : Type 0 where
  pub column : String
  pub direction : SortDirection
  pub nulls_last : Bool

pub record Column : Type 0 where
  pub name : String
  pub ordinal : ℕ
  pub nullable : Bool

pub record UniqueConstraint : Type 0 where
  pub name : String
  pub columns : List String

pub record TableMetadata : Type 0 where
  pub schema : String
  pub table : String
  pub columns : List Column
  pub primary_key : Option (List String)
  pub unique_constraints : List UniqueConstraint

pub data PlanError : Type 0 where
  bad_ident no_columns bad_ordinal duplicate_column empty_key unknown_column : PlanError
  no_constraint_name empty_connection unknown_dialect bad_generation empty_generation : PlanError
  nil_snapshot nil_shape no_exposed_columns table_mismatch no_sort_keys bad_direction : PlanError
  duplicate_sort_column not_exposed computed_column not_base_column : PlanError
  no_unique_key not_covered : PlanError
  invalid_sort_plan empty_specs empty_sql bad_page_size bad_max_rows bad_count value_count :
      PlanError

abbrev pub ensure : Bool → PlanError → Result PlanError (Unit {0})
ensure true e = ok tt
ensure false e = err e

is_letter : ℕ → Bool
is_letter c = (leb b'a' c && leb c b'z') || (leb b'A' c && leb c b'Z') || c == b'_'

is_ident_rest : Bytes → Bool
unfolding is_letter
is_ident_rest [] = true
is_ident_rest (c ∷ cs) = (is_letter c || (leb b'0' c && leb c b'9')) && is_ident_rest cs

-- `validateIdent`. Any accepted text is ASCII, so that its code points are its bytes.
unfoldable pub valid_ident : String → Bool
unfolding is_letter is_ident_rest
valid_ident s = elim (codes s) [
  | [] ↦ false
  | c ∷ cs ↦ leb (length (c ∷ cs)) 63 && (is_letter c && is_ident_rest cs)
]

unfoldable pub contains : List String → String → Bool
contains [] s = false
contains (t ∷ ts) s = str_eq t s || contains ts s

-- The loop over the columns; `seen` is `colSet`.
unfoldable pub check_columns : List String → List Column → Result PlanError (List String)
unfolding contains
check_columns seen [] = ok seen
check_columns seen (c ∷ cs) =
    let rest = check_columns (c.name ∷ seen) cs in
    do
      ensure (valid_ident c.name) bad_ident
      ensure (ltb 0 c.ordinal) bad_ordinal
      ensure (not (contains seen c.name)) duplicate_column
      rest

unfoldable pub check_key_columns : List String → List String → Result PlanError (Unit {0})
unfolding contains
check_key_columns seen [] = ok tt
check_key_columns seen (n ∷ ns) =
    let rest = check_key_columns seen ns in do ensure (contains seen n) unknown_column; rest

unfoldable pub check_primary_key : List String → Option (List String) → Result PlanError (Unit {0})
unfolding check_key_columns
check_primary_key seen none = ok tt
check_primary_key seen (some []) = err empty_key
check_primary_key seen (some (n ∷ ns)) = check_key_columns seen (n ∷ ns)

unfoldable pub check_uniques : List String → List UniqueConstraint → Result PlanError (Unit {0})
unfolding check_key_columns
check_uniques seen [] = ok tt
check_uniques seen (u ∷ us) =
    let rest = check_uniques seen us in
    do
      ensure (not (str_eq u.name "")) no_constraint_name
      ensure (ltb 0 (length u.columns)) empty_key
      check_key_columns seen u.columns
      rest

-- `(*TableMetadata).Validate`
unfoldable pub validate_table : TableMetadata → Result PlanError (Unit {0})
unfolding check_columns check_primary_key check_uniques
validate_table m = do
  ensure (valid_ident m.schema) bad_ident
  ensure (valid_ident m.table) bad_ident
  ensure (ltb 0 (length m.columns)) no_columns
  seen ← check_columns [] m.columns
  check_primary_key seen m.primary_key
  check_uniques seen m.unique_constraints

lower : ℕ → ℕ
lower c = if leb b'A' c && leb c b'Z' then c + 32 else c

-- `strings.EqualFold`, on the ASCII names that `valid_ident` lets through.
unfoldable pub equal_fold : String → String → Bool
unfolding lower
equal_fold a b = bytes_eq (map lower (codes a)) (map lower (codes b))

unfoldable pub identifiers_equal : Dialect → String → String → Bool
unfolding equal_fold
identifiers_equal my_sql a b = equal_fold a b
identifiers_equal postgresql a b = str_eq a b
identifiers_equal other_dialect a b = str_eq a b

unfoldable pub is_not_null_column : Dialect → List Column → String → Bool
is_not_null_column d [] n = false
is_not_null_column d (c ∷ cs) n =
    if identifiers_equal d c.name n then not c.nullable else is_not_null_column d cs n

unfoldable pub constraint_columns_not_null : Dialect → List Column → List String → Bool
constraint_columns_not_null d cs [] = true
constraint_columns_not_null d cs (n ∷ ns) =
    is_not_null_column d cs n && constraint_columns_not_null d cs ns

-- The proofs' `kind` is never read.
unfoldable pub unique_proofs : Dialect → List Column → List UniqueConstraint → List (List String)
unfolding constraint_columns_not_null
unique_proofs d cs [] = []
unique_proofs d cs (u ∷ us) =
    if constraint_columns_not_null d cs u.columns
    then u.columns ∷ unique_proofs d cs us
    else unique_proofs d cs us

unfoldable pub primary_proof : Dialect → List Column → Option (List String) → List (List String)
unfolding constraint_columns_not_null
primary_proof d cs none = []
primary_proof d cs (some ns) = if constraint_columns_not_null d cs ns then ns ∷ [] else []

unfoldable pub find_unique_proofs : Dialect → TableMetadata → List (List String)
unfolding unique_proofs primary_proof
find_unique_proofs d m =
    primary_proof d m.columns m.primary_key ++ unique_proofs d m.columns m.unique_constraints

pub record SchemaSnapshot : Type 0 where
  pub connection_id : String
  pub dialect : Dialect
  pub pool_generation : ℤ
  pub schema_generation : String
  pub table : TableMetadata

abbrev pub is_known : Dialect → Bool
is_known other_dialect = false
is_known _ = true

-- `(*SchemaSnapshot).Validate`
unfoldable pub validate_snapshot : SchemaSnapshot → Result PlanError (Unit {0})
unfolding validate_table
validate_snapshot s = do
  ensure (not (str_eq s.connection_id "")) empty_connection
  ensure (is_known s.dialect) unknown_dialect
  ensure (not (is_negative s.pool_generation)) bad_generation
  ensure (not (str_eq s.schema_generation "")) empty_generation
  validate_table s.table
