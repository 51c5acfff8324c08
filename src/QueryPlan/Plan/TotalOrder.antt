-- ===== src/QueryPlan/Plan/TotalOrder.antt =====
-- Why a verified sort plan gives pages that neither repeat nor lose rows: rows that agree on the
-- plan's sort columns are one row.
use web_db.Prelude.{
  ◌≡◌, ◌≢◌, refl, sym, ◌∙◌, inl, inr, true, false, String, List, [], ◌∷◌, ◌++◌, Option, none, some,
  ok, arith, Bool-cases, In, All,
}
use web_db.QueryPlan.Types.{
  Dialect, Column, UniqueConstraint, TableMetadata, SchemaSnapshot, SortKey, identifiers_equal,
  is_not_null_column, constraint_columns_not_null, unique_proofs, primary_proof, find_unique_proofs,
}
use web_db.QueryPlan.Shape.{QueryShape}
use web_db.QueryPlan.Plan.{
  VerifiedSortPlan, covers_column, sort_columns_cover_proof, any_covered, base_columns,
  verify_present, verify_sort_plan,
}

-- A row gives each column name a value, or `none` for NULL.
abbrev pub Row {ℓ} : Type ℓ → Type ℓ
Row V = String → Option V

abbrev pub Agree {ℓ} : {V : Type ℓ} → List String → Row V → Row V → Type ℓ
Agree names r s = All (λ n. r n ≡ s n) names

abbrev pub NonNull {ℓ} : {V : Type ℓ} → List String → Row V → Type ℓ
NonNull names r = All (λ n. r n ≢ none) names

-- What the database guarantees of the rows of a table with such metadata.
pub record Satisfies {ℓ} {V : Type ℓ} (d : Dialect) (t : TableMetadata) (IsRow : Row V → Type ℓ)
    : Type ℓ where
  pub reads_names :
      (r : Row V) (a b : String) → IsRow r → identifiers_equal d a b ≡ true → r a ≡ r b
  pub not_null :
      (r : Row V) (c : Column) → IsRow r → In c t.columns → c.nullable ≡ false → r c.name ≢ none
  pub primary :
      (ks : List String) (r s : Row V)
      → t.primary_key ≡ some ks
      → IsRow r
      → IsRow s
      → NonNull ks r
      → Agree ks r s
      → r ≡ s
  pub unique :
      (u : UniqueConstraint) (r s : Row V)
      → In u t.unique_constraints
      → IsRow r
      → IsRow s
      → NonNull u.columns r
      → Agree u.columns r s
      → r ≡ s

module _ {ℓ} {V : Type ℓ} (d : Dialect) (t : TableMetadata) (IsRow : Row V → Type ℓ)
    (sat : Satisfies d t IsRow) (r s : Row V) (is_r : IsRow r) (is_s : IsRow s) where
  -- Rows that agree on the names `p` and have no NULL there are one row.
  abbrev IsKey : List String → Type ℓ
  IsKey p = Agree p r s → r ≡ s

  not_null_name :
      (cs : List Column) (n : String)
      → ((c : Column) → In c cs → In c t.columns)
      → is_not_null_column d cs n ≡ true
      → r n ≢ none
  unfolding is_not_null_column
  not_null_name [] n sub h = absurd (ground arith)
  not_null_name (c ∷ cs) n sub h = elim (Bool-cases (identifiers_equal d c.name n)) [
    | inl e ↦ (λ q.
        sat.not_null r c is_r (sub c (inl refl)) (ground arith)
          (sat.reads_names r c.name n is_r e ∙ q))
    | inr e ↦ not_null_name cs n (λ x i. sub x (inr i)) (rw e at h)
  ]

  NonNull-of_constraint :
      (p : List String) → constraint_columns_not_null d t.columns p ≡ true → NonNull p r
  unfolding constraint_columns_not_null
  NonNull-of_constraint [] h = tt
  NonNull-of_constraint (n ∷ ns) h =
      (not_null_name t.columns n (λ c i. i) (ground arith), NonNull-of_constraint ns (ground arith))

  unique_proofs-IsKey :
      (us : List UniqueConstraint)
      → ((u : UniqueConstraint) → In u us → In u t.unique_constraints)
      → All IsKey (unique_proofs d t.columns us)
  unfolding unique_proofs
  unique_proofs-IsKey [] sub = tt
  unique_proofs-IsKey (u ∷ us) sub =
      elim (Bool-cases (constraint_columns_not_null d t.columns u.columns)) [
        | inl e ↦ rw e (
          λ agree.
              sat.unique u r s (sub u (inl refl)) is_r is_s (NonNull-of_constraint u.columns e)
                agree,
          unique_proofs-IsKey us (λ x i. sub x (inr i)),
        )
        | inr e ↦ rw e (unique_proofs-IsKey us (λ x i. sub x (inr i)))
      ]

  primary_proof-IsKey :
      (pk : Option (List String)) → t.primary_key ≡ pk → All IsKey (primary_proof d t.columns pk)
  unfolding primary_proof
  primary_proof-IsKey none e = tt
  primary_proof-IsKey (some ns) e = elim (Bool-cases (constraint_columns_not_null d t.columns ns)) [
    | inl nn ↦
        rw nn (λ agree. sat.primary ns r s e is_r is_s (NonNull-of_constraint ns nn) agree, tt)
    | inr nn ↦ rw nn tt
  ]

  All-append : (ps qs : List (List String)) → All IsKey ps → All IsKey qs → All IsKey (ps ++ qs)
  All-append [] qs h g = g
  All-append (p ∷ ps) qs h g = (h.0, All-append ps qs h.1 g)

  Agree-by_cover :
      (bcs : List String) (pc : String)
      → Agree bcs r s
      → covers_column d bcs pc ≡ true
      → r pc ≡ s pc
  unfolding covers_column
  Agree-by_cover [] pc a h = absurd (ground arith)
  Agree-by_cover (bc ∷ bcs) pc a h = elim (Bool-cases (identifiers_equal d bc pc)) [
    | inl e ↦ sym (sat.reads_names r bc pc is_r e) ∙ a.0 ∙ sat.reads_names s bc pc is_s e
    | inr e ↦ Agree-by_cover bcs pc a.1 (rw e at h)
  ]

  Agree-of_cover :
      (bcs p : List String) → Agree bcs r s → sort_columns_cover_proof d bcs p ≡ true → Agree p r s
  unfolding sort_columns_cover_proof
  Agree-of_cover bcs [] a h = tt
  Agree-of_cover bcs (pc ∷ p) a h =
      (Agree-by_cover bcs pc a (ground arith), Agree-of_cover bcs p a (ground arith))

  any_covered-eq :
      (bcs : List String) (ps : List (List String))
      → All IsKey ps
      → Agree bcs r s
      → any_covered d bcs ps ≡ true
      → r ≡ s
  unfolding any_covered
  any_covered-eq bcs [] k a h = absurd (ground arith)
  any_covered-eq bcs (p ∷ ps) k a h = elim (Bool-cases (sort_columns_cover_proof d bcs p)) [
    | inl e ↦ k.0 (Agree-of_cover bcs p a e)
    | inr e ↦ any_covered-eq bcs ps k.1 a (rw e at h)
  ]

  covered-eq :
      (bcs : List String)
      → Agree bcs r s
      → any_covered d bcs (find_unique_proofs d t) ≡ true
      → r ≡ s
  unfolding find_unique_proofs
  covered-eq bcs a h =
      any_covered-eq bcs _
        (All-append (primary_proof d t.columns t.primary_key) _
          (primary_proof-IsKey t.primary_key refl)
          (unique_proofs-IsKey t.unique_constraints (λ u i. i)))
        a h

verify_present-covered :
    (sn : SchemaSnapshot) (sh : QueryShape) (keys : List SortKey) {plan : VerifiedSortPlan}
    → verify_present sn sh keys ≡ ok plan
    → any_covered sn.dialect (base_columns plan.specs) (find_unique_proofs sn.dialect sn.table)
      ≡ true
unfolding verify_present
verify_present-covered sn sh keys h = ground arith

-- If a plan is verified, and the database keeps the declared keys of the snapshot's table, then
-- two rows that agree on the base columns of the plan's sort specs are the same row.
pub verify_sort_plan-total :
    (sn : SchemaSnapshot) (shape : QueryShape) (keys : List SortKey) (plan : VerifiedSortPlan)
    {V : Type 0} (IsRow : Row V → Type 0) (r s : Row V)
    → verify_sort_plan (some sn) (some shape) keys ≡ ok plan
    → Satisfies sn.dialect sn.table IsRow
    → IsRow r
    → IsRow s
    → Agree (base_columns plan.specs) r s
    → r ≡ s
unfolding verify_sort_plan
verify_sort_plan-total sn shape keys plan IsRow r s h sat is_r is_s agree =
    covered-eq sn.dialect sn.table IsRow sat r s is_r is_s (base_columns plan.specs) agree
      (verify_present-covered sn shape keys h)
