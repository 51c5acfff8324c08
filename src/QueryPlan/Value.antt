-- ===== src/QueryPlan/Value.antt =====
-- The values of Go's type `any` that the pagination code copies and measures. A copy is the value
-- itself (`deepCopyAny`, `deepCopySlice`): what copying protects against is a later write through
-- a shared slice or map, and values are not written to.
use web_db.Prelude.{ℕ, Bool, String}

mutual
  pub data Value : Type 0 where
    nil : Value
    boolean : Bool → Value
    text : String → Value
    bytes : ℕ → Value
    number : ℕ → Value
    time : ℕ → Value
    slice : Values → Value
    array : Values → Value
    dictionary : Pairs → Value
    unknown : Value

  pub data Values : Type 0 where
    none : Values
    more : Value → Values → Values

  pub data Pairs : Type 0 where
    end : Pairs
    pair : Value → Value → Pairs → Pairs
