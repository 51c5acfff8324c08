-- ===== src/QueryPlan.antt =====
-- Sort plans and their proofs of uniqueness (apps/api/internal/queryplan).
pub mod Types
pub mod Value
pub mod Shape
pub mod Plan
pub mod NextPage
pub mod Tests
