-- ===== src/Execution.antt =====
-- The execution pipeline (apps/api/internal/execution): the two ways a query reaches a target
-- database, with the checks before it and the audit after it.
pub mod Codes
pub mod Data
pub mod World
pub mod Audit
pub mod Finish
pub mod Sorting
pub mod Execute
pub mod Query
pub mod NextPage
pub mod Books
pub mod Rules
pub mod Settled
pub mod Before
pub mod After
pub mod Served
pub mod Delivery
pub mod Paged
pub mod Paging
pub mod Spending
pub mod Limits
pub mod Refusing
pub mod Failing
pub mod Tests
