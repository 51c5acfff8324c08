-- ===== src/Pagination.antt =====
-- The continuation registry (apps/api/internal/pagination).
pub mod Config
pub mod State
pub mod Counters
pub mod Entries
pub mod Quota
pub mod Accounting
pub mod Eviction
pub mod Registry
pub mod Limits
pub mod Calls
pub mod Closing
mod Preserve
mod Lineage
mod Waiting
pub mod Retired
pub mod Ownership
mod Created
pub mod Handles
pub mod Rotation
pub mod Tests
