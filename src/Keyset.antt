-- ===== src/Keyset.antt =====
-- The condition on the next page's rows (apps/api/internal/adapter/keyset.go).
pub mod Build
pub mod Rows
pub mod After
pub mod Order
pub mod Tests
