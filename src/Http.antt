-- ===== src/Http.antt =====
-- The answers over HTTP (apps/api/internal/executionhttp).
pub mod Codes
pub mod Texts
pub mod Answer
pub mod Tests
