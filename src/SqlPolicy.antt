-- ===== src/SqlPolicy.antt =====
-- The SQL policy (apps/api/internal/sqlpolicy).
pub mod Types
pub mod Text
pub mod EcmLexer
pub mod Classifier
pub mod SessionMode
pub mod Placeholder
pub mod Policy
pub mod Tests
