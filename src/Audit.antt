-- ===== src/Audit.antt =====
-- The audit log, internal/logging/audit.go.
mod Defs
pub mod Appending
mod Tests
unfoldable pub use Defs.*
