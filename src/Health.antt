-- ===== src/Health.antt =====
-- The health monitor, internal/health/health.go.
mod Defs
pub mod Beating
mod Tests
unfoldable pub use Defs.*
