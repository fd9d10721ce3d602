-- ===== src/Policy.antt =====
-- The policy engine, internal/policy/policy.go.
mod Defs
pub mod Refreshing
mod Tests
unfoldable pub use Defs.*
