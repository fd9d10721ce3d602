-- ===== src/Config.antt =====
-- The agent's configuration, internal/config/config.go and internal/config/errors.go.
mod Defs
pub mod Laws
mod Tests
unfoldable pub use Defs.*
