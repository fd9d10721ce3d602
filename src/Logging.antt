-- ===== src/Logging.antt =====
-- The logger, internal/logging/logger.go, and its adapter, internal/logging/compat.go.
mod Defs
mod Adapter
pub mod Rotation
mod Tests
unfoldable pub use Defs.*
unfoldable pub use Adapter.*
