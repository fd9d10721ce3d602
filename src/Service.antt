-- ===== src/Service.antt =====
-- The services of the platforms, internal/service.
mod Defs
mod Unix
pub mod Manager
pub mod Serving
pub mod Uninstall
pub mod Installing
pub mod Removing
mod Tests
unfoldable pub use Defs.*
unfoldable pub use Unix.*
