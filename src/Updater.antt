-- ===== src/Updater.antt =====
-- The updater, internal/updater/updater.go.
mod Defs
mod Ops
mod Making
pub mod Renaming
pub mod Install
pub mod Verify
pub mod Apply
pub mod Perform
mod Tests
unfoldable pub use Defs.*
unfoldable pub use Ops.*
unfoldable pub use Making.*
