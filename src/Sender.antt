-- ===== src/Sender.antt =====
-- The telemetry sender, internal/sender/sender.go: its state and operations, and their laws.
mod Defs
mod Ops
mod Making
pub mod Attempts
pub mod Flush
pub mod Drain
pub mod Duplicates
pub mod Queue
mod Tests
unfoldable pub use Defs.*
unfoldable pub use Ops.*
unfoldable pub use Making.*
