-- ===== src/Scheduler.antt =====
-- The scheduler, internal/scheduler/scheduler.go.
mod Defs
pub mod Jobs
pub mod Serving
pub mod Coverage
pub mod Stopping
mod Tests
unfoldable pub use Defs.*
