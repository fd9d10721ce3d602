-- ===== src/Agent.antt =====
-- The agent's start, cmd/agent/main.go.
mod Defs
mod Components
pub mod First
pub mod Restart
pub mod Shutdown
mod Tests
unfoldable pub use Defs.*
unfoldable pub use Components.*
