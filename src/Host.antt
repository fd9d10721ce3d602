-- ===== src/Host.antt =====
-- The parts of package os that the agent's components share: files by path, with the failures
-- that a call may meet, and the environment.
mod Files
pub mod Laws
unfoldable pub use Files.*
