-- ===== src/Identity.antt =====
-- The agent's identity and its bootstrap, internal/identity/bootstrap.go.
mod Defs
mod Bootstrap
mod Deprecated
pub mod Rotation
pub mod Saving
pub mod Enrolment
pub mod Tests
unfoldable pub use Defs.*
unfoldable pub use Bootstrap.*
unfoldable pub use Deprecated.*
