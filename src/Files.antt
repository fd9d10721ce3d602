-- ===== src/Files.antt =====
-- File operations, internal/collectors/fs.
mod Ops
mod Walk
mod Tree
pub mod Moving
pub mod Ignoring
pub mod Scanning
mod Placing
pub mod Mirroring
pub mod Building
pub mod Whole
mod Tests
unfoldable pub use Ops.*
unfoldable pub use Walk.*
unfoldable pub use Tree.*
