-- ===== src/Buffer.antt =====
-- The offline buffer, internal/buffer/buffer.go: its directory, its methods, and their laws.
mod Disk
mod Sort
mod Ops
mod Directory
pub mod Accounting
pub mod Contents
pub mod Sorting
pub mod Pruning
pub mod Oldest
pub mod Store
pub mod Runs
pub mod Bounded
mod Tests
unfoldable pub use Disk.*
unfoldable pub use Sort.*
unfoldable pub use Ops.*
