-- ===== src/Gpu.antt =====
-- The graphics cards, internal/collectors/gpu.
mod Defs
pub mod Parsing
pub mod Indices
mod Tests
unfoldable pub use Defs.*
