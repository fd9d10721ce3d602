-- ===== src/Collectors.antt =====
-- The collectors, internal/collectors: what each reports of what the operating system says.
mod Measures
mod Processes
mod Registry
mod Control
pub mod Hiding
pub mod Listing
mod Table
mod Tests
unfoldable pub use Measures.*
unfoldable pub use Processes.*
unfoldable pub use Registry.*
