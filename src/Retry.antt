-- ===== src/Retry.antt =====
-- Retries with exponential backoff, internal/identity/retry.go: the loop, the delays, their laws.
mod Loop
mod Delay
pub mod Outcomes
pub mod Bounds
mod Tests
unfoldable pub use Loop.*
unfoldable pub use Delay.*
