-- ===== src/Ops.antt =====
-- The operations of crates/lsio_uring: their state, the world they act on, and their handlers.
pub mod State
pub mod Close
pub mod GetRange
pub mod GetRanges
pub mod Dispatch
pub mod Observed
pub mod Limits
pub mod Messages
pub mod Reading
pub mod Opening
pub mod Completions
pub mod Expected
pub mod Finished
pub mod Handled
pub mod Accounts
pub mod Silent
pub mod Submitted
pub mod Sample
mod Tests
