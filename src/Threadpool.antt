-- ===== src/Threadpool.antt =====
-- crates/lsio_threadpool/src: the threads that park, the manager that wakes them, and the calls that
-- ask it to.
pub mod State
pub mod ParkManager
pub mod Sharing
pub mod Stealing
pub mod Spawning
pub mod Stopping
pub mod Order
pub mod Wakeups
mod Tests
