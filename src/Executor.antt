-- ===== src/Executor.antt =====
-- The executor: its queue, its calls of the device and its liveness clock (rust/src/executor.rs).
pub mod Queue
pub mod Draining
pub mod Liveness
pub mod Calls
pub mod Gate
mod Tests
