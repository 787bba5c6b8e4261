-- ===== src/Hub.antt =====
-- The blocks of the /v2 state, their events and sequence numbers (rust/src/block.rs).
pub mod Blocks
pub mod Publishing
pub mod Reads
pub mod Rounds
pub mod Replay
pub mod Sweeps
pub mod Copies
pub mod Observed
pub mod Mirror
pub mod Recent
mod Tests
