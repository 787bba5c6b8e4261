-- ===== src/Engine.antt =====
-- The engine of write transactions (rust/src/ops/engine.rs).
pub mod State
pub mod Active
pub mod Submit
pub mod Drive
pub mod Legacy
pub mod Sessions
pub mod Steps
pub mod Stored
pub mod Invariant
pub mod Calls
pub mod Changes
pub mod Submitting
pub mod Life
pub mod Writes
pub mod Rollbacks
mod Tests
pub mod Refusals
pub mod Crash
