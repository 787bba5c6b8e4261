-- ===== src/Txn.antt =====
-- The transaction state machine of the write layer (rust/src/ops/txn.rs).
pub mod Types
pub mod Ops
pub mod Resume
pub mod Judge
pub mod Verdict
pub mod Shape
pub mod Machine
pub mod Final
pub mod Rollback
pub mod Evidence
pub mod Deadline
pub mod Probes
pub mod Restarts
pub mod Table
pub mod Tests
