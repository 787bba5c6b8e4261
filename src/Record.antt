-- ===== src/Record.antt =====
-- The journal of writes (rust/src/ops/record.rs): what a line may not show, the merging of skips, the
-- owners of items.
pub mod Redact
pub mod Clean
pub mod Skips
pub mod Accounted
pub mod Merging
mod Tests
