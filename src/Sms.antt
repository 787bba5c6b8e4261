-- ===== src/Sms.antt =====
-- Short messages (rust/src/sms.rs).
pub mod Listing
pub mod Found
pub mod Bodies
pub mod Seeing
pub mod Complete
mod Tests
