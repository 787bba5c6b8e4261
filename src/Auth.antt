-- ===== src/Auth.antt =====
-- The sessions of the web interface (rust/src/auth.rs).
pub mod Bits
pub mod Sessions
pub mod Validity
mod Tests
