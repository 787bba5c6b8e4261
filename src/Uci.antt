-- ===== src/Uci.antt =====
-- The reader of UCI configuration files (rust/src/uci.rs).
pub mod Lexer
pub mod Strings
pub mod Parser
pub mod Show
pub mod Room
pub mod Ending
pub mod Words
pub mod Sound
pub mod Sections
pub mod Ends
pub mod Files
pub mod Package
pub mod Stored
mod Tests
pub mod Quoting
pub mod RoundTrip
