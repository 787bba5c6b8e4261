-- ===== src/Blob.antt =====
-- The blob attributes and message frames of ubus (rust/src/ubus/blob.rs).
pub mod Bytes
pub mod Attrs
pub mod Parse
pub mod RoundTrip
pub mod Frame
pub mod Stream
pub mod Values
pub mod Message
pub mod Tests
