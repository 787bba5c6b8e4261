-- ===== src/Control.antt =====
-- The actions of `/control` (rust/src/control.rs): what each checks of its parameters, and which calls
-- of the device it makes in which order.
pub mod Program
pub mod Params
pub mod Network
pub mod Power
pub mod Usb
pub mod Wifi
pub mod Vendor
pub mod Execute
pub mod Runs
pub mod Listed
pub mod Permitted
mod Tests
