-- ===== src/CellWindow.antt =====
-- The packet counts of the cellular interface over the last half minute
-- (rust/src/cell_window.rs). The oldest sample of a ring stands first.
pub mod Ring
pub mod Window
pub mod Tests
