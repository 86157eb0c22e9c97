-- ===== src/Drivers.antt =====
-- kernel/src/drivers: the keyboard and the characters of its keys.
pub mod Keyboard
pub mod Keymapper
