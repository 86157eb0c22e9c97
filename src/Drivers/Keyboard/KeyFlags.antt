-- ===== src/Drivers/Keyboard/KeyFlags.antt =====
-- `KeyFlags` of kernel/src/drivers/keyboard.rs: the bits of a byte.
use navi_os.Base.{ℕ}

abbrev pub ctrl : ℕ
ctrl = 1

abbrev pub alt : ℕ
alt = 2

abbrev pub shift : ℕ
shift = 4

abbrev pub caps_lock : ℕ
caps_lock = 8
