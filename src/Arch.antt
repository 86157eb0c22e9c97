-- ===== src/Arch.antt =====
-- kernel/src/arch/x86_64: the tables of the firmware, the registers of the interrupt controller, and the
-- segment descriptors. The memory that the firmware and the hardware share with the kernel is a
-- function from an address to a byte.
pub mod Acpi
pub mod Apic
pub mod Gdt
pub mod Tests
use navi_os.Base.{ℕ, ◌+◌, ◌*◌, ◌-◌, ◌^◌, ltb, leb, if◌then◌else◌, Outcome, returns, panics}

abbrev pub Bytes : Type 0
Bytes = ℕ → ℕ

-- A word of 32 bits, the low byte first.
abbrev pub u32_at : Bytes → ℕ → ℕ
u32_at mem a = mem a + 2 ^ 8 * mem (a + 1) + 2 ^ 16 * mem (a + 2) + 2 ^ 24 * mem (a + 3)

-- Arithmetic on words of 32 bits, which is checked.
abbrev pub add_u32 : ℕ → ℕ → Outcome ℕ
add_u32 a b = if ltb (a + b) (2 ^ 32) then returns (a + b) else panics

abbrev pub checked_sub : ℕ → ℕ → Outcome ℕ
checked_sub a b = if leb b a then returns (a - b) else panics
