-- ===== src/Memory.antt =====
-- kernel/src/memory/mod.rs: the types and the address arithmetic of the memory module. `usize`
-- has 64 bits, and its sums and differences wrap round.
pub mod Address
pub mod Frames
pub mod Heap
pub mod Paging
pub mod Startup
pub mod Tests
use navi_os.Base.{ℕ, ◌+◌, ◌-◌, ◌*◌, ◌%◌, ◌^◌, bit_and}
use navi_os.Base.Bits.{shr}

abbrev pub usize_mod : ℕ
usize_mod = 2 ^ 64

abbrev pub usize_add : ℕ → ℕ → ℕ
usize_add a b = (a + b) % usize_mod

abbrev pub usize_sub : ℕ → ℕ → ℕ
usize_sub a b = (a + usize_mod - b) % usize_mod

abbrev pub usize_not : ℕ → ℕ
usize_not a = usize_mod - 1 - a

abbrev pub PhysAddr : Type 0
PhysAddr = ℕ

abbrev pub VirtAddr : Type 0
VirtAddr = ℕ

abbrev pub page_size : ℕ
page_size = 4096

unfoldable pub align_up : ℕ → ℕ → ℕ
align_up address alignment =
    bit_and (usize_sub (usize_add address alignment) 1) (usize_not (usize_sub alignment 1))

unfoldable pub align_down : ℕ → ℕ → ℕ
align_down x alignment = bit_and x (usize_not (usize_sub alignment 1))

unfoldable pub p4_index : VirtAddr → ℕ
p4_index addr = bit_and (shr addr 39) 0x1FF

unfoldable pub p3_index : VirtAddr → ℕ
p3_index addr = bit_and (shr addr 30) 0x1FF

unfoldable pub p2_index : VirtAddr → ℕ
p2_index addr = bit_and (shr addr 21) 0x1FF

unfoldable pub p1_index : VirtAddr → ℕ
p1_index addr = bit_and (shr addr 12) 0x1FF

-- The offset in the page, then the indices into the tables of levels 1 to 4.
unfoldable pub translate : VirtAddr → PhysAddr × ℕ × ℕ × ℕ × ℕ
unfolding p1_index p2_index p3_index p4_index
translate addr = (bit_and addr 0xFFF, p1_index addr, p2_index addr, p3_index addr, p4_index addr)
