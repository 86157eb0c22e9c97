-- ===== src/Arch/Apic.antt =====
-- kernel/src/arch/x86_64/interrupts/apic.rs: the registers of the interrupt controllers. What is written
-- to them is a list of addresses and values, in order.
use navi_os.Base.{
  ℕ, ◌+◌, ◌*◌, ◌/◌, ◌%◌, ◌^◌, Option, none, some, List, [], ◌∷◌, ◌++◌, bit_and, bit_or, ltb,
  if◌then◌else◌, Outcome, returns, panics, ◌>>=◌, unwrap,
}
use navi_os.Memory.{PhysAddr, VirtAddr}
use navi_os.Memory.Paging.{Machine}
use navi_os.Memory.Startup.{identity_map_writeable}
use navi_os.Arch.{Bytes, u32_at}
use navi_os.Arch.Acpi.{get_sdt, madt_get, get_record_of_type}

abbrev pub timer_periodic : ℕ
timer_periodic = 2 ^ 9

-- `reserved` is the byte `_res`.
pub record LvtEntry : Type 0 where
  pub entry : ℕ
  pub flags : ℕ
  pub reserved : ℕ

abbrev pub lvt_entry : ℕ → ℕ → LvtEntry
lvt_entry entry flags = record { entry = entry; flags = flags; reserved = 0 }

-- The bytes of the packed record, the first one lowest.
unfoldable pub encode_u32 : LvtEntry → ℕ
encode_u32 e = e.entry + 2 ^ 8 * e.flags + 2 ^ 24 * e.reserved

-- The reserved bytes are those of the fields `_reserved` and `_reserved1`.
pub record Ioredtbl : Type 0 where
  pub entry : LvtEntry
  pub reserved : ℕ
  pub reserved1 : ℕ
  pub dest : ℕ

abbrev pub ioredtbl : LvtEntry → ℕ → Ioredtbl
ioredtbl entry dest = record { entry = entry; reserved = 0; reserved1 = 0; dest = dest }

unfoldable pub from_regs : ℕ → ℕ → Ioredtbl
from_regs lower higher =
    let combined = bit_or lower (higher * 2 ^ 31) in
    record {
      entry = record {
        entry = combined % 2 ^ 8;
        flags = combined / 2 ^ 8 % 2 ^ 16;
        reserved = combined / 2 ^ 24 % 2 ^ 8;
      };
      reserved = combined / 2 ^ 32 % 2 ^ 16;
      reserved1 = combined / 2 ^ 48 % 2 ^ 8;
      dest = combined / 2 ^ 56 % 2 ^ 8;
    }

unfoldable pub into_regs : Ioredtbl → ℕ × ℕ
unfolding encode_u32
into_regs t =
    let combined =
      encode_u32 t.entry + 2 ^ 32 * t.reserved + 2 ^ 48 * t.reserved1 + 2 ^ 56 * t.dest in
    (combined % 2 ^ 32, combined / 2 ^ 31 % 2 ^ 32)

abbrev pub Writes : Type 0
Writes = List (VirtAddr × ℕ)

abbrev pub write_ioapic_val_to_reg : VirtAddr → ℕ → ℕ → Writes
write_ioapic_val_to_reg ioapic_addr reg val = (ioapic_addr, reg) ∷ (ioapic_addr + 0x10, val) ∷ []

-- The number of the register is a byte, whose overflow is a panic.
unfoldable pub write_ioapic_irq : VirtAddr → ℕ → Ioredtbl → Outcome Writes
unfolding into_regs
write_ioapic_irq ioapic_addr n table =
    let offset1 = 0x10 + n * 2 in
    let regs = into_regs table in
    if ltb (offset1 + 1) (2 ^ 8)
    then returns (
        write_ioapic_val_to_reg ioapic_addr offset1 regs.0
        ++ write_ioapic_val_to_reg ioapic_addr (offset1 + 1) regs.1)
    else panics

unfoldable pub enable_apic_keyboard : VirtAddr → ℕ → Outcome Writes
unfolding write_ioapic_irq
enable_apic_keyboard ioapic_addr apic_id =
    write_ioapic_irq ioapic_addr 1 (ioredtbl (lvt_entry 0x21 0) apic_id)

abbrev pub get_local_apic_reg : VirtAddr → ℕ → VirtAddr
get_local_apic_reg local_apic_addr reg = local_apic_addr + reg

unfoldable pub enable_apic_timer : VirtAddr → Writes
unfolding encode_u32
enable_apic_timer local_apic_addr =
    (get_local_apic_reg local_apic_addr 0x320, encode_u32 (lvt_entry 0x20 timer_periodic))
    ∷ (get_local_apic_reg local_apic_addr 0x3E0, 0xB)
    ∷ (get_local_apic_reg local_apic_addr 0x380, 0xFFFFFF)
    ∷ []

-- `msr` is the value of the register 0x1B.
unfoldable pub get_local_apic_addr : Machine → PhysAddr → ℕ → Outcome (Machine × VirtAddr)
get_local_apic_addr m root msr =
    let address = bit_and msr 0xFFFFF000 in
    identity_map_writeable m root address >>= λ m'. returns (m', address)

unfoldable pub send_eoi : Machine → PhysAddr → ℕ → Outcome (Machine × Writes)
unfolding get_local_apic_addr
send_eoi m root msr =
    get_local_apic_addr m root msr >>= λ r. returns (r.0, (get_local_apic_reg r.1 0xB0, 0) ∷ [])

-- The field `ioapic_address` of a record of type 1, whose page is mapped.
unfoldable pub io_apic_at :
    Bytes → Machine → PhysAddr → Option PhysAddr → Outcome (Machine × VirtAddr)
io_apic_at mem m root found = unwrap found >>= λ entry.
    let addr = u32_at mem (entry + 4) in
    identity_map_writeable m root addr >>= λ m'. returns (m', addr)

abbrev searched :
    Bytes
    → Machine
    → PhysAddr
    → Option (Outcome (Option PhysAddr))
    → Option (Outcome (Machine × VirtAddr))
searched mem m root none = none
searched mem m root (some found) = some (found >>= io_apic_at mem m root)

unfoldable pub get_io_apic_addr :
    ℕ → Bytes → Machine → PhysAddr → PhysAddr → Option (Outcome (Machine × VirtAddr))
unfolding io_apic_at get_record_of_type
get_io_apic_addr fuel mem m root madt = searched mem m root (get_record_of_type fuel mem madt 1)

abbrev enabled :
    Bytes → VirtAddr → Option (Outcome (Machine × VirtAddr)) → Option (Outcome (Machine × Writes))
enabled mem local_apic_addr none = none
enabled mem local_apic_addr (some r) = some (
    r >>= λ io.
    enable_apic_keyboard io.1 (mem (get_local_apic_reg local_apic_addr 0x20)) >>= λ keyboard.
    returns (
      io.0,
      (get_local_apic_reg local_apic_addr 0xF0, 0x1FF)
          ∷ (enable_apic_timer local_apic_addr ++ keyboard),
    ))

abbrev on_tables :
    ℕ
    → Bytes
    → PhysAddr
    → Outcome ((Machine × PhysAddr) × VirtAddr)
    → Option (Outcome (Machine × Writes))
on_tables fuel mem root panics = some panics
on_tables fuel mem root (returns ((m, madt), local_apic_addr)) =
    enabled mem local_apic_addr (get_io_apic_addr fuel mem m root madt)

-- The fuel is that of the search in the MADT.
unfoldable pub enable_apic_interrupts :
    ℕ → Bytes → Machine → PhysAddr → Option PhysAddr → ℕ → Option (Outcome (Machine × Writes))
unfolding get_local_apic_addr get_sdt get_io_apic_addr enable_apic_timer enable_apic_keyboard
enable_apic_interrupts fuel mem m root rsdp_addr msr = on_tables fuel mem root (
    get_local_apic_addr m root msr >>= λ l. get_sdt mem l.0 root rsdp_addr >>= λ sdt.
    madt_get mem sdt.0 root sdt.1 >>= λ madt. returns (madt, l.1))
