-- ===== src/Arch/Tests.antt =====
-- A small MADT, and registers and descriptors of the hardware.
use navi_os.Base.{◌≡◌, ◌≢◌, ◌==◌, refl, sym, subst, arith, some, returns, if◌then◌else◌}
use navi_os.Arch.{Bytes}
use navi_os.Arch.Acpi.{get_record_of_type, madt_nth}
use navi_os.Arch.Acpi.Records.{IsFirst, record_at, get_record_of_type-record_at}
use navi_os.Arch.Apic.{ioredtbl, lvt_entry, into_regs}
use navi_os.Arch.Gdt

-- A table of 64 bytes at 4096, with a record of type 0 and 8 bytes and one of type 1 and 12 bytes.
abbrev mem : Bytes
mem a =
    if a == 4100
    then 64
    else if a == 4141
    then 8
    else if a == 4148
    then 1
    else if a == 4149
    then 12
    else 0

second : record_at mem 4096 1 ≡ 4148
second = refl

third_call : madt_nth mem 4096 2 ≡ returns (4148, 52)
unfolding madt_nth
third_call = refl

other_type : mem (record_at mem 4096 0) ≢ 1
other_type e = omega (arith, e)

mem-IsFirst : IsFirst mem 4096 1 1
mem-IsFirst = record {
  small = omega (arith, second);
  inside = omega (arith, second);
  others = λ j lt.
      let e : j ≡ 0 = omega (arith, lt) in
      subst (λ i. mem (record_at mem 4096 i) ≢ 1) (sym e) other_type;
  hit = refl;
}

get_record_of_type-record_at_example :
    get_record_of_type 3 mem 4096 1 ≡ some (returns (some (record_at mem 4096 1)))
get_record_of_type-record_at_example =
    get_record_of_type-record_at 3 mem 4096 1 1 mem-IsFirst (omega arith)

-- The upper register has the destination 2 in its highest byte, not 1.
shifted : into_regs (ioredtbl (lvt_entry 0x21 0) 1) ≡ (0x21, 0x2000000)
unfolding into_regs
shifted = refl

-- The base and the limit of a descriptor are spread over its fields.
spread : Gdt.new 0x12345678 0xABCDE 0x9A 0xA0 ≡ record {
  limit0 = 0xBCDE;
  base0 = 0x5678;
  base1 = 0x34;
  access = 0x9A;
  limit1_flags = 0xAA;
  base2 = 0x12;
}
unfolding Gdt.new
spread = refl
