-- ===== src/Arch/Acpi.antt =====
-- kernel/src/arch/x86_64/acpi.rs: the tables RSDP, RSDT and MADT. A table is its address. The loop over
-- the records of the MADT runs on fuel, and `none` is a loop that has not ended.
pub mod Records
use navi_os.Base.{
  ℕ, zero, suc, ◌+◌, ◌*◌, ◌-◌, ◌/◌, ◌%◌, ◌^◌, ◌==◌, Bool, true, false, Option, none, some, List, [],
  ◌∷◌, bytes_eq, leb, if◌then◌else◌, Outcome, returns, panics, ◌>>=◌, unwrap,
}
use navi_os.Memory.{PhysAddr}
use navi_os.Memory.Paging.{Machine}
use navi_os.Memory.Startup.{identity_map_present}
use navi_os.Arch.{Bytes, u32_at, add_u32, checked_sub}

-- `size_of` of `RSDPDesc`, of `ACPIHeader`, which is that of `RSDT`, and of `MADT`.
abbrev pub rsdp_size : ℕ
rsdp_size = 36

abbrev pub header_size : ℕ
header_size = 36

abbrev pub madt_size : ℕ
madt_size = 44

abbrev sum_bytes : Bytes → ℕ → ℕ → ℕ
sum_bytes mem a zero = 0
sum_bytes mem a (suc n) = mem a + sum_bytes mem (a + 1) n

unfoldable pub vaildate : Bytes → PhysAddr → Bool
vaildate mem rsdp = sum_bytes mem rsdp rsdp_size % 2 ^ 8 == 0

abbrev pub signatrue : Bytes → PhysAddr → List ℕ
signatrue mem table = mem table ∷ mem (table + 1) ∷ mem (table + 2) ∷ mem (table + 3) ∷ []

abbrev pub len : Bytes → PhysAddr → ℕ
len mem table = u32_at mem (table + 4)

unfoldable pub count : Bytes → PhysAddr → Outcome ℕ
count mem table = checked_sub (len mem table) header_size >>= λ bytes. returns (bytes / 4)

-- The table that an entry of the RSDT points to, whose page is mapped, and the entry's offset.
unfoldable pub rsdt_nth :
    Bytes → Machine → PhysAddr → PhysAddr → ℕ → Outcome (Machine × (PhysAddr × ℕ))
rsdt_nth mem m root table n =
    let offset = header_size + n * 4 in
    let addr = u32_at mem (table + offset) in
    identity_map_present m root addr >>= λ m'. returns (m', (addr, offset % 2 ^ 32))

-- The loop over the entries, `left` of which are to come.
unfoldable pub entry_loop :
    ℕ → ℕ → Bytes → Machine → PhysAddr → PhysAddr → List ℕ → Outcome (Machine × Option PhysAddr)
unfolding rsdt_nth
entry_loop zero i mem m root table sig = returns (m, none)
entry_loop (suc left) i mem m root table sig = rsdt_nth mem m root table i >>= λ r.
    (if bytes_eq (signatrue mem r.1.0) sig
      then returns (r.0, some r.1.0)
      else entry_loop left (suc i) mem r.0 root table sig)

unfoldable pub get_entry_of_signatrue :
    Bytes → Machine → PhysAddr → PhysAddr → List ℕ → Outcome (Machine × Option PhysAddr)
unfolding entry_loop count
get_entry_of_signatrue mem m root table sig =
    count mem table >>= λ n. entry_loop n 0 mem m root table sig

-- The first record of the MADT, and its offset.
unfoldable pub first_record : PhysAddr → Outcome (PhysAddr × ℕ)
first_record addr =
    let base = addr + madt_size in
    checked_sub (base % 2 ^ 32) (addr % 2 ^ 32) >>= λ offset. returns (base, offset)

-- From a record, as many records on. The byte behind the type of a record is its length.
unfoldable pub record_loop : ℕ → Bytes → PhysAddr → Outcome PhysAddr
record_loop zero mem record_addr = returns record_addr
record_loop (suc left) mem record_addr =
    add_u32 record_addr (mem (record_addr + 1)) >>= λ next. record_loop left mem next

-- `nth` of the MADT: the loop has the range `1..n - 1`.
unfoldable pub madt_nth : Bytes → PhysAddr → ℕ → Outcome (PhysAddr × ℕ)
unfolding first_record record_loop
madt_nth mem addr zero = first_record addr
madt_nth mem addr (suc n) = do
  first ← first_record addr
  second ← add_u32 (first.0 % 2 ^ 32) (mem (first.0 + 1))
  last ← record_loop (suc n - 1 - 1) mem second
  offset ← checked_sub last (addr % 2 ^ 32)
  returns (last, offset)

abbrev pub visit :
    Outcome (PhysAddr × ℕ)
    → (PhysAddr → ℕ → Option (Outcome (Option PhysAddr)))
    → Option (Outcome (Option PhysAddr))
visit panics f = some panics
visit (returns (ptr, offset)) f = f ptr offset

unfoldable pub find_record : ℕ → Bytes → PhysAddr → ℕ → ℕ → ℕ → Option (Outcome (Option PhysAddr))
unfolding madt_nth
find_record zero mem addr ty current_offset i = none
find_record (suc fuel) mem addr ty current_offset i =
    if leb current_offset (len mem addr)
    then visit (madt_nth mem addr i) (λ ptr offset.
      if mem ptr == ty
      then some (returns (some ptr))
      else find_record fuel mem addr ty offset (suc i))
    else some (returns none)

unfoldable pub get_record_of_type : ℕ → Bytes → PhysAddr → ℕ → Option (Outcome (Option PhysAddr))
unfolding find_record
get_record_of_type fuel mem addr ty = find_record fuel mem addr ty 0 0

-- `get` of the FADT and of the MADT.
unfoldable pub get_table :
    Bytes → Machine → PhysAddr → PhysAddr → List ℕ → Outcome (Machine × PhysAddr)
unfolding get_entry_of_signatrue
get_table mem m root sdt sig = get_entry_of_signatrue mem m root sdt sig >>= λ r.
    unwrap (r.1) >>= λ table. returns (r.0, table)

abbrev pub fadt_get : Bytes → Machine → PhysAddr → PhysAddr → Outcome (Machine × PhysAddr)
fadt_get mem m root sdt = get_table mem m root sdt (b'F' ∷ b'A' ∷ b'C' ∷ b'P' ∷ [])

abbrev pub madt_get : Bytes → Machine → PhysAddr → PhysAddr → Outcome (Machine × PhysAddr)
madt_get mem m root sdt = get_table mem m root sdt (b'A' ∷ b'P' ∷ b'I' ∷ b'C' ∷ [])

-- The field `rsdt_addr` of the RSDP that the bootloader has found.
unfoldable pub get_rsdp :
    Bytes → Machine → PhysAddr → Option PhysAddr → Outcome (Machine × PhysAddr)
get_rsdp mem m root rsdp_addr = unwrap rsdp_addr >>= λ rsdp.
    identity_map_present m root rsdp >>= λ m'. returns (m', u32_at mem (rsdp + 16))

unfoldable pub get_sdt : Bytes → Machine → PhysAddr → Option PhysAddr → Outcome (Machine × PhysAddr)
unfolding get_rsdp
get_sdt mem m root rsdp_addr = get_rsdp mem m root rsdp_addr >>= λ r.
    identity_map_present r.0 root r.1 >>= λ m'. returns (m', r.1)
