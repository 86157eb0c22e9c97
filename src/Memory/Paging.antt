-- ===== src/Memory/Paging.antt =====
-- kernel/src/memory/paging.rs: pages, the entries of page tables, and the four levels of tables. A
-- table is known by the physical address of its frame, and the memory is read as tables: an address
-- and an index give an entry. The offset at which the kernel sees the physical memory is left out.
pub mod Entries
pub mod Tree
pub mod Grow
pub mod NewTable
pub mod Address
pub mod Leaf
pub mod MapTo
pub mod Processor
pub mod Mapped
pub mod Free
pub mod Tests
use navi_os.Base.{
  ℕ, zero, suc, ◌+◌, ◌-◌, Bool, true, false, ◌&&◌, Option, none, some, List, [], ◌∷◌, ltb, leb,
  ◌==◌, if◌then◌else◌, bit_and, bit_or, Outcome, returns, panics, ◌>>=◌, unwrap,
}
use navi_os.Memory.{PhysAddr, VirtAddr, page_size, usize_mod, align_down, translate}
use navi_os.Memory.Frames.{
  Frame, RegionAllocator, containing_address, allocate_frame, deallocate_frame,
}

abbrev pub entry_count : ℕ
entry_count = 512

abbrev pub higher_half_entry : ℕ
higher_half_entry = 256

pub record Page : Type 0 where
  pub start_address : VirtAddr

unfoldable pub page_containing : VirtAddr → Page
unfolding align_down
page_containing address = record { start_address = align_down address page_size }

pub record IterPage : Type 0 where
  pub start : Page
  pub end : Page

abbrev pub max_page_addr : ℕ
max_page_addr = usize_mod - 1 - (page_size - 1)

-- The step past the page that is returned. At the last page of the address space it is the end that
-- goes back.
unfoldable pub next : IterPage → Option Page × IterPage
next pages =
    let start = pages.start.start_address in
    let end = pages.end.start_address in
    if leb start end
    then (
      some pages.start,
      if ltb start max_page_addr
          then record pages { start = record { start_address = start + page_size } }
          else record pages { end = record { start_address = end - page_size } },
    )
    else (none, pages)

abbrev pub Entry : Type 0
Entry = ℕ

-- `EntryFlags::PRESENT`, `EntryFlags::WRITABLE`, and the bits of all flags: 0 to 8, and 63.
abbrev pub present : ℕ
present = 1

abbrev pub writable : ℕ
writable = 2

abbrev pub all_flags : ℕ
all_flags = 0x80000000000001FF

-- `from_bits_truncate`
unfoldable pub entry_flags : Entry → ℕ
entry_flags entry = bit_and entry all_flags

unfoldable pub entry_is_mapped : Entry → Bool
unfolding entry_flags
entry_is_mapped entry = bit_and (entry_flags entry) present == present

unfoldable pub entry_frame : Entry → Option Frame
unfolding entry_is_mapped containing_address
entry_frame entry =
    if entry_is_mapped entry
    then some (containing_address (bit_and entry 0x000FFFFFFFFFF000))
    else none

unfoldable pub entry_new : ℕ → PhysAddr → Entry
entry_new flags addr = bit_or addr flags

-- The memory, and the frame allocator of the kernel.
pub record Machine : Type 0 where
  pub memory : PhysAddr → ℕ → Entry
  pub frame_allocator : RegionAllocator

abbrev pub with_entry : Machine → PhysAddr → ℕ → Entry → Machine
with_entry m table index entry = record m {
  memory = λ t i. if t == table && i == index then entry else m.memory t i;
}

abbrev pub zeroize : Machine → PhysAddr → Machine
zeroize m table = record m { memory = λ t i. if t == table then 0 else m.memory t i }

-- `root` is the current root table.
abbrev pub copy_higher_half : Machine → PhysAddr → PhysAddr → Machine
copy_higher_half m root table = record m {
  memory = λ t i. if t == table && leb higher_half_entry i then m.memory root i else m.memory t i;
}

pub data MapToError : Type 0 where
  frame_allocation_failed : MapToError

pub data MapResult {ℓ} (A : Type ℓ) : Type ℓ where
  ok : A → MapResult A
  err : MapToError → MapResult A

abbrev pub Call {ℓ} : Type ℓ → Type ℓ
Call A = Outcome (MapResult A × Machine)

-- The operator `?`, with the machine passed on.
abbrev pub and_then {ℓ κ} : {A : Type ℓ} {B : Type κ} → Call A → (A → Machine → Call B) → Call B
and_then (returns (ok a, m)) f = f a m
and_then (returns (err e, m)) f = returns (err e, m)
and_then panics f = panics

-- `allocate_frame().ok_or(FrameAllocationFailed)`
abbrev got_frame : Machine → Option Frame × RegionAllocator → Call Frame
got_frame m (none, rest) =
    returns (err frame_allocation_failed, record m { frame_allocator = rest })
got_frame m (some frame, rest) = returns (ok frame, record m { frame_allocator = rest })

unfoldable pub new_frame : Machine → Call Frame
new_frame m = allocate_frame m.frame_allocator >>= got_frame m

-- `Entry::map` on the entry `index` of `table`: the table that the entry leads to.
unfoldable pub map_entry : Machine → PhysAddr → ℕ → ℕ → Call PhysAddr
map_entry m table index flags =
    let entry = m.memory table index in
    if entry_is_mapped entry
    then (unwrap (entry_frame entry) >>= λ frame. returns (
      ok frame.start_address,
      with_entry m table index (entry_new (bit_or flags (entry_flags entry)) frame.start_address),
    ))
    else and_then (new_frame m) (λ frame m'. returns (
      ok frame.start_address,
      zeroize (with_entry m' table index (entry_new flags frame.start_address)) frame.start_address,
    ))

-- `Entry::mapped_to`
unfoldable pub mapped_to : Entry → Outcome (Option PhysAddr)
mapped_to entry =
    if entry_is_mapped entry
    then (unwrap (entry_frame entry) >>= λ frame. returns (some frame.start_address))
    else returns none

unfoldable pub map_to : Machine → PhysAddr → Page → Frame → ℕ → Call (Unit {0})
map_to m root page frame flags =
    let (offset, level_1_index, level_2_index, level_3_index, level_4_index) =
      translate page.start_address in
    and_then (map_entry m root level_4_index flags) λ level_3_table m3.
      and_then (map_entry m3 level_3_table level_3_index flags) λ level_2_table m2.
        and_then (map_entry m2 level_2_table level_2_index flags) λ level_1_table m1.
          returns
            (ok tt, with_entry m1 level_1_table level_1_index (entry_new flags frame.start_address))

unfoldable pub map_to_writeable : Machine → PhysAddr → Page → Frame → Call (Unit {0})
map_to_writeable m root page frame = map_to m root page frame (bit_or present writable)

-- `let Some(table) = ... else { return false }`
abbrev pub or_false : Outcome (Option PhysAddr) → (PhysAddr → Outcome Bool) → Outcome Bool
or_false panics f = panics
or_false (returns none) f = returns false
or_false (returns (some table)) f = f table

unfoldable pub is_mapped : Machine → PhysAddr → Page → Outcome Bool
is_mapped m root page =
    let (offset, level_1_index, level_2_index, level_3_index, level_4_index) =
      translate page.start_address in
    or_false (mapped_to (m.memory root level_4_index)) λ level_3_table.
      or_false (mapped_to (m.memory level_3_table level_3_index)) λ level_2_table.
        or_false (mapped_to (m.memory level_2_table level_2_index))
          λ level_1_table. returns (entry_is_mapped (m.memory level_1_table level_1_index))

-- A new root table, with the higher half of the current one.
unfoldable pub allocate_pml4 : Machine → PhysAddr → Call PhysAddr
allocate_pml4 m root = and_then (new_frame m) (λ frame m'. returns (
  ok frame.start_address,
  copy_higher_half (zeroize m' frame.start_address) root frame.start_address,
))

-- `PageTable::free` and `Entry::free`. An entry is freed one level below its table, and `level - 1`
-- overflows at level 0. The loop has `left` entries to go.
unfoldable pub free_entries :
    (Machine → Entry → Outcome Machine) → ℕ → ℕ → PhysAddr → Machine → Outcome Machine
free_entries free zero index table m = returns m
free_entries free (suc left) index table m =
    (if m.memory table index == 0 then returns m else free m (m.memory table index)) >>= λ m'.
    free_entries free left (suc index) table m'

unfoldable pub release : Machine → Frame → Outcome Machine
release m frame = deallocate_frame m.frame_allocator frame >>= λ rest.
    returns (record m { frame_allocator = rest })

unfoldable pub free_with :
    (Machine → Entry → Outcome Machine) → Machine → PhysAddr → Outcome Machine
unfolding free_entries release containing_address
free_with free m table =
    free_entries free higher_half_entry 0 table m >>= λ m'. release m' (containing_address table)

unfoldable pub free_entry : ℕ → Machine → Entry → Outcome Machine
free_entry zero m entry = unwrap (entry_frame entry) >>= λ frame.
    release m frame >>= λ m'. free_with (λ _ _. panics) m' frame.start_address
free_entry (suc level) m entry =
    unwrap (entry_frame entry) >>= λ frame. free_with (free_entry level) m frame.start_address

unfoldable pub free_table : ℕ → Machine → PhysAddr → Outcome Machine
free_table zero m table = free_with (λ _ _. panics) m table
free_table (suc level) m table = free_with (free_entry level) m table
