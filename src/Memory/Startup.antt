-- ===== src/Memory/Startup.antt =====
-- kernel/src/memory/mod.rs: the identity maps, and the pages of the heap when the kernel starts. `root`
-- is the current root table. The loop over the pages runs on fuel, and `none` is a loop that has not
-- ended.
pub mod Pages
pub mod NewPage
pub mod Range
pub mod HeapStart
pub mod Tests
use navi_os.Base.{
  ℕ, zero, suc, ◌+◌, ◌*◌, Option, none, some, bit_or, Outcome, returns, panics, ◌>>=◌,
}
use navi_os.Memory.{PhysAddr, VirtAddr}
use navi_os.Memory.Frames.{containing_address}
use navi_os.Memory.Heap
use navi_os.Memory.Heap.{LinkedListAllocator}
use navi_os.Memory.Paging.{
  Machine, Page, page_containing, IterPage, next, present, writable, Call, ok, err, and_then,
  new_frame, map_to,
}

-- `unwrap` on what a call did.
abbrev pub must : Call (Unit {0}) → Outcome Machine
must (returns (ok u, m)) = returns m
must (returns (err e, m)) = panics
must panics = panics

unfoldable pub identity_map_present : Machine → PhysAddr → PhysAddr → Outcome Machine
identity_map_present m root addr =
    must (map_to m root (page_containing addr) (containing_address addr) present)

unfoldable pub identity_map_writeable : Machine → PhysAddr → PhysAddr → Outcome Machine
identity_map_writeable m root addr =
    must (map_to m root (page_containing addr) (containing_address addr) (bit_or present writable))

abbrev pub init_heap_size : ℕ
init_heap_size = 4 * 9 * 1024 * 1024

-- A page of the heap: it is mapped to a new frame.
unfoldable pub map_new : Machine → PhysAddr → Page → Call (Unit {0})
map_new m root page =
    and_then (new_frame m) (λ frame m'. map_to m' root page frame (bit_or present writable))

abbrev pub go_on {ℓ} : {A : Type ℓ} → Call A → (Machine → Option (Call A)) → Option (Call A)
go_on (returns (ok u, m)) f = f m
go_on (returns (err e, m)) f = some (returns (err e, m))
go_on panics f = some panics

-- The body of the loop, on what the iterator returned.
abbrev pub visit :
    Option Page × IterPage
    → Machine
    → PhysAddr
    → (IterPage → Machine → Option (Call (Unit {0})))
    → Option (Call (Unit {0}))
visit (none, pages) m root rest = some (returns (ok tt, m))
visit (some page, pages) m root rest = go_on (map_new m root page) (rest pages)

unfoldable pub map_range : ℕ → IterPage → Machine → PhysAddr → Option (Call (Unit {0}))
map_range zero pages m root = none
map_range (suc fuel) pages m root =
    visit (next pages) m root (λ pages' m'. map_range fuel pages' m' root)

abbrev pub heap_pages : VirtAddr → IterPage
heap_pages heap_start = record {
  start = page_containing heap_start;
  end = page_containing (heap_start + init_heap_size);
}

-- The heap itself, once its pages are mapped.
abbrev start_heap : LinkedListAllocator → VirtAddr → Call (Unit {0}) → Call LinkedListAllocator
start_heap heap heap_start mapped =
    and_then mapped
      (λ _ m. Heap.init heap heap_start init_heap_size >>= λ started. returns (ok started, m))

abbrev pub with_heap :
    LinkedListAllocator → VirtAddr → Option (Call (Unit {0})) → Option (Call LinkedListAllocator)
with_heap heap heap_start none = none
with_heap heap heap_start (some mapped) = some (start_heap heap heap_start mapped)

unfoldable pub init_heap :
    ℕ → Machine → PhysAddr → LinkedListAllocator → VirtAddr → Option (Call LinkedListAllocator)
init_heap fuel m root heap heap_start =
    with_heap heap heap_start (map_range fuel (heap_pages heap_start) m root)

-- `init`, whose `unwrap` panics on a failure.
abbrev pub unwrapped :
    Option (Call LinkedListAllocator) → Option (Outcome (LinkedListAllocator × Machine))
unwrapped none = none
unwrapped (some panics) = some panics
unwrapped (some (returns (err e, m))) = some panics
unwrapped (some (returns (ok heap, m))) = some (returns (heap, m))

unfoldable pub init :
    ℕ
    → Machine
    → PhysAddr
    → LinkedListAllocator
    → VirtAddr
    → Option (Outcome (LinkedListAllocator × Machine))
init fuel m root heap heap_start = unwrapped (init_heap fuel m root heap heap_start)
