-- ===== src/Memory/Startup/HeapStart.antt =====
-- `init_heap`: the pages of the heap, and the node that it starts with.
use navi_os.Base.{
  ℕ, ◌+◌, ◌*◌, ◌^◌, ◌≤◌, ◌<◌, ◌≡◌, refl, ◌∙◌, ap, arith, true, false, Option, some, ◌∷◌, ==_refl,
  returns,
}
use navi_os.Memory.{PhysAddr, page_size, align_up, usize_sub, usize_add}
use navi_os.Memory.Address.{align_down_lem, align_up_lem}
use navi_os.Memory.Frames.Bitmap.{is_free}
use navi_os.Memory.Heap
use navi_os.Memory.Heap.{LinkedListAllocator, Node, node_size, node_align, add_free_node}
use navi_os.Memory.Paging.{Machine, Call, ok, err, frame_allocation_failed, page_containing}
use navi_os.Memory.Paging.Tree.{IsTree, Places}
use navi_os.Memory.Paging.Mapped.{is_some}
use navi_os.Memory.Paging.Address.{resolve}
use navi_os.Memory.Startup.{heap_pages, init_heap_size, init_heap, with_heap}
use navi_os.Memory.Startup.Pages.{page_at, pages_at}
use navi_os.Memory.Startup.Range.{MapsRange, range_failed, range_mapped, map_range-MapsRange}

-- The heap with one more free node, of all its bytes.
abbrev pub started_heap : LinkedListAllocator → ℕ → LinkedListAllocator
started_heap heap a = record {
  nodes = record { start_addr = a * page_size; size = init_heap_size } ∷ heap.nodes;
  heap_end = a * page_size + init_heap_size;
}

-- What `init_heap` may do for a heap from page `a` on.
pub data InitsHeap (root : PhysAddr) (heap : LinkedListAllocator) (a : ℕ)
    : Option (Call LinkedListAllocator) → Type 0 where
  no_memory :
      (m' : Machine) (place : Places)
      → IsTree m' root place
      → ((k : ℕ) → m'.frame_allocator.search_from ≤ k → is_free m'.frame_allocator.bitmap k ≡ false)
      → InitsHeap root heap a (some (returns (err frame_allocation_failed, m')))
  started :
      (m' : Machine) (place : Places)
      → IsTree m' root place
      → ((k : ℕ)
          → a ≤ k
          → k * page_size ≤ a * page_size + init_heap_size
          → is_some (resolve m' root (k * page_size)) ≡ true)
      → InitsHeap root heap a (some (returns (ok (started_heap heap a), m')))

module _ (a : ℕ) (pos : 0 < a) (small : a + 9216 < 2 ^ 52) where
  aligned_16 : align_up (a * page_size) 16 ≡ a * page_size
  aligned_16 =
      let (q, e, le, lt) = align_up_lem 4 (a * page_size) (omega arith) (omega arith) in
      e ∙ omega (arith, le, lt)

  aligned_8 : align_up (a * page_size) 8 ≡ a * page_size
  aligned_8 =
      let (q, e, le, lt) = align_up_lem 3 (a * page_size) (omega arith) (omega arith) in
      e ∙ omega (arith, le, lt)

  page_at-eq : (b : ℕ) → b < 2 ^ 52 → page_containing (b * page_size) ≡ page_at b
  unfolding page_containing
  page_at-eq b h =
      ap (λ n. record { start_address = n })
        (align_down_lem 12 (b * page_size) (omega arith) (omega arith) ∙ omega arith)

  heap_pages-eq : heap_pages (a * page_size) ≡ pages_at a (a + 9216)
  heap_pages-eq =
      let end : a * page_size + init_heap_size ≡ (a + 9216) * page_size = omega arith in
      rw (end, page_at-eq a (omega arith), page_at-eq (a + 9216) small) refl

  init-eq :
      (heap : LinkedListAllocator)
      → Heap.init heap (a * page_size) init_heap_size ≡ returns (started_heap heap a)
  unfolding Heap.init add_free_node
  init-eq heap =
      let start : ℕ = a * page_size in
      let nothing_lost : usize_sub init_heap_size (usize_sub start start) ≡ init_heap_size =
        omega arith in
      let end : usize_add start init_heap_size ≡ start + init_heap_size = omega arith in
      rw (aligned_16, aligned_8, nothing_lost, ==_refl start, end) refl

  from_range :
      (root : PhysAddr) (heap : LinkedListAllocator) (m : Machine) (r : Option (Call (Unit {0})))
      → MapsRange m root a (a + 9216) r
      → InitsHeap root heap a (with_heap heap (a * page_size) r)
  from_range root heap m r (range_failed m' place tree none_free) =
      no_memory m' place tree none_free
  from_range root heap m r (range_mapped m' place tree all kept others) =
      rw (init-eq heap) (started m' place tree (λ k le ge. all k le (omega (arith, ge))))

-- For a page-aligned start that is not 0, with the heap's pages inside the address space and fuel for
-- one more round than there are pages, on tables that are a tree: `init_heap` ends without a panic.
-- Either it succeeds, every page from the start of the heap to its end is mapped, and the heap has one
-- more free node, of all its bytes; or it fails and no frame is free from `search_from` on. The tables are
-- a tree afterwards.
pub init_heap-InitsHeap :
    (fuel a : ℕ) (m : Machine) (root : PhysAddr) (place : Places) (heap : LinkedListAllocator)
    → IsTree m root place
    → 9217 < fuel
    → 0 < a
    → a + 9216 < 2 ^ 52
    → InitsHeap root heap a (init_heap fuel m root heap (a * page_size))
unfolding init_heap
init_heap-InitsHeap fuel a m root place heap tree enough pos small =
    rw (heap_pages-eq a pos small) (
      from_range a pos small root heap m _
        (map_range-MapsRange root 9216 fuel a m place tree enough pos small))
