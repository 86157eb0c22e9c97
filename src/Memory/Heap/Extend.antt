-- ===== src/Memory/Heap/Extend.antt =====
-- `extend_heap`: the pages that it maps, and the node that it makes of them.
use navi_os.Base.{◌+◌, ◌*◌, ◌/◌, ◌%◌, ◌<◌, ◌≡◌, refl, true, [], ◌∷◌, ◌==◌, ==_iff, returns, arith}
use navi_os.Memory.{VirtAddr, page_size, usize_mod, usize_add, align_down}
use navi_os.Memory.Address.{align_down_lem}
use navi_os.Memory.Heap.{
  Node, LinkedListAllocator, PageMapper, map_pages, extend_heap, combine, chunk, pages_per_extend,
  pages_between,
}
use navi_os.Memory.Heap.Alloc.{add_free_node-eq}

-- The first page that is mapped: the one behind the page of the heap's end.
abbrev pub next_page : VirtAddr → VirtAddr
next_page heap_end = (heap_end / page_size + 1) * page_size

module _ (heap : LinkedListAllocator) (small : heap.heap_end + 2 * chunk < usize_mod) where
  start_eq : align_down (usize_add heap.heap_end page_size) page_size ≡ next_page heap.heap_end
  start_eq =
      let sum : usize_add heap.heap_end page_size ≡ heap.heap_end + page_size = omega arith in
      rw sum
        (omega (arith, align_down_lem 12 (heap.heap_end + page_size) (omega arith) (omega arith)))

  end_eq :
      align_down (usize_add heap.heap_end chunk) page_size
      ≡ next_page heap.heap_end + 127 * page_size
  end_eq =
      let sum : usize_add heap.heap_end chunk ≡ heap.heap_end + chunk = omega arith in
      rw sum (omega (arith, align_down_lem 12 (heap.heap_end + chunk) (omega arith) (omega arith)))

  count_eq :
      pages_between (next_page heap.heap_end) (next_page heap.heap_end + 127 * page_size)
      ≡ pages_per_extend
  count_eq = ground arith

  -- Where the 128 pages behind the heap's end can be mapped, `extend_heap` adds them as one node and
  -- combines it with the nodes before; the heap then ends where these pages end.
  pub extend_heap-eq :
      {S : Type 0} (mapper : PageMapper S) (s s' : S)
      → map_pages mapper pages_per_extend (next_page heap.heap_end) s ≡ returns (true, s')
      → extend_heap mapper heap s
        ≡ returns (
          true,
          record {
            nodes =
                combine
                  (record { start_addr = next_page heap.heap_end; size = chunk } ∷ heap.nodes);
            heap_end = next_page heap.heap_end + chunk;
          },
          s',
        )
  unfolding extend_heap
  extend_heap-eq mapper s s' mapped =
      let added =
        add_free_node-eq heap (next_page heap.heap_end) chunk (omega arith) (omega arith)
          (omega arith) in
      let finish : usize_add (next_page heap.heap_end + 127 * page_size) page_size
          ≡ next_page heap.heap_end + chunk =
        omega arith in
      rw (extend_heap, start_eq, end_eq, count_eq, mapped, start_eq, end_eq, added, finish) refl

-- If the only free node is as large as some extensions together, the extended heap has one free node,
-- which ends as many bytes behind the end of the heap as the old node had.
pub extend_heap_overruns :
    {S : Type 0} (mapper : PageMapper S) (s s' : S) (heap : LinkedListAllocator) (node : Node)
    → heap.heap_end + 2 * chunk < usize_mod
    → heap.nodes ≡ node ∷ []
    → node.size % chunk ≡ 0
    → chunk + node.size < usize_mod
    → map_pages mapper pages_per_extend (next_page heap.heap_end) s ≡ returns (true, s')
    → (next : LinkedListAllocator) × (only : Node) × (extend_heap mapper heap s
        ≡ returns (true, next, s'))
      × (next.nodes ≡ only ∷ [])
      × (only.start_addr + only.size ≡ next.heap_end + node.size)
unfolding combine
extend_heap_overruns mapper s s' heap node small one whole fits mapped =
    let first : Node = record { start_addr = next_page heap.heap_end; size = chunk } in
    let whole' : (node.size % chunk == 0) ≡ true = (==_iff (node.size % chunk) 0).1 whole in
    let sum : usize_add chunk node.size ≡ chunk + node.size = omega arith in
    (
      record { nodes = combine (first ∷ heap.nodes); heap_end = next_page heap.heap_end + chunk },
      record first { size = chunk + node.size },
      extend_heap-eq heap small mapper s s' mapped,
      rw (one, whole', sum) refl,
      omega arith,
    )
