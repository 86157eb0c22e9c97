-- ===== src/Memory/Heap/Tests.antt =====
-- A heap of one page, and of two extensions.
use navi_os.Base.{ℕ, suc, inr, ◌^◌, ◌+◌, ◌≡◌, refl, true, some, [], ◌∷◌, returns, arith}
use navi_os.Memory.Heap.{
  Node, Layout, LinkedListAllocator, PageMapper, empty, init, add_free_node, size_align, can_hold,
  search_nodes, combine, map_pages, extend_heap, divide, find_free_node, alloc_mut, dealloc_mut,
  chunk, pages_per_extend,
}
use navi_os.Memory.Heap.Blocks.{IsHeap, here}
use navi_os.Memory.Heap.Alloc.{
  IsLayout, Allocates, Frees, padded_size, alloc_mut-Allocates, dealloc_mut-Frees,
}
use navi_os.Memory.Heap.Extend.{next_page, extend_heap_overruns}

-- A mapper that counts the pages.
abbrev counting : PageMapper ℕ
counting = record { map_new = λ s page. returns (true, suc s) }

abbrev one_page : LinkedListAllocator
one_page = record { nodes = record { start_addr = 0x1000; size = 0x1000 } ∷ []; heap_end = 0x2000 }

-- The start is rounded up to 16 bytes.
init_run : init empty 0xFF8 0x1008 ≡ returns one_page
unfolding init add_free_node
init_run = refl

abbrev words : Layout
words = record { size = 20; align = 4 }

abbrev after : LinkedListAllocator
after = record { nodes = record { start_addr = 0x1018; size = 0xFE8 } ∷ []; heap_end = 0x2000 }

alloc_run : alloc_mut counting 1 one_page words 0 ≡ returns (some (0x1000, after, 0))
unfolding alloc_mut size_align find_free_node search_nodes can_hold divide add_free_node
alloc_run = refl

-- A block as large as the page and one more word needs an extension.
abbrev large : Layout
large = record { size = 0x1008; align = 8 }

abbrev extended : LinkedListAllocator
extended = record {
  nodes = record { start_addr = 0x4008; size = 0x7EFF8 } ∷ one_page.nodes;
  heap_end = 0x83000;
}

large_run : alloc_mut counting 2 one_page large 0 ≡ returns (some (0x3000, extended, 128))
unfolding alloc_mut size_align find_free_node search_nodes can_hold divide add_free_node extend_heap
    map_pages combine
large_run = refl

words-IsLayout : IsLayout words 3
words-IsLayout = record {
  power = refl;
  lower = omega arith;
  upper = omega arith;
  fits = omega arith;
}

one_page-IsHeap : IsHeap 0x2000 one_page []
one_page-IsHeap = record {
  nodes = (record { aligned = refl; room = omega arith; bound = omega arith }, tt);
  free_apart = (tt, tt);
  used_apart = tt;
  cross = (tt, tt);
}

abbrev page_node : Node
page_node = record { start_addr = 0x1000; size = 0x1000 }

hit_run : search_nodes one_page.nodes (padded_size words 3) (2 ^ 3) ≡ some (page_node, 0x1000, [])
unfolding search_nodes can_hold
hit_run = refl

alloc_mut-Allocates_example :
    Allocates 0x2000 one_page [] 24 8 0 (alloc_mut counting 1 one_page words 0)
alloc_mut-Allocates_example =
    alloc_mut-Allocates counting 0 0 0x2000 one_page [] words 3 one_page-IsHeap words-IsLayout
      (omega arith) page_node 0x1000 [] hit_run

abbrev in_use : Node
in_use = record { start_addr = 0x1000; size = 24 }

after-IsHeap : IsHeap 0x2000 after (in_use ∷ [])
after-IsHeap = record {
  nodes = (record { aligned = refl; room = omega arith; bound = omega arith }, tt);
  free_apart = (tt, tt);
  used_apart = (tt, tt);
  cross = ((inr (omega arith), tt), tt);
}

dealloc_mut-Frees_example : Frees 0x2000 after in_use [] (dealloc_mut after 0x1000 words)
dealloc_mut-Frees_example =
    dealloc_mut-Frees 0x2000 after (in_use ∷ []) [] 0x1000 words 3 after-IsHeap words-IsLayout
      (here []) refl (omega arith) (omega arith)

-- A heap of one extension, from 0x1000 on, all of it free.
abbrev one_chunk : LinkedListAllocator
one_chunk = record { nodes = record { start_addr = 0x1000; size = chunk } ∷ []; heap_end = 0x81000 }

mapped_run : map_pages counting pages_per_extend (next_page 0x81000) 0 ≡ returns (true, 128)
unfolding map_pages
mapped_run = refl

extend_heap_overruns_example :
    (next : LinkedListAllocator) × (only : Node) × (extend_heap counting one_chunk 0
      ≡ returns (true, next, 128))
    × (next.nodes ≡ only ∷ [])
    × (only.start_addr + only.size ≡ next.heap_end + chunk)
extend_heap_overruns_example =
    extend_heap_overruns counting 0 128 one_chunk (record { start_addr = 0x1000; size = chunk })
      (omega arith) refl refl (omega arith) mapped_run
