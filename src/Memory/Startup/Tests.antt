-- ===== src/Memory/Startup/Tests.antt =====
-- The start of a heap on a memory of eight frames.
use navi_os.Base.{◌*◌, arith}
use navi_os.Memory.{page_size}
use navi_os.Memory.Heap.{empty}
use navi_os.Memory.Paging.Tests.{eight, root, root_place, eight-IsTree}
use navi_os.Memory.Startup.{init_heap}
use navi_os.Memory.Startup.HeapStart.{InitsHeap, init_heap-InitsHeap}

init_heap-InitsHeap_example :
    InitsHeap root empty 16 (init_heap 9300 eight root empty (16 * page_size))
init_heap-InitsHeap_example =
    init_heap-InitsHeap 9300 16 eight root root_place empty eight-IsTree (omega arith) (omega arith)
      (omega arith)
