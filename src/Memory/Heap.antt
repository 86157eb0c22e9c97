-- ===== src/Memory/Heap.antt =====
-- kernel/src/memory/allocator.rs: the heap as a list of free nodes. A node lies at the start of the
-- memory that it describes, so it is its address and its size; the links are the list. The pages
-- under the heap are the business of a `PageMapper`.
pub mod Blocks
pub mod Search
pub mod Alloc
pub mod Extend
pub mod Tests
use navi_os.Base.{
  ℕ, zero, suc, ◌+◌, ◌-◌, ◌*◌, ◌/◌, ◌%◌, ◌^◌, max, Bool, true, false, ◌&&◌, Option, none, some,
  List, [], ◌∷◌, ltb, leb, ◌==◌, if◌then◌else◌, Outcome, returns, panics, ◌>>=◌,
}
use navi_os.Memory.{VirtAddr, page_size, usize_mod, usize_add, usize_sub, align_up, align_down}

pub record Node : Type 0 where
  pub start_addr : VirtAddr
  pub size : ℕ

abbrev pub end_addr : Node → VirtAddr
end_addr node = usize_add node.start_addr node.size

-- `size_of::<Node>()` and `align_of::<Node>()`
abbrev pub node_size : ℕ
node_size = 16

abbrev pub node_align : ℕ
node_align = 8

pub record Layout : Type 0 where
  pub size : ℕ
  pub align : ℕ

abbrev pub checked_add : ℕ → ℕ → Option ℕ
checked_add a b = if ltb (a + b) usize_mod then some (a + b) else none

-- Where a node can hold `size` bytes. What is left of the node behind them is nothing, or enough for
-- a node.
unfoldable pub can_hold : Node → ℕ → ℕ → Option ℕ
unfolding align_up
can_hold node size align_amount =
    let start = align_up node.start_addr align_amount in
    elim (checked_add start size) [
      | none ↦ none
      | some end ↦
          let excess = usize_sub (end_addr node) end in
          if ltb (end_addr node) end
          then none
          else if ltb 0 excess && ltb excess node_size
          then none
          else some start
    ]

-- The nodes from `head.next` on.
pub record LinkedListAllocator : Type 0 where
  pub nodes : List Node
  pub heap_end : VirtAddr

abbrev pub empty : LinkedListAllocator
empty = record { nodes = []; heap_end = 0 }

unfoldable pub add_free_node : LinkedListAllocator → VirtAddr → ℕ → Outcome LinkedListAllocator
unfolding align_up
add_free_node heap addr size =
    if align_up addr node_align == addr && leb node_size size
    then returns (record heap { nodes = record { start_addr = addr; size = size } ∷ heap.nodes })
    else panics

unfoldable pub init : LinkedListAllocator → VirtAddr → ℕ → Outcome LinkedListAllocator
unfolding align_up add_free_node
init heap possible_start size =
    let heap_start = align_up possible_start node_size in
    let size' = usize_sub size (usize_sub heap_start possible_start) in
    add_free_node (record heap { heap_end = usize_add heap_start size' }) heap_start size'

-- The loop of `find_free_node`: the first node that can hold the bytes, the address, and the nodes
-- without it.
unfoldable pub search_nodes : List Node → ℕ → ℕ → Option (Node × VirtAddr × List Node)
unfolding can_hold
search_nodes [] size align = none
search_nodes (node ∷ nodes) size align = elim (can_hold node size align) [
  | some addr ↦ some (node, addr, nodes)
  | none ↦ elim (search_nodes nodes size align) [
    | none ↦ none
    | some found ↦ some (found.0, found.1, node ∷ found.2)
  ]
]

-- The size and the alignment of a layout of the standard library, made fit for a node. A layout too
-- large for its alignment is a panic.
abbrev pub round_up : ℕ → ℕ → ℕ
round_up n a = (n + (a - 1)) / a * a

unfoldable pub size_align : Layout → Outcome (ℕ × ℕ)
size_align layout =
    let align = max layout.align node_align in
    let padded = round_up layout.size align in
    if ltb padded (2 ^ 63) then returns (max padded node_size, align) else panics

-- What the heap takes from the page tables and the frame allocator: to map a page to a new frame.
-- `false` is a failure.
pub record PageMapper (S : Type 0) : Type 0 where
  pub map_new : S → VirtAddr → Outcome (Bool × S)

abbrev pub pages_per_extend : ℕ
pages_per_extend = 128

abbrev pub chunk : ℕ
chunk = page_size * pages_per_extend

-- The loop that combines the first node with those behind it.
unfoldable pub combine : List Node → List Node
combine [] = []
combine (first ∷ []) = first ∷ []
combine (first ∷ node ∷ rest) =
    let combined = combine (record first { size = usize_add first.size node.size } ∷ rest) in
    if node.size % chunk == 0 then combined else first ∷ node ∷ rest

-- What `alloc_mut` does with the bytes of the node behind the block.
unfoldable pub divide : LinkedListAllocator → Node → VirtAddr → ℕ → Outcome LinkedListAllocator
unfolding add_free_node
divide heap node addr size = elim (checked_add addr size) [
  | none ↦ panics
  | some alloc_end ↦
      let excess = usize_sub (end_addr node) alloc_end in
      elim (ltb 0 excess) [ true ↦ add_free_node heap alloc_end excess | false ↦ returns heap ]
]

-- The pages from `start` to `end`, both included.
abbrev pub pages_between : VirtAddr → VirtAddr → ℕ
pages_between start end = if leb start end then (end - start) / page_size + 1 else 0

module _ {S : Type 0} (mapper : PageMapper S) where
  -- The loop over the pages, with `left` pages to go.
  unfoldable pub map_pages : ℕ → VirtAddr → S → Outcome (Bool × S)
  map_pages zero page s = returns (true, s)
  map_pages (suc left) page s = mapper.map_new s page >>= λ r. elim (r.0) [
    | false ↦ returns (false, r.1)
    | true ↦ map_pages left (page + page_size) r.1
  ]

  unfoldable pub extend_heap : LinkedListAllocator → S → Outcome (Bool × LinkedListAllocator × S)
  unfolding align_down map_pages add_free_node combine
  extend_heap heap s = do
    let start_page = align_down (usize_add heap.heap_end page_size) page_size
    let end_page = align_down (usize_add heap.heap_end chunk) page_size
    mapped ← map_pages (pages_between start_page end_page) start_page s
    elim (mapped.0) [
      | false ↦ returns (false, heap, mapped.1)
      | true ↦ add_free_node heap start_page chunk >>= λ added. returns (
        true,
        record { nodes = combine added.nodes; heap_end = usize_add end_page page_size },
        mapped.1,
      )
    ]

  -- What `find_free_node` returns: the node and the address, or nothing; with the heap and the pages.
  pub data FoundNode : Type 0 where
    found : Node → VirtAddr → LinkedListAllocator → S → FoundNode
    exhausted : LinkedListAllocator → S → FoundNode
    still_searching : FoundNode

  -- Each round extends the heap once.
  unfoldable pub find_free_node : ℕ → LinkedListAllocator → ℕ → ℕ → S → Outcome FoundNode
  unfolding search_nodes extend_heap
  find_free_node zero heap size align s = returns still_searching
  find_free_node (suc rounds) heap size align s = elim (search_nodes heap.nodes size align) [
    | some (node, addr, rest) ↦ returns (found node addr (record heap { nodes = rest }) s)
    | none ↦ extend_heap heap s >>= λ extended. elim (extended.0) [
      | false ↦ returns (exhausted extended.1 extended.2)
      | true ↦ find_free_node rounds extended.1 size align extended.2
    ]
  ]

  -- The address, 0 where the heap is exhausted; `none` where the search still runs.
  unfoldable pub alloc_mut :
      ℕ → LinkedListAllocator → Layout → S → Outcome (Option (VirtAddr × LinkedListAllocator × S))
  unfolding size_align find_free_node divide
  alloc_mut rounds heap layout s = do
    sized ← size_align layout
    result ← find_free_node rounds heap sized.0 sized.1 s
    elim result [
      | still_searching ↦ returns none
      | exhausted heap' s' ↦ returns (some (0, heap', s'))
      | found node addr heap' s' ↦
          divide heap' node addr sized.0 >>= λ split. returns (some (addr, split, s'))
    ]

unfoldable pub dealloc_mut : LinkedListAllocator → VirtAddr → Layout → Outcome LinkedListAllocator
unfolding size_align add_free_node
dealloc_mut heap ptr layout = size_align layout >>= λ sized. add_free_node heap ptr sized.0
