-- ===== src/Memory/Heap/Alloc.antt =====
-- `alloc_mut` and `dealloc_mut` keep the free nodes and the blocks in use apart.
use native.Mathlib.Nat.{pow-suc}
use navi_os.Base.{
  ℕ, zero, suc, ◌+◌, ◌-◌, ◌*◌, ◌/◌, ◌%◌, ◌^◌, ◌≤◌, ◌<◌, ◌≡◌, refl, max, true, Option, some, List,
  ◌∷◌, ap, ◌⊎◌, ltb, leb, ◌==◌, All, inl, inr, Bool-cases, Outcome, returns, arith, ==_iff,
}
use navi_os.Memory.{VirtAddr, usize_mod, usize_sub, align_up}
use navi_os.Memory.Address.{align_up_lem}
use navi_os.Memory.Heap.{
  Node, end_addr, node_size, node_align, search_nodes, LinkedListAllocator, Layout, PageMapper,
  add_free_node, size_align, find_free_node, divide, alloc_mut, dealloc_mut, round_up,
}
use navi_os.Memory.Heap.Blocks.{
  IsNode, IsHeap, Without, Without-All, Without-Pairwise, Apart, Inside, All-Inside, add_used,
  cross-Without,
}
use navi_os.Memory.Heap.Search.{Holds, can_hold-Holds, search_nodes-Without}

-- An aligned address is rounded up to itself.
align_up_aligned :
    (addr : VirtAddr)
    → addr + node_align < usize_mod
    → addr % node_align ≡ 0
    → align_up addr node_align ≡ addr
align_up_aligned addr small h =
    let (q, at, lo, hi) = align_up_lem 3 addr (omega arith) small in omega (arith, at)

pub add_free_node-eq :
    (heap : LinkedListAllocator) (addr : VirtAddr) (size : ℕ)
    → addr + node_align < usize_mod
    → addr % node_align ≡ 0
    → node_size ≤ size
    → add_free_node heap addr size
      ≡ returns (record heap { nodes = record { start_addr = addr; size = size } ∷ heap.nodes })
unfolding add_free_node
add_free_node-eq heap addr size small h room =
    let same : (align_up addr node_align == addr) ≡ true =
      (==_iff (align_up addr node_align) addr).1 (align_up_aligned addr small h) in
    let enough : leb node_size size ≡ true = ground arith in rw (add_free_node, same, enough) refl

-- A node at the front of the free ones, apart from all blocks.
add_node :
    (top : ℕ) (heap : LinkedListAllocator) (used : List Node) (n : Node)
    → IsHeap top heap used
    → IsNode top n
    → All (Apart n) heap.nodes
    → All (Apart n) used
    → IsHeap top (record heap { nodes = n ∷ heap.nodes }) used
add_node top heap used n v p a u = record {
  nodes = (p, v.nodes);
  free_apart = (a, v.free_apart);
  used_apart = v.used_apart;
  cross = (u, v.cross);
}

-- Where a block comes from: a free node, in which it lies, is taken away, and what is behind the block
-- in that node, if anything is, becomes a free node.
pub record Taken (nodes next : List Node) (block : Node) : Type 0 where
  pub node : Node
  pub rest : List Node
  pub without : Without node nodes rest
  pub inside : Inside block node
  pub left :
      ((next ≡ rest) × (block.start_addr + block.size ≡ node.start_addr + node.size))
      ⊎ ((next
            ≡ record {
              start_addr = block.start_addr + block.size;
              size = node.start_addr + node.size - (block.start_addr + block.size);
            }
              ∷ rest)
          × (block.start_addr + block.size < node.start_addr + node.size))

-- What an allocation of `size` bytes returns: an address that is a multiple of the alignment, at
-- which a new block is in use. The block lies in a free node, the free nodes and the blocks in use
-- are apart again, and the pages are as before.
pub record Allocates {S : Type 0} (top : ℕ) (heap : LinkedListAllocator) (used : List Node)
    (size align : ℕ) (s : S) (r : Outcome (Option (VirtAddr × LinkedListAllocator × S)))
    : Type 0 where
  pub addr : VirtAddr
  pub next : LinkedListAllocator
  pub returned : r ≡ returns (some (addr, next, s))
  pub multiple : (q : ℕ) × (addr ≡ q * align)
  pub valid : IsHeap top next (record { start_addr = addr; size = size } ∷ used)
  pub taken : Taken heap.nodes next.nodes (record { start_addr = addr; size = size })
  pub kept_end : next.heap_end ≡ heap.heap_end

-- A power of two of at least 8 is a multiple of 8.
eight : (k : ℕ) → 3 ≤ k → (d : ℕ) × (2 ^ k ≡ d * 8)
eight zero h = absurd (omega arith)
eight (suc k) h = elim (Bool-cases (ltb k 3)) [
  | inl low ↦ let at : k ≡ 2 = ground arith in (1, rw at refl)
  | inr more ↦ let (d, e) = eight k (ground arith) in (d * 2, omega (arith, pow-suc 2 k, e))
]

multiple_of_eight :
    (k q size : ℕ) → 3 ≤ k → size % node_align ≡ 0 → (q * 2 ^ k + size) % node_align ≡ 0
multiple_of_eight k q size h e =
    let (d, f) = eight k h in
    let whole : q * 2 ^ k ≡ q * d * 8 = rw f (grind arith) in omega (arith, whole, e)

-- A layout whose alignment, made fit for a node, is 2 ^ k, and whose size does not overflow.
pub record IsLayout (layout : Layout) (k : ℕ) : Type 0 where
  pub power : max layout.align node_align ≡ 2 ^ k
  pub lower : 3 ≤ k
  pub upper : k < 63
  pub fits : round_up layout.size (2 ^ k) < 2 ^ 63

-- The size that the heap uses for it.
abbrev pub padded_size : Layout → ℕ → ℕ
padded_size layout k = max (round_up layout.size (2 ^ k)) node_size

size_align-eq :
    (layout : Layout) (k : ℕ)
    → IsLayout layout k
    → size_align layout ≡ returns (padded_size layout k, 2 ^ k)
unfolding size_align
size_align-eq layout k l =
    let fits : ltb (round_up layout.size (2 ^ k)) (2 ^ 63) ≡ true = ground (arith, l.fits) in
    rw (l.power, fits) refl

padded_size-multiple :
    (layout : Layout) (k : ℕ) → IsLayout layout k → padded_size layout k % node_align ≡ 0
padded_size-multiple layout k l =
    let n : ℕ = (layout.size + (2 ^ k - 1)) / 2 ^ k in
    let whole = multiple_of_eight k n 0 l.lower refl in omega (arith, whole)

-- The list of blocks after one was handed out, at its two outcomes.
module _ {S : Type 0} (mapper : PageMapper S) (rounds : ℕ) (s : S) (top : ℕ)
    (heap : LinkedListAllocator) (used : List Node) (layout : Layout) (k : ℕ)
    (v : IsHeap top heap used) (l : IsLayout layout k) (small : top + 2 ^ k + node_size < usize_mod)
    (node : Node) (addr : VirtAddr) (rest : List Node)
    (hit : search_nodes heap.nodes (padded_size layout k) (2 ^ k) ≡ some (node, addr, rest)) where
  abbrev size : ℕ
  size = padded_size layout k

  abbrev block : Node
  block = record { start_addr = addr; size = size }

  abbrev excess : ℕ
  excess = usize_sub (end_addr node) (addr + size)

  abbrev behind : Node
  behind = record { start_addr = addr + size; size = excess }

  without : Without node heap.nodes rest
  without = (search_nodes-Without heap.nodes size (2 ^ k) node addr rest hit).0

  is_node : IsNode top node
  is_node = (Without-All (IsNode top) node without v.nodes).0

  holds : Holds node size (2 ^ k) addr
  holds =
      can_hold-Holds top k node size addr (omega (arith, l.upper)) (omega arith) is_node
        (search_nodes-Without heap.nodes size (2 ^ k) node addr rest hit).1

  block-Inside : Inside block node
  block-Inside = (holds.begins, holds.ends)

  end_eq : end_addr node ≡ node.start_addr + node.size
  end_eq = omega (arith, is_node.bound)

  -- The heap without the node, with the block in use.
  taken : IsHeap top (record heap { nodes = rest }) (block ∷ used)
  taken =
      let (apart, pairs) = Without-Pairwise node without v.free_apart in
      let (of_node, of_rest) = Without-All (λ n. All (Apart n) used) node without v.cross in
      record {
        nodes = (Without-All (IsNode top) node without v.nodes).1;
        free_apart = pairs;
        used_apart = (All-Inside block node used block-Inside of_node, v.used_apart);
        cross = add_used block rest used (All-Inside block node rest block-Inside apart) of_rest;
      }

  excess_eq : excess ≡ node.start_addr + node.size - (addr + size)
  excess_eq = omega (arith, end_eq, holds.ends, is_node.bound)

  behind-Inside : Inside behind node
  behind-Inside = (omega (arith, holds.begins), omega (arith, excess_eq, holds.ends))

  aligned : (addr + size) % node_align ≡ 0
  aligned =
      let (q, at) = holds.multiple in
      rw at (multiple_of_eight k q size l.lower (padded_size-multiple layout k l))

  split-IsHeap :
      node_size ≤ excess → IsHeap top (record heap { nodes = behind ∷ rest }) (block ∷ used)
  split-IsHeap enough =
      let (apart, pairs) = Without-Pairwise node without v.free_apart in
      let (of_node, of_rest) = Without-All (λ n. All (Apart n) used) node without v.cross in
      add_node top (record heap { nodes = rest }) (block ∷ used) behind taken
        (record {
          aligned = aligned;
          room = enough;
          bound = omega (arith, behind-Inside.1, is_node.bound);
        })
        (All-Inside behind node rest behind-Inside apart)
        (inr (omega arith), All-Inside behind node used behind-Inside of_node)

  -- The rest of the node becomes a node, if there is a rest.
  pub record Divided (r : Outcome LinkedListAllocator) : Type 0 where
    pub next : LinkedListAllocator
    pub returned : r ≡ returns next
    pub valid : IsHeap top next (block ∷ used)
    pub from : Taken heap.nodes next.nodes block
    pub kept_end : next.heap_end ≡ heap.heap_end

  divided : Divided (divide (record heap { nodes = rest }) node addr size)
  unfolding divide
  divided =
      let sum : ltb (addr + size) usize_mod ≡ true = ground (arith, holds.ends, is_node.bound) in
      elim (Bool-cases (ltb 0 excess)) [
        | inr none_left ↦ record {
          next = record heap { nodes = rest };
          returned = rw (divide, sum, none_left) refl;
          valid = taken;
          from = record {
            node = node;
            rest = rest;
            without = without;
            inside = block-Inside;
            left = inl (refl, ground (arith, excess_eq, none_left, holds.ends));
          };
          kept_end = refl;
        }
        | inl some_left ↦
            let enough : node_size ≤ excess = elim (holds.rest) [
              | inl none_left ↦ absurd (ground (arith, excess_eq, none_left))
              | inr more ↦ omega (arith, excess_eq, more)
            ] in
            let added =
              add_free_node-eq (record heap { nodes = rest }) (addr + size) excess
                (omega (arith, holds.ends, is_node.bound)) aligned enough in
            record {
              next = record heap { nodes = behind ∷ rest };
              returned = rw (divide, sum, some_left) added;
              valid = split-IsHeap enough;
              from = record {
                node = node;
                rest = rest;
                without = without;
                inside = block-Inside;
                left = inr (
                  ap (λ n. record { start_addr = addr + size; size = n } ∷ rest) excess_eq,
                  ground (arith, excess_eq, some_left),
                );
              };
              kept_end = refl;
            }
      ]

  -- In a heap whose free nodes and blocks in use are apart, while a free node can hold a block of the
  -- layout, `alloc_mut` does not panic and maps no page. The address that it returns is a multiple of
  -- the alignment. The new block lies in a free node; the other free nodes are kept, and what is behind
  -- the block in that node is the only new one. The new block, the blocks in use and the free nodes are
  -- apart.
  pub alloc_mut-Allocates :
      Allocates top heap used size (2 ^ k) s (alloc_mut mapper (suc rounds) heap layout s)
  unfolding alloc_mut
  alloc_mut-Allocates =
      let d = divided in
      record {
        addr = addr;
        next = d.next;
        returned = rw (size_align-eq layout k l, alloc_mut, find_free_node, hit, d.returned) refl;
        multiple = holds.multiple;
        valid = d.valid;
        taken = d.from;
        kept_end = d.kept_end;
      }

-- What giving a block back returns: the block is free again, and the heap is as apart as before.
pub record Frees (top : ℕ) (heap : LinkedListAllocator) (block : Node) (used : List Node)
    (r : Outcome LinkedListAllocator) : Type 0 where
  pub next : LinkedListAllocator
  pub returned : r ≡ returns next
  pub valid : IsHeap top next used
  pub nodes : next.nodes ≡ block ∷ heap.nodes

-- Giving back a block in use with the layout that it was allocated for does not panic. The block is
-- a free node, and the free nodes and the other blocks in use are apart.
pub dealloc_mut-Frees :
    (top : ℕ) (heap : LinkedListAllocator) (used rest : List Node) (ptr : VirtAddr)
    (layout : Layout) (k : ℕ)
    → IsHeap top heap used
    → IsLayout layout k
    → Without (record { start_addr = ptr; size = padded_size layout k }) used rest
    → ptr % node_align ≡ 0
    → ptr + padded_size layout k ≤ top
    → top + node_size < usize_mod
    → Frees top heap
        (record { start_addr = ptr; size = padded_size layout k })
        rest
        (dealloc_mut heap ptr layout)
unfolding dealloc_mut
dealloc_mut-Frees top heap used rest ptr layout k v l w a b small =
    let block : Node = record { start_addr = ptr; size = padded_size layout k } in
    let (apart, cross) = cross-Without block heap.nodes w v.cross in
    let (of_block, others) = Without-Pairwise block w v.used_apart in
    let room : node_size ≤ padded_size layout k = ground arith in
    record {
      next = record heap { nodes = block ∷ heap.nodes };
      returned =
          rw (size_align-eq layout k l)
            (add_free_node-eq heap ptr (padded_size layout k) (omega arith) a room);
      valid = record {
        nodes = (record { aligned = a; room = room; bound = b }, v.nodes);
        free_apart = (apart, v.free_apart);
        used_apart = others;
        cross = (of_block, cross);
      };
      nodes = refl;
    }
