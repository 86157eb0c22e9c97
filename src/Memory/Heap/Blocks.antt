-- ===== src/Memory/Heap/Blocks.antt =====
-- Blocks of memory that do not overlap: the free nodes of a heap and the blocks that it handed out.
use navi_os.Base.{ℕ, ◌+◌, ◌%◌, ◌≤◌, ◌≡◌, ◌⊎◌, inl, inr, List, [], ◌∷◌, All, arith}
use navi_os.Memory.Heap.{Node, node_size, node_align, LinkedListAllocator}

abbrev pub Apart : Node → Node → Type 0
Apart a b = (a.start_addr + a.size ≤ b.start_addr) ⊎ (b.start_addr + b.size ≤ a.start_addr)

-- The bytes of `a` are bytes of `b`.
abbrev pub Inside : Node → Node → Type 0
Inside a b = (b.start_addr ≤ a.start_addr) × (a.start_addr + a.size ≤ b.start_addr + b.size)

pub Apart-sym : (a b : Node) → Apart a b → Apart b a
Apart-sym a b (inl h) = inr h
Apart-sym a b (inr h) = inl h

pub Apart-Inside : (a b c : Node) → Inside a b → Apart b c → Apart a c
Apart-Inside a b c i (inl h) = inl (omega arith)
Apart-Inside a b c i (inr h) = inr (omega arith)

abbrev pub Pairwise : List Node → Type 0
Pairwise [] = Unit {0}
Pairwise (a ∷ rest) = All (Apart a) rest × Pairwise rest

pub All-Inside : (a b : Node) (cs : List Node) → Inside a b → All (Apart b) cs → All (Apart a) cs
All-Inside a b [] i h = tt
All-Inside a b (c ∷ cs) i h = (Apart-Inside a b c i h.0, All-Inside a b cs i h.1)

-- A node that the heap may hold: it is aligned, it has room for a header, and it ends by `top`.
pub record IsNode (top : ℕ) (n : Node) : Type 0 where
  pub aligned : n.start_addr % node_align ≡ 0
  pub room : node_size ≤ n.size
  pub bound : n.start_addr + n.size ≤ top

-- The free nodes lie below `top`, and they and the blocks in use are apart from one another.
pub record IsHeap (top : ℕ) (heap : LinkedListAllocator) (used : List Node) : Type 0 where
  pub nodes : All (IsNode top) heap.nodes
  pub free_apart : Pairwise heap.nodes
  pub used_apart : Pairwise used
  pub cross : All (λ n. All (Apart n) used) heap.nodes

-- A list without one of its members.
pub data Without (n : Node) : List Node → List Node → Type 0 where
  here : (ns : List Node) → Without n (n ∷ ns) ns
  there : (m : Node) {ns rest : List Node} → Without n ns rest → Without n (m ∷ ns) (m ∷ rest)

pub Without-All :
    (P : Node → Type 0) (n : Node) {ns rest : List Node}
    → Without n ns rest
    → All P ns
    → P n × All P rest
Without-All P n (here ns) h = h
Without-All P n (there m w) h = let (p, q) = Without-All P n w h.1 in (p, (h.0, q))

pub Without-Pairwise :
    (n : Node) {ns rest : List Node}
    → Without n ns rest
    → Pairwise ns
    → All (Apart n) rest × Pairwise rest
Without-Pairwise n (here ns) h = h
Without-Pairwise n (there m w) h =
    let (apart, others) = Without-All (Apart m) n w h.0 in
    let (p, q) = Without-Pairwise n w h.1 in ((Apart-sym m n apart, p), (others, q))

-- Giving a block back to the free nodes, and taking one out.
pub add_used :
    (b : Node) (ns used : List Node)
    → All (Apart b) ns
    → All (λ n. All (Apart n) used) ns
    → All (λ n. All (Apart n) (b ∷ used)) ns
add_used b [] used h c = tt
add_used b (n ∷ ns) used h c = ((Apart-sym b n h.0, c.0), add_used b ns used h.1 c.1)

pub cross-Without :
    (b : Node) (ns : List Node) {used rest : List Node}
    → Without b used rest
    → All (λ n. All (Apart n) used) ns
    → All (Apart b) ns × All (λ n. All (Apart n) rest) ns
cross-Without b [] w c = (tt, tt)
cross-Without b (n ∷ ns) w c =
    let (p, q) = Without-All (Apart n) b w c.0 in
    let (ps, qs) = cross-Without b ns w c.1 in ((Apart-sym n b p, ps), (q, qs))
