-- ===== src/Memory/Heap/Search.antt =====
-- `can_hold` and the search for a free node.
use navi_os.Base.{
  ℕ, ◌+◌, ◌-◌, ◌*◌, ◌^◌, ◌≤◌, ◌<◌, ◌≡◌, refl, sym, ◌∙◌, ap, subst, ◌&&◌, Option, none, some, List,
  [], ◌∷◌, ltb, ◌⊎◌, inl, inr, Bool-cases, Option-cases, arith,
}
use navi_os.Memory.{VirtAddr, usize_mod, usize_sub, align_up}
use navi_os.Memory.Address.{align_up_lem}
use navi_os.Memory.Heap.{Node, end_addr, node_size, can_hold, search_nodes}
use navi_os.Memory.Heap.Blocks.{IsNode, Without, here, there}

-- The address is a multiple of the alignment, the bytes lie in the node, and behind them the node
-- ends or has room for another one.
pub record Holds (node : Node) (size align : ℕ) (addr : VirtAddr) : Type 0 where
  pub multiple : (q : ℕ) × (addr ≡ q * align)
  pub begins : node.start_addr ≤ addr
  pub ends : addr + size ≤ node.start_addr + node.size
  pub rest :
      (addr + size ≡ node.start_addr + node.size)
      ⊎ (addr + size + node_size ≤ node.start_addr + node.size)

pub can_hold-Holds :
    (top k : ℕ) (node : Node) (size : ℕ) (addr : VirtAddr)
    → k < 64
    → top + 2 ^ k < usize_mod
    → IsNode top node
    → can_hold node size (2 ^ k) ≡ some addr
    → Holds node size (2 ^ k) addr
unfolding can_hold
can_hold-Holds top k node size addr hk small n e =
    let (q, at, lo, hi) = align_up_lem k node.start_addr hk (omega (arith, n.bound)) in
    let start : ℕ = align_up node.start_addr (2 ^ k) in
    let end : end_addr node ≡ node.start_addr + node.size = omega (arith, n.bound) in
    elim (Bool-cases (ltb (start + size) usize_mod)) [
      | inr over ↦ absurd (none-ne-some (sym (rw (can_hold, over) refl) ∙ e))
      | inl fits ↦ elim (Bool-cases (ltb (end_addr node) (start + size))) [
        | inl beyond ↦ absurd (none-ne-some (sym (rw (can_hold, fits, beyond) refl) ∙ e))
        | inr within ↦
            let excess : ℕ = usize_sub (end_addr node) (start + size) in
            elim (Bool-cases (ltb 0 excess && ltb excess node_size)) [
              | inl bad ↦ absurd (none-ne-some (sym (rw (can_hold, fits, within, bad) refl) ∙ e))
              | inr good ↦
                  let same : start ≡ addr =
                    some-inj start addr (sym (rw (can_hold, fits, within, good) refl) ∙ e) in
                  let left : excess ≡ node.start_addr + node.size - (start + size) =
                    ground (arith, end) in
                  let inside : start + size ≤ node.start_addr + node.size = ground (arith, end) in
                  record {
                    multiple = (q, sym same ∙ at);
                    begins = omega (arith, at, same);
                    ends = omega (arith, same);
                    rest = elim (Bool-cases (ltb 0 excess)) [
                      | inr none_left ↦ inl (ground (arith, same))
                      | inl some_left ↦ inr (ground (arith, same))
                    ];
                  }
            ]
      ]
    ]
  where
    none-ne-some : none ≡ some addr → ⊥
    none-ne-some e = cc

    some-inj : (a b : VirtAddr) → some a ≡ some b → a ≡ b
    some-inj a b e = cc

abbrev hit : Node → VirtAddr → List Node → Option (Node × VirtAddr × List Node)
hit node addr rest = some (node, addr, rest)

-- What the search finds is a free node that can hold the bytes; the other nodes are kept.
pub search_nodes-Without :
    (nodes : List Node) (size align : ℕ) (node : Node) (addr : VirtAddr) (rest : List Node)
    → search_nodes nodes size align ≡ hit node addr rest
    → Without node nodes rest × (can_hold node size align ≡ some addr)
unfolding search_nodes
search_nodes-Without [] size align node addr rest e = absurd (none-ne-some e)
  where
    none-ne-some : none ≡ hit node addr rest → ⊥
    none-ne-some e = cc
search_nodes-Without (n ∷ nodes) size align node addr rest e =
    elim (Option-cases (can_hold n size align)) [
      | inr (a, h) ↦
          let same : hit n a nodes ≡ hit node addr rest = sym (rw (h, search_nodes) refl) ∙ e in
          taken a h same
      | inl h ↦ elim (Option-cases (search_nodes nodes size align)) [
        | inl none_found ↦ absurd (none-ne-some (sym (rw (h, search_nodes, none_found) refl) ∙ e))
        | inr ((m, b, others), f) ↦
            let same : hit m b (n ∷ others) ≡ hit node addr rest =
              sym (rw (h, search_nodes, f) refl) ∙ e in
            let (w, held) = search_nodes-Without nodes size align m b others f in
            passed m b others w held same
      ]
    ]
  where
    none-ne-some : none ≡ hit node addr rest → ⊥
    none-ne-some e = cc

    taken :
        (a : VirtAddr)
        → can_hold n size align ≡ some a
        → hit n a nodes ≡ hit node addr rest
        → Without node (n ∷ nodes) rest × (can_hold node size align ≡ some addr)
    taken a h s =
        let n_same : n ≡ node = cc in
        let a_same : a ≡ addr = cc in
        let r_same : nodes ≡ rest = cc in
        (
          subst (λ m. Without m (n ∷ nodes) rest) n_same
              (subst (Without n (n ∷ nodes)) r_same (here nodes)),
          subst (λ m. can_hold m size align ≡ some addr) n_same (h ∙ ap some a_same),
        )

    passed :
        (m : Node) (b : VirtAddr) (others : List Node)
        → Without m nodes others
        → can_hold m size align ≡ some b
        → hit m b (n ∷ others) ≡ hit node addr rest
        → Without node (n ∷ nodes) rest × (can_hold node size align ≡ some addr)
    passed m b others w held s =
        let m_same : m ≡ node = cc in
        let b_same : b ≡ addr = cc in
        let r_same : n ∷ others ≡ rest = cc in
        (
          subst (λ m. Without m (n ∷ nodes) rest) m_same
              (subst (Without m (n ∷ nodes)) r_same (there n w)),
          subst (λ m. can_hold m size align ≡ some addr) m_same (held ∙ ap some b_same),
        )
