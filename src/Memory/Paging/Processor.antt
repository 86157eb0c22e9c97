-- ===== src/Memory/Paging/Processor.antt =====
-- How the processor translates an address, from the layout of an entry: bit 0 is the present bit, bit 7
-- says at the levels 3 and 2 that the entry maps a huge page, bits 12 to 51 are an address.
use navi_os.Base.{
  ℕ, ◌+◌, ◌*◌, ◌/◌, ◌%◌, ◌^◌, ◌<◌, ◌≡◌, refl, sym, ◌∙◌, ap, arith, Bool, true, false, Option, none,
  some, List, [], ◌∷◌, length, ◌==◌, ==_iff, Bool-cases, inl, inr, if◌then◌else◌,
}
use navi_os.Base.Bits.{bit_and-ones}
use navi_os.Memory.{PhysAddr, VirtAddr, translate}
use navi_os.Memory.Paging.{Machine, Entry}
use navi_os.Memory.Paging.Entries.{Small, entry_frame-eq, entry_frame-none}
use navi_os.Memory.Paging.Tree.{address_of, leads, bind, walk, Places, IsTree}
use navi_os.Memory.Paging.Address.{path_of, resolve, offset_lem}

abbrev pub is_present : Entry → Bool
is_present e = e % 2 == 1

abbrev pub is_huge : Entry → Bool
is_huge e = e / 2 ^ 7 % 2 == 1

abbrev pub address_in : Entry → PhysAddr
address_in e = e / 2 ^ 12 % 2 ^ 40 * 2 ^ 12

-- What an entry is to the processor, where `next` is what it does with the table.
abbrev pub table_entry : Entry → (PhysAddr → Option PhysAddr) → Option PhysAddr
table_entry e next = if is_present e then next (address_in e) else none

-- The same at a level that may have pages of 2 ^ `bits` bytes.
abbrev pub huge_entry : ℕ → VirtAddr → Entry → (PhysAddr → Option PhysAddr) → Option PhysAddr
huge_entry bits a e next =
    if is_huge e
    then table_entry e (λ start. some (start / 2 ^ bits * 2 ^ bits + a % 2 ^ bits))
    else table_entry e next

-- The physical address that the tables below `root` give an address.
unfoldable pub processor : Machine → PhysAddr → VirtAddr → Option PhysAddr
processor m root a = table_entry (m.memory root (a / 2 ^ 39 % 2 ^ 9)) λ t3.
    huge_entry 30 a (m.memory t3 (a / 2 ^ 30 % 2 ^ 9)) λ t2.
      huge_entry 21 a (m.memory t2 (a / 2 ^ 21 % 2 ^ 9))
        λ t1. table_entry (m.memory t1 (a / 2 ^ 12 % 2 ^ 9)) λ start. some (start + a % 2 ^ 12)

-- No table has an entry for a huge page.
abbrev pub NoHuge : Machine → Places → Type 0
NoHuge m place =
    (t i : ℕ) (p : List ℕ) → place t ≡ some p → length p < 3 → is_huge (m.memory t i) ≡ false

leads-present :
    (m : Machine) (t i : ℕ)
    → Small (m.memory t i)
    → is_present (m.memory t i) ≡ true
    → leads m t i ≡ some (address_in (m.memory t i))
leads-present m t i small h =
    ap address_of (entry_frame-eq (m.memory t i) small ((==_iff _ _).0 h))
    ∙ ap (λ n. some n) (omega arith)

leads-absent :
    (m : Machine) (t i : ℕ)
    → Small (m.memory t i)
    → is_present (m.memory t i) ≡ false
    → leads m t i ≡ none
leads-absent m t i small h =
    ap address_of (entry_frame-none (m.memory t i) small (ground (arith, h)))

-- A table in the tree: its entry is the first step of the walk.
table_entry-walk :
    (m : Machine) (t i : ℕ) (is : List ℕ) (next k : PhysAddr → Option PhysAddr)
    → Small (m.memory t i)
    → ((u : ℕ) → leads m t i ≡ some u → next u ≡ bind (walk m u is) k)
    → table_entry (m.memory t i) next ≡ bind (walk m t (i ∷ is)) k
unfolding walk
table_entry-walk m t i is next k small h = elim (Bool-cases (is_present (m.memory t i))) [
  | inl there ↦
      let e = leads-present m t i small there in
      rw (there, walk, e) (h (address_in (m.memory t i)) e)
  | inr absent ↦ rw (absent, walk, leads-absent m t i small absent) refl
]

path_of-eq :
    (a : VirtAddr)
    → path_of a
      ≡ a / 2 ^ 39 % 2 ^ 9 ∷ a / 2 ^ 30 % 2 ^ 9 ∷ a / 2 ^ 21 % 2 ^ 9 ∷ a / 2 ^ 12 % 2 ^ 9 ∷ []
unfolding translate
path_of-eq a =
    rw
      (
        bit_and-ones 9 (a / 2 ^ 39),
        bit_and-ones 9 (a / 2 ^ 30),
        bit_and-ones 9 (a / 2 ^ 21),
        bit_and-ones 9 (a / 2 ^ 12),
      )
      refl

module _ (m : Machine) (root : PhysAddr) (place : Places) (a : VirtAddr)
    (tree : IsTree m root place) (plain : NoHuge m place) where
  abbrev within : PhysAddr → Option PhysAddr
  within start = some (start + a % 2 ^ 12)

  abbrev i1 : ℕ
  i1 = a / 2 ^ 12 % 2 ^ 9

  abbrev i2 : ℕ
  i2 = a / 2 ^ 21 % 2 ^ 9

  abbrev i3 : ℕ
  i3 = a / 2 ^ 30 % 2 ^ 9

  abbrev i4 : ℕ
  i4 = a / 2 ^ 39 % 2 ^ 9

  -- The processor from a table of each level on.
  abbrev from_1 : PhysAddr → Option PhysAddr
  from_1 t = table_entry (m.memory t i1) within

  abbrev from_2 : PhysAddr → Option PhysAddr
  from_2 t = huge_entry 21 a (m.memory t i2) from_1

  abbrev from_3 : PhysAddr → Option PhysAddr
  from_3 t = huge_entry 30 a (m.memory t i3) from_2

  walk_1 : (t : ℕ) (p : List ℕ) → place t ≡ some p → from_1 t ≡ bind (walk m t (i1 ∷ [])) within
  unfolding walk
  walk_1 t p at = table_entry-walk m t i1 [] within within (tree.entries t i1 p at) (λ u e. refl)

  walk_2 :
      (t : ℕ) (p : List ℕ)
      → place t ≡ some p
      → length p < 3
      → from_2 t ≡ bind (walk m t (i2 ∷ i1 ∷ [])) within
  walk_2 t p at lt = rw (plain t i2 p at lt) (
      table_entry-walk m t i2 (i1 ∷ []) from_1 within (tree.entries t i2 p at)
        (λ u e. walk_1 u (i2 ∷ p) (tree.below t i2 u p at lt e)))

  walk_3 :
      (t : ℕ) (p : List ℕ)
      → place t ≡ some p
      → length p < 2
      → from_3 t ≡ bind (walk m t (i3 ∷ i2 ∷ i1 ∷ [])) within
  walk_3 t p at lt = rw (plain t i3 p at (omega (arith, lt))) (
      table_entry-walk m t i3 (i2 ∷ i1 ∷ []) from_2 within (tree.entries t i3 p at) (λ u e.
        walk_2 u (i3 ∷ p) (tree.below t i3 u p at (omega (arith, lt)) e) (omega (arith, lt))))

  -- On a tree of tables without huge pages the processor finds what the entries lead to.
  pub processor-resolve : processor m root a ≡ resolve m root a
  unfolding processor
  processor-resolve =
      table_entry-walk m root i4 (i3 ∷ i2 ∷ i1 ∷ []) from_3 within
        (tree.entries root i4 [] tree.root_at)
        (λ u e.
          walk_3 u (i4 ∷ []) (tree.below root i4 u [] tree.root_at (omega arith) e) (omega arith))
      ∙ ap (λ p. bind (walk m root p) within) (sym (path_of-eq a))
      ∙ ap (λ o. bind (walk m root (path_of a)) (λ frame. some (frame + o))) (sym (offset_lem a))
