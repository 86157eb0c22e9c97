-- ===== src/Memory/Paging/Grow.antt =====
-- `Entry::map` on a table of the tree: the entry leads to a table afterwards, and every address leads
-- where it led before.
use navi_os.Base.{
  ℕ, ◌+◌, ◌*◌, ◌/◌, ◌%◌, ◌^◌, ◌≤◌, ◌<◌, ◌≡◌, refl, sym, ◌∙◌, ap, arith, false, ◌&&◌, some, List,
  ◌∷◌, length, ◌==◌, Bool-cases, inl, inr, bit_or, returns, subst,
}
use navi_os.Memory.{PhysAddr, page_size}
use navi_os.Memory.Frames.Bitmap.{is_free}
use navi_os.Memory.Frames.Allocate.{frame_at}
use navi_os.Memory.Paging.{
  Machine, Entry, Call, ok, err, frame_allocation_failed, entry_frame, entry_flags, entry_new,
  with_entry, map_entry,
}
use navi_os.Memory.Paging.Entries.{
  Small, entry_is_mapped-eq, entry_frame-eq, entry_new-Small, entry_new-odd, entry_new-frame,
  or_flags,
}
use navi_os.Memory.Paging.Tree.{address_of, leads, walk, Places, IsTree, walk-cong, same_entry}

-- What `Entry::map` may do to the entry `i` of the table `t`, whose place is `p`.
pub data Grows (m : Machine) (root : PhysAddr) (place : Places) (t i : ℕ) (p : List ℕ)
    : Call PhysAddr → Type 0 where
  full :
      ((k : ℕ) → m.frame_allocator.search_from ≤ k → is_free m.frame_allocator.bitmap k ≡ false)
      → Grows m root place t i p (returns (err frame_allocation_failed, m))
  grown :
      (t' : PhysAddr) (m' : Machine) (place' : Places)
      → IsTree m' root place'
      → place' t' ≡ some (i ∷ p)
      → leads m' t i ≡ some t'
      → ((u : ℕ) (q : List ℕ) → place u ≡ some q → place' u ≡ some q)
      → ((u j u' : ℕ) (q : List ℕ)
          → place u ≡ some q
          → leads m u j ≡ some u'
          → leads m' u j ≡ some u')
      → ((u : ℕ) (q is : List ℕ)
          → place u ≡ some q
          → length q + length is ≡ 4
          → walk m' u is ≡ walk m u is)
      → Grows m root place t i p (returns (ok t', m'))

module _ (m : Machine) (root : PhysAddr) (place : Places) (tree : IsTree m root place)
    (t i flags : ℕ) (p : List ℕ) (at : place t ≡ some p) (inner : length p < 3) (few : flags < 512)
    (odd : flags % 2 ≡ 1) where
  abbrev old : Entry
  old = m.memory t i

  small : Small old
  small = tree.entries t i p at

  -- The entry has a table already: only its flags change.
  module _ (mapped : old % 2 ≡ 1) where
    abbrev reached : PhysAddr
    reached = old / page_size * page_size

    abbrev more_flags : ℕ
    more_flags = bit_or flags (entry_flags old)

    abbrev flagged : Machine
    flagged = with_entry m t i (entry_new more_flags reached)

    address_fits : old / page_size < 2 ^ 40
    address_fits = omega (arith, small)

    flagged-Small : Small (entry_new more_flags reached)
    flagged-Small =
        let (lt, o) = or_flags flags old few odd small in
        entry_new-Small more_flags (old / page_size) lt o address_fits

    flagged-frame : entry_frame (entry_new more_flags reached) ≡ some (frame_at (old / page_size))
    flagged-frame =
        let (lt, o) = or_flags flags old few odd small in
        entry_frame-eq (entry_new more_flags reached) flagged-Small
          (entry_new-odd more_flags (old / page_size) lt o address_fits)
        ∙ ap (λ n. some (frame_at n))
            (entry_new-frame more_flags (old / page_size) lt o address_fits)

    leads-flagged : (u j : ℕ) → leads flagged u j ≡ leads m u j
    leads-flagged u j = elim (Bool-cases (u == t && j == i)) [
      | inr other ↦ rw other refl
      | inl same ↦
          rw (same, flagged-frame)
            (sym (ap address_of (entry_frame-eq old small mapped))
              ∙ ap (λ u. leads m u i) (sym (same_entry t u i j same).0)
              ∙ ap (λ j. leads m u j) (sym (same_entry t u i j same).1))
    ]

    flagged-IsTree : IsTree flagged root place
    flagged-IsTree = record {
      root_at = tree.root_at;
      valid = tree.valid;
      within = tree.within;
      entries = λ u j q h. entry_at u j q h;
      below = λ u j u' q h lt e. tree.below u j u' q h lt (sym (leads-flagged u j) ∙ e);
      unused = tree.unused;
    }
      where
        entry_at : (u j : ℕ) (q : List ℕ) → place u ≡ some q → Small (flagged.memory u j)
        entry_at u j q h = elim (Bool-cases (u == t && j == i)) [
          | inl same ↦ rw same flagged-Small
          | inr other ↦ rw other (tree.entries u j q h)
        ]

    map_entry-flagged : map_entry m t i flags ≡ returns (ok reached, flagged)
    unfolding map_entry
    map_entry-flagged =
        rw (entry_is_mapped-eq old small ∙ ap (λ n. n == 1) mapped, entry_frame-eq old small mapped)
          refl

    pub map_entry-Flags : Grows m root place t i p (map_entry m t i flags)
    map_entry-Flags =
        let here : leads m t i ≡ some reached = ap address_of (entry_frame-eq old small mapped) in
        subst (Grows m root place t i p) (sym map_entry-flagged) (
          grown reached flagged place flagged-IsTree (tree.below t i reached p at inner here)
            (leads-flagged t i ∙ here) (λ u q h. h) (λ u j u' q h e. leads-flagged u j ∙ e)
            (λ u q is h len. walk-cong m flagged leads-flagged u is))
