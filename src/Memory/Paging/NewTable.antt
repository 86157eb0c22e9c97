-- ===== src/Memory/Paging/NewTable.antt =====
-- `Entry::map` where there is no table yet: a free frame becomes one.
use navi_os.Base.{
  ℕ, ◌+◌, ◌*◌, ◌%◌, ◌^◌, ◌<◌, ◌≡◌, refl, sym, ◌∙◌, ap, arith, true, false, ◌&&◌, Option, none, some,
  List, [], ◌∷◌, length, ◌==◌, ==_refl, Bool-cases, inl, inr, if◌then◌else◌, Outcome, returns,
  subst,
}
use navi_os.Memory.{PhysAddr, page_size}
use navi_os.Memory.Frames.{Frame, RegionAllocator, allocate_frame}
use navi_os.Memory.Frames.Bitmap.{is_free, IsValid}
use navi_os.Memory.Frames.Allocate.{
  frame_at, Allocates, exhausted, allocated, allocate_frame-Allocates,
}
use navi_os.Memory.Paging.{
  Machine, Entry, ok, err, frame_allocation_failed, entry_is_mapped, entry_new, with_entry, zeroize,
  new_frame, map_entry,
}
use navi_os.Memory.Paging.Entries.{
  Small, entry_is_mapped-eq, entry_frame-eq, entry_frame-none, entry_new-Small, entry_new-odd,
  entry_new-frame,
}
use navi_os.Memory.Paging.Tree.{
  address_of, leads, bind-cong, walk, Places, IsTree, some-ne-none, placed_ne, same_entry,
}
use navi_os.Memory.Paging.Grow.{Grows, full, grown, map_entry-Flags}

module _ (m : Machine) (root : PhysAddr) (place : Places) (tree : IsTree m root place)
    (t i flags : ℕ) (p : List ℕ) (at : place t ≡ some p) (inner : length p < 3) (few : flags < 512)
    (odd : flags % 2 ≡ 1) (absent : m.memory t i % 2 ≡ 0) where
  unmapped : leads m t i ≡ none
  unmapped = ap address_of (entry_frame-none (m.memory t i) (tree.entries t i p at) absent)

  module _ (k : ℕ) (rest : RegionAllocator) (inside : k < length m.frame_allocator.bitmap * 8)
      (free : is_free m.frame_allocator.bitmap k ≡ true)
      (bits : (j : ℕ)
        → is_free rest.bitmap j ≡ (if k == j then false else is_free m.frame_allocator.bitmap j))
      (valid : IsValid rest) (size : length rest.bitmap ≡ length m.frame_allocator.bitmap) where
    abbrev fresh : PhysAddr
    fresh = k * page_size

    abbrev entry : Entry
    entry = entry_new flags fresh

    abbrev grown_machine : Machine
    grown_machine = zeroize (with_entry (record m { frame_allocator = rest }) t i entry) fresh

    abbrev grown_place : Places
    grown_place u = if u == fresh then some (i ∷ p) else place u

    address_fits : k < 2 ^ 40
    address_fits = omega (arith, tree.within)

    unplaced : place fresh ≡ none
    unplaced = tree.unused k free

    not_fresh : (u : ℕ) (q : List ℕ) → place u ≡ some q → (u == fresh) ≡ false
    not_fresh u q h = placed_ne place u fresh q h unplaced

    keeps : (u : ℕ) (q : List ℕ) → place u ≡ some q → grown_place u ≡ some q
    keeps u q h = rw (not_fresh u q h) h

    -- The new table is empty, the entry leads to it, and all else is as it was.
    leads-fresh : (u j : ℕ) → (u == fresh) ≡ true → leads grown_machine u j ≡ none
    leads-fresh u j e = rw e (ap address_of (entry_frame-none 0 (omega arith) (omega arith)))

    leads-entry :
        (u j : ℕ)
        → (u == fresh) ≡ false
        → (u == t && j == i) ≡ true
        → leads grown_machine u j ≡ some fresh
    leads-entry u j ne same =
        rw (ne, same)
          (ap address_of (
              entry_frame-eq entry (entry_new-Small flags k few odd address_fits)
                (entry_new-odd flags k few odd address_fits))
            ∙ ap (λ n. some (n * page_size)) (entry_new-frame flags k few odd address_fits))

    leads-other :
        (u j : ℕ)
        → (u == fresh) ≡ false
        → (u == t && j == i) ≡ false
        → leads grown_machine u j ≡ leads m u j
    leads-other u j h e = rw (h, e) refl

    led_nowhere : (u j : ℕ) → (u == t && j == i) ≡ true → leads m u j ≡ none
    led_nowhere u j same =
        let (tables, indices) = same_entry t u i j same in
        ap (λ u. leads m u j) tables ∙ ap (λ j. leads m t j) indices ∙ unmapped

    same_place : (u j : ℕ) (q : List ℕ) → place u ≡ some q → (u == t && j == i) ≡ true → q ≡ p
    same_place u j q h same =
        let tables = (same_entry t u i j same).0 in cc (h, at, ap place tables)

    kept :
        (u j u' : ℕ) (q : List ℕ)
        → place u ≡ some q
        → leads m u j ≡ some u'
        → leads grown_machine u j ≡ some u'
    kept u j u' q h e = elim (Bool-cases (u == t && j == i)) [
      | inr other ↦ leads-other u j (not_fresh u q h) other ∙ e
      | inl same ↦ absurd (some-ne-none u' (leads m u j) e (led_nowhere u j same))
    ]

    walks :
        (u : ℕ) (q is : List ℕ)
        → place u ≡ some q
        → length q + length is ≡ 4
        → walk grown_machine u is ≡ walk m u is
    unfolding walk
    walks u q [] h len = refl
    walks u q (j ∷ []) h len = elim (Bool-cases (u == t && j == i)) [
      | inr other ↦
          rw (leads-other u j (not_fresh u q h) other) (bind-cong (leads m u j) (λ _ _. refl))
      | inl same ↦ absurd (omega (arith, ap length (same_place u j q h same), inner, len))
    ]
    walks u q (j ∷ j' ∷ is) h len = elim (Bool-cases (u == t && j == i)) [
      | inr other ↦ rw (leads-other u j (not_fresh u q h) other) (
          bind-cong (leads m u j) (λ u' e.
            walks u' (j ∷ q) (j' ∷ is) (tree.below u j u' q h (omega (arith, len)) e)
              (omega (arith, len))))
      | inl same ↦
          rw
            (
              leads-entry u j (not_fresh u q h) same,
              led_nowhere u j same,
              leads-fresh fresh j' (==_refl fresh),
            )
            refl
    ]

    entry_at : (u j : ℕ) (q : List ℕ) → grown_place u ≡ some q → Small (grown_machine.memory u j)
    entry_at u j q h = elim (Bool-cases (u == fresh)) [
      | inl new ↦ rw new (omega arith)
      | inr ne ↦ elim (Bool-cases (u == t && j == i)) [
        | inl same ↦ rw (ne, same) (entry_new-Small flags k few odd address_fits)
        | inr other ↦ rw (ne, other) (tree.entries u j q (rw ne at h))
      ]
    ]

    below_at :
        (u j u' : ℕ) (q : List ℕ)
        → grown_place u ≡ some q
        → length q < 3
        → leads grown_machine u j ≡ some u'
        → grown_place u' ≡ some (j ∷ q)
    below_at u j u' q h lt e = elim (Bool-cases (u == fresh)) [
      | inl new ↦ absurd (some-ne-none u' (leads grown_machine u j) e (leads-fresh u j new))
      | inr ne ↦
          let old : place u ≡ some q = (rw ne at h) in
          elim (Bool-cases (u == t && j == i)) [
            | inr other ↦
                keeps u' (j ∷ q) (tree.below u j u' q old lt (sym (leads-other u j ne other) ∙ e))
            | inl same ↦
                let there : u' ≡ fresh = cc (leads-entry u j ne same) in
                let here : grown_place fresh ≡ some (i ∷ p) = rw (==_refl fresh) refl in
                ap grown_place there
                ∙ here
                ∙ cc ((same_entry t u i j same).1, same_place u j q old same)
          ]
    ]

    unused_at : (n : ℕ) → is_free rest.bitmap n ≡ true → grown_place (n * page_size) ≡ none
    unused_at n h = elim (Bool-cases (k == n)) [
      | inl taken ↦ absurd (false-ne-true (sym (bits n ∙ rw taken refl) ∙ h))
      | inr other ↦
          let apart : (n * page_size == k * page_size) ≡ false = ground arith in
          rw apart (tree.unused n (sym (bits n ∙ rw other refl) ∙ h))
    ]
      where
        false-ne-true : false ≡ true → ⊥
        false-ne-true e = cc

    grown-IsTree : IsTree grown_machine root grown_place
    grown-IsTree = record {
      root_at = keeps root [] tree.root_at;
      valid = valid;
      within = omega (arith, size, tree.within);
      entries = entry_at;
      below = below_at;
      unused = unused_at;
    }

    map_entry-New :
        allocate_frame m.frame_allocator ≡ returns (some (frame_at k), rest)
        → Grows m root place t i p (map_entry m t i flags)
    unfolding map_entry new_frame
    map_entry-New run =
        let small = tree.entries t i p at in
        let returned : map_entry m t i flags ≡ returns (ok fresh, grown_machine) =
          rw (entry_is_mapped-eq (m.memory t i) small ∙ ap (λ n. n == 1) absent, run) refl in
        subst (Grows m root place t i p) (sym returned) (
          grown fresh grown_machine grown_place grown-IsTree (rw (==_refl fresh) refl)
            (leads-entry t i (not_fresh t p at) (rw (==_refl t, ==_refl i) refl)) keeps kept walks)

module _ (m : Machine) (root : PhysAddr) (place : Places) (tree : IsTree m root place)
    (t i flags : ℕ) (p : List ℕ) (at : place t ≡ some p) (inner : length p < 3) (few : flags < 512)
    (odd : flags % 2 ≡ 1) where
  new_table :
      m.memory t i % 2 ≡ 0
      → (r : Outcome (Option Frame × RegionAllocator)) → allocate_frame m.frame_allocator ≡ r
      → Allocates m.frame_allocator r
      → Grows m root place t i p (map_entry m t i flags)
  unfolding map_entry new_frame
  new_table even r run (exhausted none_free) =
      let mapped : entry_is_mapped (m.memory t i) ≡ false =
        entry_is_mapped-eq (m.memory t i) (tree.entries t i p at) ∙ ap (λ n. n == 1) even in
      let returned : map_entry m t i flags ≡ returns (err frame_allocation_failed, m) =
        rw (mapped, run) refl in
      subst (Grows m root place t i p) (sym returned) (full none_free)
  new_table even r run (allocated k rest from inside free first bits valid search size) =
      map_entry-New m root place tree t i flags p at inner few odd even k rest inside free bits
        valid size run

  pub map_entry-Grows : Grows m root place t i p (map_entry m t i flags)
  map_entry-Grows = elim (Bool-cases (m.memory t i % 2 == 1)) [
    | inl mapped ↦ map_entry-Flags m root place tree t i flags p at inner few odd (ground arith)
    | inr absent ↦
        new_table (ground arith) (allocate_frame m.frame_allocator) refl
          (allocate_frame-Allocates m.frame_allocator tree.valid)
  ]
