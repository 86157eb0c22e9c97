-- ===== src/Memory/Paging/MapTo.antt =====
-- `PageTable::map_to`: the page leads to the frame, and every other address leads where it led.
use navi_os.Base.{
  ℕ, ◌+◌, ◌*◌, ◌%◌, ◌^◌, ◌≤◌, ◌<◌, ◌≡◌, refl, ◌∙◌, ap, arith, false, some, List, [], ◌∷◌, length,
  ◌==◌, ==_iff, ==_ne, Bool-cases, inl, inr, if◌then◌else◌, returns,
}
use navi_os.Memory.{PhysAddr, page_size, translate}
use navi_os.Memory.Frames.Bitmap.{is_free}
use navi_os.Memory.Frames.Allocate.{frame_at}
use navi_os.Memory.Paging.{
  and_then, Machine, Page, Call, ok, err, frame_allocation_failed, entry_new, with_entry, map_entry,
  map_to,
}
use navi_os.Memory.Paging.Tree.{leads, bind, walk, Places, IsTree}
use navi_os.Memory.Paging.Grow.{Grows, full, grown}
use navi_os.Memory.Paging.NewTable.{map_entry-Grows}
use navi_os.Memory.Paging.Address.{
  path_of, page_number, resolve, offset_lem, path_of-same, path_of-page,
}
use navi_os.Memory.Paging.Leaf.{leads-final, leads-inner, walk-other, final-IsTree}

-- What `map_to` may do.
pub data MapsTo (m : Machine) (root : PhysAddr) (page : Page) (n : ℕ)
    : Call (Unit {0}) → Type 0 where
  no_frame :
      (m' : Machine) (place' : Places)
      → IsTree m' root place'
      → ((k : ℕ) → m'.frame_allocator.search_from ≤ k → is_free m'.frame_allocator.bitmap k ≡ false)
      → ((addr : ℕ) → resolve m' root addr ≡ resolve m root addr)
      → MapsTo m root page n (returns (err frame_allocation_failed, m'))
  mapped :
      (m' : Machine) (place' : Places)
      → IsTree m' root place'
      → ((addr : ℕ)
          → resolve m' root addr ≡ (
              if page_number addr == page_number page.start_address
              then some (n * page_size + addr % page_size)
              else resolve m root addr))
      → MapsTo m root page n (returns (ok tt, m'))

module _ (m : Machine) (root : PhysAddr) (page : Page) (flags n : ℕ) (few : flags < 512)
    (odd : flags % 2 ≡ 1) (small : n < 2 ^ 40) where
  abbrev l1 : ℕ
  l1 = (translate page.start_address).1

  abbrev l2 : ℕ
  l2 = (translate page.start_address).2

  abbrev l3 : ℕ
  l3 = (translate page.start_address).3

  abbrev l4 : ℕ
  l4 = (translate page.start_address).4

  -- Machines in which every address leads to the same.
  abbrev Same : Machine → Type 0
  Same m' = (is : List ℕ) → length is ≡ 4 → walk m' root is ≡ walk m root is

  resolves : (m' : Machine) → Same m' → (addr : ℕ) → resolve m' root addr ≡ resolve m root addr
  resolves m' same addr =
      ap (λ o. bind o (λ frame. some (frame + (translate addr).0))) (same (path_of addr) refl)

  -- The tables of the page are there.
  module _ (m1 : Machine) (place : Places) (tree : IsTree m1 root place) (same : Same m1)
      (t3 t2 t1 : ℕ) (e4 : leads m1 root l4 ≡ some t3) (e3 : leads m1 t3 l3 ≡ some t2)
      (e2 : leads m1 t2 l2 ≡ some t1) where
    abbrev written : Machine
    written = with_entry m1 t1 l1 (entry_new flags (n * page_size))

    at3 : place t3 ≡ some (l4 ∷ [])
    at3 = tree.below root l4 t3 [] tree.root_at (omega arith) e4

    at2 : place t2 ≡ some (l3 ∷ l4 ∷ [])
    at2 = tree.below t3 l3 t2 (l4 ∷ []) at3 (omega arith) e3

    at1 : place t1 ≡ some (l2 ∷ l3 ∷ l4 ∷ [])
    at1 = tree.below t2 l2 t1 (l3 ∷ l4 ∷ []) at2 (omega arith) e2

    walk-page : walk written root (path_of page.start_address) ≡ some (n * page_size)
    unfolding walk
    walk-page =
        let inner =
          leads-inner m1 root place tree t1 l1 flags n (l2 ∷ l3 ∷ l4 ∷ []) at1 refl few odd small in
        rw
          (
            inner root l4 [] tree.root_at (omega arith) ∙ e4,
            inner t3 l3 (l4 ∷ []) at3 (omega arith) ∙ e3,
            inner t2 l2 (l3 ∷ l4 ∷ []) at2 (omega arith) ∙ e2,
            leads-final m1 root place tree t1 l1 flags n (l2 ∷ l3 ∷ l4 ∷ []) at1 refl few odd small,
          )
          refl

    resolve-written :
        (addr : ℕ)
        → resolve written root addr ≡ (
            if page_number addr == page_number page.start_address
            then some (n * page_size + addr % page_size)
            else resolve m root addr)
    resolve-written addr = elim (Bool-cases (page_number addr == page_number page.start_address)) [
      | inl here ↦
          let path = path_of-same addr page.start_address ((==_iff _ _).0 here) in
          rw here (
            ap (λ o. bind o (λ frame. some (frame + (translate addr).0)))
              (ap (walk written root) path ∙ walk-page)
            ∙ ap (λ k. some (n * page_size + k)) (offset_lem addr))
      | inr there ↦ rw there (
          ap (λ o. bind o (λ frame. some (frame + (translate addr).0)))
            (walk-other m1 root place tree t1 l1 flags n (l2 ∷ l3 ∷ l4 ∷ []) at1 refl few odd small
              root [] (path_of addr) tree.root_at refl
              (λ e. ==_ne _ _ there (path_of-page addr page.start_address (cc))))
          ∙ resolves m1 same addr)
    ]

    level_1 : MapsTo m root page n (returns (ok tt, written))
    level_1 =
        mapped written place
          (final-IsTree m1 root place tree t1 l1 flags n (l2 ∷ l3 ∷ l4 ∷ []) at1 refl few odd small)
          resolve-written

  level_2 :
      (m2 : Machine) (place : Places)
      → IsTree m2 root place
      → Same m2
      → (t3 t2 : ℕ) → leads m2 root l4 ≡ some t3
      → leads m2 t3 l3 ≡ some t2
      → place t3 ≡ some (l4 ∷ [])
      → (r : Call PhysAddr) → Grows m2 root place t2 l2 (l3 ∷ l4 ∷ []) r
      → MapsTo m root page n (
          and_then r
            (λ t1 m1. returns (ok tt, with_entry m1 t1 l1 (entry_new flags (n * page_size)))))
  level_2 m2 place tree same t3 t2 e4 e3 placed3 r (full none_free) =
      no_frame m2 place tree none_free (resolves m2 same)
  level_2 m2 place tree same t3 t2 e4 e3 placed3 r
        (grown t1 m1 place1 tree1 placed1 e2 keeps kept walks) =
      level_1 m1 place1 tree1 (λ is h. walks root [] is tree.root_at (omega arith) ∙ same is h) t3
        t2 t1 (kept root l4 t3 [] tree.root_at e4) (kept t3 l3 t2 (l4 ∷ []) placed3 e3) e2

  level_3 :
      (m3 : Machine) (place : Places)
      → IsTree m3 root place
      → Same m3
      → (t3 : ℕ) → leads m3 root l4 ≡ some t3
      → place t3 ≡ some (l4 ∷ [])
      → (r : Call PhysAddr) → Grows m3 root place t3 l3 (l4 ∷ []) r
      → MapsTo m root page n (
          and_then r (λ t2 m2.
            and_then
              (map_entry m2 t2 l2 flags)
              (λ t1 m1. returns (ok tt, with_entry m1 t1 l1 (entry_new flags (n * page_size))))))
  level_3 m3 place tree same t3 e4 placed3 r (full none_free) =
      no_frame m3 place tree none_free (resolves m3 same)
  level_3 m3 place tree same t3 e4 placed3 r
        (grown t2 m2 place2 tree2 placed2 e3 keeps kept walks) =
      level_2 m2 place2 tree2 (λ is h. walks root [] is tree.root_at (omega arith) ∙ same is h) t3
        t2 (kept root l4 t3 [] tree.root_at e4) e3 (keeps t3 (l4 ∷ []) placed3)
        (map_entry m2 t2 l2 flags)
        (map_entry-Grows m2 root place2 tree2 t2 l2 flags (l3 ∷ l4 ∷ []) placed2 (omega arith) few
          odd)

  level_4 :
      (place : Places) (tree : IsTree m root place) (r : Call PhysAddr)
      → Grows m root place root l4 [] r
      → MapsTo m root page n (
          and_then r (λ t3 m3. and_then (map_entry m3 t3 l3 flags) (λ t2 m2.
            and_then
              (map_entry m2 t2 l2 flags)
              (λ t1 m1. returns (ok tt, with_entry m1 t1 l1 (entry_new flags (n * page_size)))))))
  level_4 place tree r (full none_free) =
      no_frame m place tree none_free (resolves m (λ is h. refl))
  level_4 place tree r (grown t3 m3 place3 tree3 placed3 e4 keeps kept walks) =
      level_3 m3 place3 tree3 (λ is h. walks root [] is tree.root_at (omega arith)) t3 e4 placed3
        (map_entry m3 t3 l3 flags)
        (map_entry-Grows m3 root place3 tree3 t3 l3 flags (l4 ∷ []) placed3 (omega arith) few odd)

-- On tables that are a tree, with the flag `PRESENT` and no flag past bit 8, `map_to` does not panic
-- for a frame below 2^52. When it succeeds, the addresses of the page lead into the frame and every
-- other address leads where it led before; when it fails, no frame is free from `search_from` on, and
-- every address leads where it led before. The tables are a tree afterwards.
pub map_to-MapsTo :
    (m : Machine) (root : PhysAddr) (place : Places) (page : Page) (flags n : ℕ)
    → IsTree m root place
    → flags < 512
    → flags % 2 ≡ 1
    → n < 2 ^ 40
    → MapsTo m root page n (map_to m root page (frame_at n) flags)
unfolding map_to
map_to-MapsTo m root place page flags n tree few odd small =
    level_4 m root page flags n few odd small place tree
      (map_entry m root (translate page.start_address).4 flags)
      (map_entry-Grows m root place tree root (translate page.start_address).4 flags [] tree.root_at
        (omega arith) few odd)
