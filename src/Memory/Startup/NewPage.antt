-- ===== src/Memory/Startup/NewPage.antt =====
-- A page mapped to a new frame.
use navi_os.Base.{
  ℕ, ◌+◌, ◌*◌, ◌%◌, ◌≤◌, ◌≡◌, refl, sym, ◌∙◌, ap, arith, true, false, Option, some, length, ◌==◌,
  if◌then◌else◌, Outcome, returns, subst, bit_or,
}
use navi_os.Memory.{PhysAddr, page_size, translate}
use navi_os.Memory.Frames.{Frame, RegionAllocator, allocate_frame}
use navi_os.Memory.Frames.Bitmap.{is_free, IsValid}
use navi_os.Memory.Frames.Allocate.{
  frame_at, Allocates, exhausted, allocated, allocate_frame-Allocates,
}
use navi_os.Memory.Paging.{
  Machine, Page, Call, ok, err, frame_allocation_failed, new_frame, map_to, present, writable,
}
use navi_os.Memory.Paging.Tree.{IsTree, Places, walk-cong, bind}
use navi_os.Memory.Paging.Address.{resolve, page_number, path_of}
use navi_os.Memory.Paging.MapTo.{MapsTo, no_frame, mapped, map_to-MapsTo}
use navi_os.Memory.Startup.{map_new}

-- What `map_new` may do.
pub data MapsNew (m : Machine) (root : PhysAddr) (page : Page) : Call (Unit {0}) → Type 0 where
  failed :
      (m' : Machine) (place : Places)
      → IsTree m' root place
      → ((k : ℕ) → m'.frame_allocator.search_from ≤ k → is_free m'.frame_allocator.bitmap k ≡ false)
      → ((addr : ℕ) → resolve m' root addr ≡ resolve m root addr)
      → MapsNew m root page (returns (err frame_allocation_failed, m'))
  added :
      (n : ℕ) (m' : Machine) (place : Places)
      → IsTree m' root place
      → ((addr : ℕ)
          → resolve m' root addr ≡ (
              if page_number addr == page_number page.start_address
              then some (n * page_size + addr % page_size)
              else resolve m root addr))
      → MapsNew m root page (returns (ok tt, m'))

module _ (m : Machine) (root : PhysAddr) (place : Places) (tree : IsTree m root place)
    (page : Page) where
  abbrev taken : RegionAllocator → Machine
  taken rest = record m { frame_allocator = rest }

  taken-IsTree :
      (n : ℕ) (rest : RegionAllocator)
      → ((k : ℕ)
          → is_free rest.bitmap k ≡ (if n == k then false else is_free m.frame_allocator.bitmap k))
      → IsValid rest
      → length rest.bitmap ≡ length m.frame_allocator.bitmap
      → IsTree (taken rest) root place
  taken-IsTree n rest bits valid size = record {
    root_at = tree.root_at;
    valid = valid;
    within = omega (arith, size, tree.within);
    entries = tree.entries;
    below = tree.below;
    unused = λ k h. tree.unused k (still n rest k (bits k) h);
  }
    where
      still :
          (n : ℕ) (rest : RegionAllocator) (k : ℕ)
          → is_free rest.bitmap k ≡ (if n == k then false else is_free m.frame_allocator.bitmap k)
          → is_free rest.bitmap k ≡ true
          → is_free m.frame_allocator.bitmap k ≡ true
      still n rest k e h = ground arith

  same_resolve :
      (rest : RegionAllocator) (addr : ℕ) → resolve (taken rest) root addr ≡ resolve m root addr
  same_resolve rest addr =
      ap (λ o. bind o (λ frame. some (frame + (translate addr).0)))
        (walk-cong m (taken rest) (λ t i. refl) root (path_of addr))

  from_MapsTo :
      (rest : RegionAllocator) (n : ℕ) (r : Call (Unit {0}))
      → MapsTo (taken rest) root page n r
      → MapsNew m root page r
  from_MapsTo rest n r (no_frame m' place' tree' none_free same) =
      failed m' place' tree' none_free (λ addr. same addr ∙ same_resolve rest addr)
  from_MapsTo rest n r (mapped m' place' tree' law) = added n m' place' tree' (λ addr.
      law addr
      ∙ ap
          (λ o.
            if page_number addr == page_number page.start_address
            then some (n * page_size + addr % page_size)
            else o)
          (same_resolve rest addr))

  with_frame :
      (r : Outcome (Option Frame × RegionAllocator))
      → allocate_frame m.frame_allocator ≡ r
      → Allocates m.frame_allocator r
      → MapsNew m root page (map_new m root page)
  unfolding map_new new_frame
  with_frame r run (exhausted none_free) =
      subst (MapsNew m root page) (sym (rw run refl)) (failed m place tree none_free (λ addr. refl))
  with_frame r run (allocated n rest from inside free first bits valid search size) =
      let flags : ℕ = bit_or present writable in
      subst (MapsNew m root page) (sym (rw run refl)) (
        from_MapsTo rest n (map_to (taken rest) root page (frame_at n) flags) (
          map_to-MapsTo (taken rest) root place page flags n (taken-IsTree n rest bits valid size)
            (omega arith) (omega arith) (omega (arith, tree.within))))

  pub map_new-MapsNew : MapsNew m root page (map_new m root page)
  map_new-MapsNew =
      with_frame (allocate_frame m.frame_allocator) refl
        (allocate_frame-Allocates m.frame_allocator tree.valid)
