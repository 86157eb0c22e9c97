-- ===== src/Memory/Frames/Setup.antt =====
-- `RegionAllocator::new` of kernel/src/memory/frame_allocator.rs, over the memory map that the
-- bootloader hands over. Of the type of an entry only the test for `USABLE` is kept.
use navi_os.Base.{
  ℕ, ◌/◌, Bool, true, false, ◌&&◌, Option, none, some, List, [], ◌∷◌, ltb, leb, ◌==◌, replicate,
  if◌then◌else◌, Outcome, returns, panics, ◌>>=◌, unwrap,
}
use navi_os.Memory.{PhysAddr, page_size, usize_add, align_up, align_down}
use navi_os.Memory.Frames.{RegionAllocator, bitmap_index_from_addr, set_unused_from, set_used_from}

pub record MemoryMapEntry : Type 0 where
  pub base : PhysAddr
  pub length : ℕ
  pub usable : Bool

-- The first loop: the last usable entry, and the first one.
unfoldable pub last_usable_entry :
    List MemoryMapEntry → Option MemoryMapEntry → Option MemoryMapEntry
last_usable_entry [] last = last
last_usable_entry (entry ∷ entries) last =
    last_usable_entry entries (if entry.usable then some entry else last)

abbrev pub or_entry : Option MemoryMapEntry → MemoryMapEntry → Option MemoryMapEntry
or_entry none entry = some entry
or_entry (some first) entry = some first

unfoldable pub first_usable_entry :
    List MemoryMapEntry → Option MemoryMapEntry → Option MemoryMapEntry
first_usable_entry [] first = first
first_usable_entry (entry ∷ entries) first =
    first_usable_entry entries (if entry.usable then or_entry first entry else first)

-- The second loop: the smallest usable region that holds the bitmap.
abbrev pub is_better : Option MemoryMapEntry → MemoryMapEntry → Bool
is_better none entry = true
is_better (some best) entry = ltb entry.length best.length

unfoldable pub best_region : ℕ → List MemoryMapEntry → Option MemoryMapEntry → Option MemoryMapEntry
best_region bytes [] best = best
best_region bytes (entry ∷ entries) best =
    best_region bytes entries
      (if entry.usable && leb bytes entry.length && is_better best entry then some entry else best)

unfoldable pub bitmap_bytes : MemoryMapEntry → ℕ
unfolding align_up align_down
bitmap_bytes last =
    align_up (align_down (usize_add last.base last.length) page_size / page_size) 8 / 8

-- The third loop: the frames of the usable entries are free, up to the last usable entry.
unfoldable pub free_usable :
    PhysAddr → List MemoryMapEntry → RegionAllocator → Outcome RegionAllocator
unfolding set_unused_from
free_usable last_base [] this = returns this
free_usable last_base (entry ∷ entries) this = do
  next ← (if entry.usable then set_unused_from this entry.base entry.length else returns this)
  elim (entry.base == last_base) [
    | true ↦ returns next
    | false ↦ free_usable last_base entries next
  ]

-- The bitmap with every frame in use, and the place where the search starts.
abbrev pub all_used : ℕ → MemoryMapEntry → RegionAllocator
all_used bytes first = record {
  bitmap = replicate bytes 0xFF;
  search_from = bitmap_index_from_addr (align_up first.base page_size);
}

-- `assert!`
abbrev pub assert : Bool → Outcome (Unit {0})
assert true = returns tt
assert false = panics

unfoldable pub new : List MemoryMapEntry → Outcome RegionAllocator
unfolding last_usable_entry first_usable_entry best_region bitmap_bytes free_usable set_used_from
new entries = do
  last ← unwrap (last_usable_entry entries none)
  let bytes = bitmap_bytes last
  best ← unwrap (best_region bytes entries none)
  _ ← assert (ltb 0 bytes)
  first ← unwrap (first_usable_entry entries none)
  this ← free_usable last.base entries (all_used bytes first)
  set_used_from this best.base best.length
