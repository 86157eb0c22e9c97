-- ===== src/Memory/Frames/Tests.antt =====
-- A memory map of two usable regions.
use navi_os.Base.{◌≡◌, refl, true, false, List, [], ◌∷◌, returns, arith}
use navi_os.Memory.Frames.{bitmap_loc_from_addr, bitmap_index_from_addr}
use navi_os.Memory.Frames.Setup.{MemoryMapEntry, new, last_usable_entry, best_region, bitmap_bytes}
use navi_os.Memory.Frames.Fresh.{IsMap, IsFresh, new-IsFresh}

abbrev low : MemoryMapEntry
low = record { base = 0x1000; length = 0x3000; usable = true }

abbrev hole : MemoryMapEntry
hole = record { base = 0x4000; length = 0x4000; usable = false }

abbrev high : MemoryMapEntry
high = record { base = 0x8000; length = 0x2000; usable = true }

abbrev map_of_two : List MemoryMapEntry
map_of_two = low ∷ hole ∷ high ∷ []

-- Frames 1 to 3 are free. The bitmap lives in the region of frames 8 and 9.
new_run : new map_of_two ≡ returns (record { bitmap = 0xF1 ∷ 0xFF ∷ []; search_from = 1 })
unfolding new bitmap_loc_from_addr bitmap_index_from_addr
new_run = refl

map_of_two-IsMap : IsMap map_of_two high high
unfolding last_usable_entry best_region bitmap_bytes
map_of_two-IsMap = record {
  last_is = refl;
  best_is = refl;
  aligned = (
    λ _. (refl, refl, omega arith),
    (λ e. absurd (false-ne-true e), (λ _. (refl, refl, omega arith), tt)),
  );
  some_memory = omega arith;
  small = omega arith;
}
  where
    false-ne-true : false ≡ true → ⊥
    false-ne-true e = cc

new-IsFresh_example : IsFresh map_of_two high (new map_of_two)
new-IsFresh_example = new-IsFresh map_of_two high high map_of_two-IsMap
