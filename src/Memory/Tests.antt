-- ===== src/Memory/Tests.antt =====
-- Runs of the memory module on small inputs.
use navi_os.Base.{
  ℕ, ◌+◌, ◌*◌, ◌^◌, ◌≤◌, ◌<◌, ◌≡◌, refl, not, some, [], ◌∷◌, returns, panics, ◌>>=◌, arith,
}
use navi_os.Memory.{align_up, align_down, translate}
use navi_os.Memory.Address.{align_down_lem, align_up_lem, translate_lem}
use navi_os.Memory.Frames.{
  bitmap_loc_from_addr, RegionAllocator, allocate_frame, deallocate_frame, set_used_from,
}
use navi_os.Memory.Frames.Bitmap.{IsValid, is_free}
use navi_os.Memory.Frames.Mark.{Marks}
use navi_os.Memory.Frames.Allocate.{
  frame_at, Allocates, allocate_frame-Allocates, deallocate_frame-Marks, deallocate_frame_twice,
  deallocate_frame-allocate_frame,
}

align_up_run : align_up 4097 4096 ≡ 8192
unfolding align_up
align_up_run = refl

translate_run : translate 0xFFFF_8000_0020_1234 ≡ (0x234, 1, 1, 0, 256)
unfolding translate
translate_run = refl

align_down_lem_example : align_down 8195 (2 ^ 12) ≡ 2 * 4096
align_down_lem_example = align_down_lem 12 8195 (omega arith) (omega arith)

align_up_lem_example :
    (q : ℕ) × (align_up 8195 (2 ^ 12) ≡ q * 2 ^ 12)
    × (8195 ≤ q * 2 ^ 12)
    × (q * 2 ^ 12 < 8195 + 2 ^ 12)
align_up_lem_example = align_up_lem 12 8195 (omega arith) (omega arith)

translate_lem_example :
    let (offset, l1, l2, l3, l4) = translate 0x8040_2010_1234 in
    (offset < 4096)
    × (l1 < 512)
    × (l2 < 512)
    × (l3 < 512)
    × (l4 < 512)
    × (l4 * 2 ^ 39 + l3 * 2 ^ 30 + l2 * 2 ^ 21 + l1 * 2 ^ 12 + offset ≡ 0x8040_2010_1234)
translate_lem_example = translate_lem 0x8040_2010_1234 (omega arith)

-- Frames 0 to 3 are in use, 4 to 15 are free, and the search starts at frame 2.
abbrev sixteen : RegionAllocator
sixteen = record { bitmap = 0x0F ∷ 0 ∷ []; search_from = 2 }

sixteen-IsValid : IsValid sixteen
sixteen-IsValid = record { bytes = omega arith; fits = omega arith }

allocate_run :
    allocate_frame sixteen
    ≡ returns (some (frame_at 4), record { bitmap = 0x1F ∷ 0 ∷ []; search_from = 2 })
unfolding allocate_frame bitmap_loc_from_addr
allocate_run = refl

used_run :
    set_used_from (record { bitmap = 0 ∷ 0 ∷ []; search_from = 0 }) 0x2000 0x1001
    ≡ returns (record { bitmap = 0x0C ∷ 0 ∷ []; search_from = 0 })
unfolding set_used_from bitmap_loc_from_addr
used_run = refl

outside_run : deallocate_frame sixteen (frame_at 16) ≡ panics
unfolding deallocate_frame bitmap_loc_from_addr
outside_run = refl

allocate_frame-Allocates_example : Allocates sixteen (allocate_frame sixteen)
allocate_frame-Allocates_example = allocate_frame-Allocates sixteen sixteen-IsValid

deallocate_frame-Marks_example : Marks sixteen 3 not (deallocate_frame sixteen (frame_at 3))
deallocate_frame-Marks_example = deallocate_frame-Marks sixteen 3 sixteen-IsValid (omega arith)

deallocate_frame_twice_example :
    (next : RegionAllocator) × ((deallocate_frame sixteen (frame_at 3) >>= λ once.
    deallocate_frame once (frame_at 3))
      ≡ returns next)
    × ((k : ℕ) → is_free next.bitmap k ≡ is_free sixteen.bitmap k)
deallocate_frame_twice_example = deallocate_frame_twice sixteen 3 sixteen-IsValid (omega arith)

deallocate_frame-allocate_frame_example :
    (last : RegionAllocator) × (deallocate_frame
        (record { bitmap = 0x1F ∷ 0 ∷ []; search_from = 2 })
        (frame_at 4)
      ≡ returns last)
    × ((k : ℕ) → is_free last.bitmap k ≡ is_free sixteen.bitmap k)
deallocate_frame-allocate_frame_example =
    deallocate_frame-allocate_frame sixteen (record { bitmap = 0x1F ∷ 0 ∷ []; search_from = 2 })
      (frame_at 4) sixteen-IsValid allocate_run
