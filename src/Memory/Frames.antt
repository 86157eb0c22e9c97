-- ===== src/Memory/Frames.antt =====
-- kernel/src/memory/frame_allocator.rs: the bitmap allocator of physical frames. `bitmap` is the
-- slice of bytes; bit `i % 8` of byte `i / 8` is set while frame `i` is in use. An index out of
-- bounds of the slice is a panic.
pub mod Bitmap
pub mod Mark
pub mod Search
pub mod Allocate
pub mod Setup
pub mod Region
pub mod Fresh
pub mod Tests
use navi_os.Base.{
  ℕ, zero, suc, ◌+◌, ◌-◌, ◌*◌, ◌/◌, ◌%◌, Bool, true, false, Option, none, some, List, [], ◌∷◌,
  length, get_elem?, set, bit_and, bit_or, bit_xor, ◌==◌, if◌then◌else◌, Outcome, returns, unwrap,
  ◌>>=◌,
}
use navi_os.Base.Bits.{shr, shl}
use navi_os.Memory.{PhysAddr, page_size, align_up, align_down}

pub record Frame : Type 0 where
  pub start_address : PhysAddr

unfoldable pub containing_address : PhysAddr → Frame
containing_address address = record { start_address = align_down address page_size }

pub record RegionAllocator : Type 0 where
  pub bitmap : List ℕ
  pub search_from : ℕ

unfoldable pub bitmap_loc_from_index : ℕ → ℕ × ℕ
bitmap_loc_from_index index = (index / 8, index % 8)

unfoldable pub bitmap_loc_from_addr : PhysAddr → ℕ × ℕ
unfolding bitmap_loc_from_index align_down
bitmap_loc_from_addr addr = bitmap_loc_from_index (align_down addr page_size / page_size)

unfoldable pub bitmap_index_from_loc : ℕ → ℕ → ℕ
bitmap_index_from_loc row col = row * 8 + col

pub bitmap_index_from_addr : PhysAddr → ℕ
unfolding bitmap_loc_from_addr bitmap_index_from_loc
bitmap_index_from_addr addr =
    let (row, col) = bitmap_loc_from_addr addr in bitmap_index_from_loc row col

-- The test `(byte >> col) & 1 == 0`.
abbrev pub is_clear : ℕ → ℕ → Bool
is_clear byte col = bit_and (shr byte col) 1 == 0

-- The inner loop of `search_for_free_frame`, at column `col` with `left` columns to go.
pub search_cols : ℕ → ℕ → ℕ → Option ℕ
search_cols byte zero col = none
search_cols byte (suc left) col =
    if is_clear byte col then some col else search_cols byte left (col + 1)

-- The outer loop, at row `row` with `left` rows to go. The first row starts at column `scol`, the
-- others at 0.
pub search_rows : List ℕ → ℕ → ℕ → ℕ → ℕ → Outcome (Option Frame)
unfolding search_cols bitmap_index_from_loc
search_rows bitmap srow zero row scol = returns none
search_rows bitmap srow (suc left) row scol = do
  let scol' = if row == srow then scol else 0
  byte ← unwrap (get_elem? bitmap row)
  elim (search_cols byte (8 - scol') scol') [
    | some col ↦
        returns (some (record { start_address = bitmap_index_from_loc row col * page_size }))
    | none ↦ search_rows bitmap srow left (row + 1) scol'
  ]

pub search_for_free_frame : RegionAllocator → Outcome (Option Frame)
unfolding search_rows bitmap_loc_from_index
search_for_free_frame this =
    let (srow, scol) = bitmap_loc_from_index this.search_from in
    search_rows this.bitmap srow (length this.bitmap - srow) srow scol

unfoldable pub set_unused : RegionAllocator → PhysAddr → Outcome RegionAllocator
set_unused this addr = do
  let row = (bitmap_loc_from_addr addr).0
  let col = (bitmap_loc_from_addr addr).1
  byte ← unwrap (get_elem? this.bitmap row)
  returns (record this { bitmap = set this.bitmap row (bit_xor byte (shl 1 col)) })

unfoldable pub set_used : RegionAllocator → PhysAddr → Outcome RegionAllocator
set_used this addr = do
  let row = (bitmap_loc_from_addr addr).0
  let col = (bitmap_loc_from_addr addr).1
  byte ← unwrap (get_elem? this.bitmap row)
  returns (record this { bitmap = set this.bitmap row (bit_or byte (shl 1 col)) })

unfoldable pub allocate_frame : RegionAllocator → Outcome (Option Frame × RegionAllocator)
unfolding search_for_free_frame set_used
allocate_frame this = do
  found ← search_for_free_frame this
  elim found [
    | none ↦ returns (none, this)
    | some frame ↦ set_used this frame.start_address >>= λ next. returns (some frame, next)
  ]

unfoldable pub deallocate_frame : RegionAllocator → Frame → Outcome RegionAllocator
unfolding set_unused
deallocate_frame this frame = set_unused this frame.start_address

-- The loops of `set_used_from` and `set_unused_from`, with `left` frames to go.
pub set_used_loop : ℕ → ℕ → PhysAddr → RegionAllocator → Outcome RegionAllocator
unfolding set_used
set_used_loop zero frame from this = returns this
set_used_loop (suc left) frame from this =
    set_used this (from + frame * page_size) >>= set_used_loop left (frame + 1) from

unfoldable pub set_used_from : RegionAllocator → PhysAddr → ℕ → Outcome RegionAllocator
unfolding set_used_loop align_up
set_used_from this from size = set_used_loop (align_up size page_size / page_size) 0 from this

pub set_unused_loop : ℕ → ℕ → PhysAddr → RegionAllocator → Outcome RegionAllocator
unfolding set_unused
set_unused_loop zero frame from this = returns this
set_unused_loop (suc left) frame from this =
    set_unused this (from + frame * page_size) >>= set_unused_loop left (frame + 1) from

unfoldable pub set_unused_from : RegionAllocator → PhysAddr → ℕ → Outcome RegionAllocator
unfolding set_unused_loop align_down
set_unused_from this from size = set_unused_loop (align_down size page_size / page_size) 0 from this
