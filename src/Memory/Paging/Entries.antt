-- ===== src/Memory/Paging/Entries.antt =====
-- What the entry of a page table holds: an address and its flags.
use navi_os.Base.{
  ℕ, ◌+◌, ◌*◌, ◌/◌, ◌%◌, ◌^◌, ◌<◌, ◌≡◌, refl, ◌∙◌, ap, arith, true, none, some, ◌==◌, bit_and,
  bit_or,
}
use navi_os.Base.Bits.{bit_and-ones, bit_and-high}
use navi_os.Base.Masks.{bit_or-halves, bit_or-high, bit_or-lt, bit_and-flags}
use navi_os.Memory.{page_size, align_down}
use navi_os.Memory.Address.{align_down_lem}
use navi_os.Memory.Frames.{containing_address}
use navi_os.Memory.Frames.Allocate.{frame_at}
use navi_os.Memory.Paging.{Entry, entry_flags, entry_is_mapped, entry_frame, entry_new}

-- An entry of the kernel's tables: an address of 52 bits, and no flag above it.
abbrev pub Small : Entry → Type 0
Small e = e < 2 ^ 52

pub entry_is_mapped-eq : (e : Entry) → Small e → entry_is_mapped e ≡ (e % 2 == 1)
unfolding entry_is_mapped
entry_is_mapped-eq e h =
    rw (bit_and-flags e h, bit_and-ones 1 (e % 512)) (ap (λ (n : ℕ). n == 1) (omega arith))

pub entry_frame-eq :
    (e : Entry) → Small e → e % 2 ≡ 1 → entry_frame e ≡ some (frame_at (e / page_size))
unfolding entry_frame containing_address
entry_frame-eq e h odd =
    let mapped : entry_is_mapped e ≡ true = entry_is_mapped-eq e h ∙ ap (λ (n : ℕ). n == 1) odd in
    let mask : bit_and e 0x000FFFFFFFFFF000 ≡ e / 4096 * 4096 =
      bit_and-high 12 52 e (omega arith) h in
    let down : align_down (e / 4096 * 4096) 4096 ≡ e / 4096 * 4096 =
      align_down_lem 12 (e / 4096 * 4096) (omega arith) (omega arith) ∙ omega arith in
    rw (mapped, mask, down) refl

pub entry_frame-none : (e : Entry) → Small e → e % 2 ≡ 0 → entry_frame e ≡ none
unfolding entry_frame
entry_frame-none e h even = rw (entry_is_mapped-eq e h ∙ ap (λ (n : ℕ). n == 1) even) refl

-- A new entry of a frame, with the bit that says that it is present.
module _ (flags k : ℕ) (few : flags < 512) (odd : flags % 2 ≡ 1) (small : k < 2 ^ 40) where
  entry_new-eq : entry_new flags (k * page_size) ≡ k * page_size + flags
  unfolding entry_new
  entry_new-eq = bit_or-high 12 k flags (omega arith)

  pub entry_new-Small : Small (entry_new flags (k * page_size))
  entry_new-Small = rw entry_new-eq (omega arith)

  pub entry_new-odd : entry_new flags (k * page_size) % 2 ≡ 1
  entry_new-odd = rw entry_new-eq (omega arith)

  pub entry_new-frame : entry_new flags (k * page_size) / page_size ≡ k
  entry_new-frame = rw entry_new-eq (omega arith)

-- The flags of an entry with more of them added.
pub or_flags :
    (flags : ℕ) (e : Entry)
    → flags < 512
    → flags % 2 ≡ 1
    → Small e
    → (bit_or flags (entry_flags e) < 512) × (bit_or flags (entry_flags e) % 2 ≡ 1)
unfolding entry_flags
or_flags flags e few odd small =
    rw (bit_and-flags e small)
      (bit_or-lt 9 flags (e % 512) few (omega arith), omega (arith, bit_or-halves flags (e % 512)))
