-- ===== src/Memory/Frames/Mark.antt =====
-- `set_used` and `set_unused` as operations on the set of free frames.
use navi_os.Base.{
  ℕ, ◌*◌, ◌/◌, ◌%◌, ◌<◌, ◌≡◌, refl, sym, ◌∙◌, ap, Bool, false, some, not, List, length, get_elem?,
  set, ◌==◌, if◌then◌else◌, Outcome, returns, arith, All-set, All-get_elem?, length-set,
  get_elem?-some,
}
use navi_os.Memory.{usize_mod, page_size}
use navi_os.Memory.Address.{align_down_lem}
use navi_os.Memory.Frames.{RegionAllocator, is_clear, set_used, set_unused, bitmap_loc_from_addr}
use navi_os.Memory.Frames.Bitmap.{
  IsValid, clear_in, is_free, is_free-set, is_clear-or, is_clear-xor, or-lt, xor-lt,
}

pub bitmap_loc_from_addr_lem :
    (addr : ℕ)
    → addr < usize_mod
    → bitmap_loc_from_addr addr ≡ (addr / page_size / 8, addr / page_size % 8)
unfolding bitmap_loc_from_addr
bitmap_loc_from_addr_lem addr h =
    ap (λ (a : ℕ). (a / page_size / 8, a / page_size % 8)) (align_down_lem 12 addr (omega arith) h)
    ∙ ap (λ (n : ℕ). (n / 8, n % 8)) (omega arith)

-- A call that returns, and changes the free frames in the bit of frame `i` alone.
pub record Marks (this : RegionAllocator) (i : ℕ) (change : Bool → Bool)
    (r : Outcome RegionAllocator) : Type 0 where
  pub next : List ℕ
  pub returned : r ≡ returns (record this { bitmap = next })
  pub size : length next ≡ length this.bitmap
  pub valid : IsValid (record this { bitmap = next })
  pub bits :
      (j : ℕ)
      → is_free next j ≡ (if i == j then change (is_free this.bitmap i) else is_free this.bitmap j)

module _ (this : RegionAllocator) (v : IsValid this) (addr : ℕ)
    (inside : addr / page_size < length this.bitmap * 8) where
  small : addr < usize_mod
  small = omega (arith, v.fits)

  row_in : addr / page_size / 8 < length this.bitmap
  row_in = omega arith

  -- A write of one byte with the bits of the old one, the marked one changed.
  mark :
      (change : Bool → Bool) (b b' : ℕ)
      → get_elem? this.bitmap (addr / page_size / 8) ≡ some b
      → b' < 256
      → ((d : ℕ)
          → d < 8
          → is_clear b' d ≡ (
              if addr / page_size % 8 == d
              then change (is_clear b (addr / page_size % 8))
              else is_clear b d))
      → Marks this
          (addr / page_size)
          change
          (returns (record this { bitmap = set this.bitmap (addr / page_size / 8) b' }))
  mark change b b' read hb law = record {
    next = set this.bitmap (addr / page_size / 8) b';
    returned = refl;
    size = length-set this.bitmap _ b';
    valid = record {
      bytes = All-set (λ b. b < 256) this.bitmap _ b' v.bytes hb;
      fits = rw (length-set this.bitmap (addr / page_size / 8) b') v.fits;
    };
    bits = λ j.
        is_free-set this.bitmap (addr / page_size) b b' _ read law j
        ∙ ap
            (λ o.
              if addr / page_size == j
              then change (clear_in o (addr / page_size % 8))
              else is_free this.bitmap j)
            (sym read);
  }

  pub set_used-Marks : Marks this (addr / page_size) (λ _. false) (set_used this addr)
  unfolding set_used
  set_used-Marks =
      let (b, read) = get_elem?-some this.bitmap (addr / page_size / 8) row_in in
      let hb = All-get_elem? (λ b. b < 256) this.bitmap (addr / page_size / 8) b v.bytes read in
      rw (bitmap_loc_from_addr_lem addr small, read)
        (mark (λ _. false) b _ read (or-lt b (addr / page_size % 8) hb (omega arith))
          (λ d hd. is_clear-or b (addr / page_size % 8) d hb (omega arith) hd))

  pub set_unused-Marks : Marks this (addr / page_size) not (set_unused this addr)
  unfolding set_unused
  set_unused-Marks =
      let (b, read) = get_elem?-some this.bitmap (addr / page_size / 8) row_in in
      let hb = All-get_elem? (λ b. b < 256) this.bitmap (addr / page_size / 8) b v.bytes read in
      rw (bitmap_loc_from_addr_lem addr small, read)
        (mark not b _ read (xor-lt b (addr / page_size % 8) hb (omega arith))
          (λ d hd. is_clear-xor b (addr / page_size % 8) d hb (omega arith) hd))
