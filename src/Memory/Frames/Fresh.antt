-- ===== src/Memory/Frames/Fresh.antt =====
-- `RegionAllocator::new` frees only frames of usable memory, and none of the bitmap's region.
use navi_os.Base.{
  ℕ, zero, suc, ◌+◌, ◌*◌, ◌/◌, ◌%◌, ◌≤◌, ◌<◌, ◌≡◌, refl, sym, ◌∙◌, ap, subst, Bool, true, false,
  not, Option, none, some, List, [], ◌∷◌, length, get_elem?, ltb, leb, ◌&&◌, ◌==◌, replicate, All,
  length-replicate, Bool-cases, ◌⊎◌, inl, inr, if◌then◌else◌, Outcome, returns, arith,
}
use navi_os.Base.Bits.{holds_under, holds_under-at}
use navi_os.Memory.{page_size, usize_mod, usize_add, align_up, align_down}
use navi_os.Memory.Address.{align_up_lem, align_down_lem}
use navi_os.Memory.Frames.{
  RegionAllocator, is_clear, set_used_loop, set_unused_loop, set_used_from, set_unused_from,
}
use navi_os.Memory.Frames.Bitmap.{is_free, clear_in, IsValid}
use navi_os.Memory.Frames.Region.{
  InRange, FreesOnly, Takes, set_unused_loop-FreesOnly, set_used_loop-Takes,
}
use navi_os.Memory.Frames.Setup.{
  MemoryMapEntry, last_usable_entry, first_usable_entry, best_region, is_better, bitmap_bytes,
  free_usable, all_used, new,
}

-- What the bootloader documents of a usable entry, with the end of the last one: its base and
-- length are multiples of the page size, and no usable entry ends later.
abbrev pub IsAligned : ℕ → MemoryMapEntry → Type 0
IsAligned end entry =
    entry.usable ≡ true
    → (entry.base % page_size ≡ 0)
      × (entry.length % page_size ≡ 0)
      × (entry.base + entry.length ≤ end)

-- Frame `k` lies in an entry.
abbrev pub Holds : MemoryMapEntry → ℕ → Type 0
Holds entry k = InRange (entry.base / page_size) (entry.length / page_size) k

-- Frame `k` lies in a usable entry.
abbrev pub IsUsable : List MemoryMapEntry → ℕ → Type 0
IsUsable [] k = ⊥
IsUsable (entry ∷ entries) k = ((entry.usable ≡ true) × Holds entry k) ⊎ IsUsable entries k

module _ (this : RegionAllocator) (v : IsValid this) (end : ℕ) (entry : MemoryMapEntry)
    (room : end / page_size ≤ length this.bitmap * 8) (small : end < usize_mod)
    (base_aligned : entry.base % page_size ≡ 0) (length_aligned : entry.length % page_size ≡ 0)
    (inside : entry.base + entry.length ≤ end) where
  base_at : entry.base ≡ entry.base / page_size * page_size
  base_at = omega arith

  unset_entry : FreesOnly this (Holds entry) (set_unused_from this entry.base entry.length)
  unfolding set_unused_from
  unset_entry =
      let count : align_down entry.length page_size / page_size ≡ entry.length / page_size =
        omega (arith, align_down_lem 12 entry.length (omega arith) (omega arith)) in
      let start : entry.base / page_size + 0 ≡ entry.base / page_size = omega arith in
      rw count (
        subst
          (λ (b : ℕ).
            FreesOnly this (Holds entry) (set_unused_loop (entry.length / page_size) 0 b this))
          (sym base_at)
          (subst
            (λ (q : ℕ). FreesOnly this (InRange q (entry.length / page_size)) (
              set_unused_loop (entry.length / page_size) 0 (entry.base / page_size * page_size)
                this))
            start
            (set_unused_loop-FreesOnly (entry.length / page_size) 0 (entry.base / page_size) this v
              (omega arith))))

  take_entry :
      entry.length + page_size < usize_mod
      → Takes this
          (entry.base / page_size)
          (entry.length / page_size)
          (set_used_from this entry.base entry.length)
  unfolding set_used_from
  take_entry h =
      let (q, at, lo, hi) = align_up_lem 12 entry.length (omega arith) h in
      let count : align_up entry.length page_size / page_size ≡ entry.length / page_size =
        omega (arith, at) in
      let start : entry.base / page_size + 0 ≡ entry.base / page_size = omega arith in
      rw count (
        subst
          (λ (b : ℕ).
            Takes this (entry.base / page_size) (entry.length / page_size)
              (set_used_loop (entry.length / page_size) 0 b this))
          (sym base_at)
          (subst
            (λ (q : ℕ). Takes this q (entry.length / page_size) (
              set_used_loop (entry.length / page_size) 0 (entry.base / page_size * page_size) this))
            start
            (set_used_loop-Takes (entry.length / page_size) 0 (entry.base / page_size) this v
              (omega arith))))

-- One usable or other entry of the third loop.
step_entry :
    (this : RegionAllocator) (end : ℕ) (entry : MemoryMapEntry)
    → IsValid this
    → end / page_size ≤ length this.bitmap * 8
    → end < usize_mod
    → IsAligned end entry
    → FreesOnly this
        (λ k. (entry.usable ≡ true) × Holds entry k)
        (if entry.usable then set_unused_from this entry.base entry.length else returns this)
step_entry this end entry v room small h = elim (Bool-cases entry.usable) [
  | inr no_use ↦
      rw no_use
        (record { next = this; returned = refl; valid = v; size = refl; only = λ k e. inl e })
  | inl use_it ↦
      let (b, l, i) = h use_it in
      let f = unset_entry this v end entry room small b l i in
      rw use_it (record {
        next = f.next;
        returned = f.returned;
        valid = f.valid;
        size = f.size;
        only = λ k e. elim (f.only k e) [ inl old ↦ inl old | inr at ↦ inr (refl, at) ];
      })
]

free_usable-FreesOnly :
    (entries : List MemoryMapEntry) (last_base end : ℕ) (this : RegionAllocator)
    → IsValid this
    → end / page_size ≤ length this.bitmap * 8
    → end < usize_mod
    → All (IsAligned end) entries
    → FreesOnly this (IsUsable entries) (free_usable last_base entries this)
unfolding free_usable
free_usable-FreesOnly [] last_base end this v room small h = record {
  next = this;
  returned = refl;
  valid = v;
  size = refl;
  only = λ k e. inl e;
}
free_usable-FreesOnly (entry ∷ entries) last_base end this v room small h =
    let f = step_entry this end entry v room small h.0 in
    elim (Bool-cases (entry.base == last_base)) [
      | inl done ↦ record {
        next = f.next;
        returned = rw (f.returned, free_usable, done) refl;
        valid = f.valid;
        size = f.size;
        only = λ k e. elim (f.only k e) [ inl old ↦ inl old | inr at ↦ inr (inl at) ];
      }
      | inr more ↦
          let g =
            free_usable-FreesOnly entries last_base end f.next f.valid (omega (arith, f.size)) small
              h.1 in
          record {
            next = g.next;
            returned = rw (f.returned, free_usable, more) g.returned;
            valid = g.valid;
            size = g.size ∙ f.size;
            only = λ k e. elim (g.only k e) [
              | inr at ↦ inr (inr at)
              | inl old ↦ elim (f.only k old) [ inl older ↦ inl older | inr at ↦ inr (inl at) ]
            ];
          }
    ]

best_region-All :
    (P : MemoryMapEntry → Type 0) (bytes : ℕ) (entries : List MemoryMapEntry)
    (acc : Option MemoryMapEntry) (best : MemoryMapEntry)
    → All (λ e. e.usable ≡ true → P e) entries
    → ((e : MemoryMapEntry) → acc ≡ some e → P e)
    → best_region bytes entries acc ≡ some best
    → P best
unfolding best_region
best_region-All P bytes [] acc best h a e = a best e
best_region-All P bytes (entry ∷ entries) acc best h a e =
    best_region-All P bytes entries
      (if entry.usable && leb bytes entry.length && is_better acc entry then some entry else acc)
      best h.1
      (λ x s. chosen entry x (leb bytes entry.length) (is_better acc entry) entry.usable refl h.0 s)
      e
  where
    some-inj : (x y : MemoryMapEntry) → some x ≡ some y → x ≡ y
    some-inj x y s = cc

    chosen :
        (entry x : MemoryMapEntry) (fits better use_it : Bool)
        → entry.usable ≡ use_it
        → (entry.usable ≡ true → P entry)
        → (if use_it && fits && better then some entry else acc) ≡ some x
        → P x
    chosen entry x fits better false u h s = a x s
    chosen entry x false better true u h s = a x s
    chosen entry x true false true u h s = a x s
    chosen entry x true true true u h s = subst P (some-inj entry x s) (h u)

first_kept :
    (entries : List MemoryMapEntry) (entry : MemoryMapEntry)
    → first_usable_entry entries (some entry) ≡ some entry
unfolding first_usable_entry
first_kept [] entry = refl
first_kept (e ∷ entries) entry = elim (Bool-cases e.usable) [
  | inl u ↦ rw u (first_kept entries entry)
  | inr u ↦ rw u (first_kept entries entry)
]

first_exists :
    (entries : List MemoryMapEntry) (last : MemoryMapEntry)
    → last_usable_entry entries none ≡ some last
    → (first : MemoryMapEntry) × (first_usable_entry entries none ≡ some first)
unfolding first_usable_entry last_usable_entry
first_exists [] last e = absurd (none-ne-some e)
  where
    none-ne-some : none ≡ some last → ⊥
    none-ne-some e = cc
first_exists (entry ∷ entries) last e = elim (Bool-cases entry.usable) [
  | inl u ↦ (
    entry,
    ap (λ b. first_usable_entry entries (if b then some entry else none)) u
        ∙ first_kept entries entry,
  )
  | inr u ↦ rw u (first_exists entries last (rw u at e))
]

All-replicate : (n : ℕ) → All (λ b. b < 256) (replicate n 0xFF)
All-replicate zero = tt
All-replicate (suc n) = (omega arith, All-replicate n)

full_byte : holds_under (λ c. not (is_clear 0xFF c)) 8 ≡ true
unfolding holds_under
full_byte = refl

none_free : (n k : ℕ) → is_free (replicate n 0xFF) k ≡ false
none_free n k = go n (k / 8)
  where
    not-true : (b : Bool) → not b ≡ true → b ≡ false
    not-true true e = cc
    not-true false e = refl

    go : (n i : ℕ) → clear_in (get_elem? (replicate n 0xFF) i) (k % 8) ≡ false
    go zero i = refl
    go (suc n) zero =
        not-true (is_clear 0xFF (k % 8))
          (holds_under-at (λ c. not (is_clear 0xFF c)) 8 full_byte (k % 8) (omega arith))
    go (suc n) (suc i) = go n i

-- A memory map whose last usable entry is `last`, in which `best` is the smallest usable region that
-- holds the bitmap.
pub record IsMap (entries : List MemoryMapEntry) (last best : MemoryMapEntry) : Type 0 where
  pub last_is : last_usable_entry entries none ≡ some last
  pub best_is : best_region (bitmap_bytes last) entries none ≡ some best
  pub aligned : All (IsAligned (last.base + last.length)) entries
  pub some_memory : page_size ≤ last.base + last.length
  pub small : last.base + last.length + page_size < usize_mod

-- What `new` returns.
pub record IsFresh (entries : List MemoryMapEntry) (best : MemoryMapEntry)
    (r : Outcome RegionAllocator) : Type 0 where
  pub this : RegionAllocator
  pub returned : r ≡ returns this
  pub valid : IsValid this
  pub only : (k : ℕ) → is_free this.bitmap k ≡ true → IsUsable entries k × (Holds best k → ⊥)

bitmap_bytes_lem :
    (last : MemoryMapEntry)
    → last.base + last.length + page_size < usize_mod
    → page_size ≤ last.base + last.length
    → ((last.base + last.length) / page_size ≤ bitmap_bytes last * 8)
      × (bitmap_bytes last * 8 * page_size ≤ usize_mod)
      × (0 < bitmap_bytes last)
unfolding bitmap_bytes
bitmap_bytes_lem last small more =
    let end : ℕ = last.base + last.length in
    let sum : usize_add last.base last.length ≡ end = omega arith in
    let down = align_down_lem 12 end (omega arith) (omega arith) in
    let count : align_down (usize_add last.base last.length) page_size / page_size
        ≡ end / page_size =
      rw sum (omega (arith, down)) in
    let (q, at, lo, hi) = align_up_lem 3 (end / page_size) (omega arith) (omega arith) in
    rw count (omega (arith, at), omega (arith, at), omega (arith, at))

-- On a memory map in which the usable entries are made of whole pages, in which no usable entry ends
-- after the last one, and in which some usable region holds the bitmap, `new` returns. Its bitmap is
-- valid, and every free frame lies in a usable entry and not in the region of the bitmap.
pub new-IsFresh :
    (entries : List MemoryMapEntry) (last best : MemoryMapEntry)
    → IsMap entries last best
    → IsFresh entries best (new entries)
unfolding new
new-IsFresh entries last best m =
    let end : ℕ = last.base + last.length in
    let (room, fits, some_bytes) = bitmap_bytes_lem last m.small m.some_memory in
    let (first, first_is) = first_exists entries last m.last_is in
    let size = length-replicate {A = ℕ} (bitmap_bytes last) 0xFF in
    let start : IsValid (all_used (bitmap_bytes last) first) = record {
      bytes = All-replicate (bitmap_bytes last);
      fits = omega (arith, size);
    } in
    let f =
      free_usable-FreesOnly entries last.base end (all_used (bitmap_bytes last) first) start
        (omega (arith, size)) (omega (arith, m.small)) m.aligned in
    let (b, l, i) =
      best_region-All
        (λ e. (e.base % page_size ≡ 0) × (e.length % page_size ≡ 0) × (e.base + e.length ≤ end))
        (bitmap_bytes last) entries none best m.aligned (λ e s. absurd (none-ne-some e s))
        m.best_is in
    let t =
      take_entry f.next f.valid end best (omega (arith, f.size, size)) (omega (arith, m.small)) b l
        i (omega (arith, m.small)) in
    let positive : ltb 0 (bitmap_bytes last) ≡ true = ground arith in
    record {
      this = t.next;
      returned = rw (m.last_is, new, m.best_is, positive, first_is, f.returned) t.returned;
      valid = t.valid;
      only = λ k e.
          let (free, out) = t.only k e in
          elim (f.only k free) [
            | inl old ↦ absurd (false-ne-true (sym (none_free (bitmap_bytes last) k) ∙ old))
            | inr at ↦ (at, out)
          ];
    }
  where
    none-ne-some : (e : MemoryMapEntry) → none ≡ some e → ⊥
    none-ne-some e s = cc

    false-ne-true : false ≡ true → ⊥
    false-ne-true e = cc
