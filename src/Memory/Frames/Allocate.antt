-- ===== src/Memory/Frames/Allocate.antt =====
-- `allocate_frame` and `deallocate_frame` against the set of free frames.
use mathlib.Core.Bool.{not-not}
use navi_os.Base.{
  ℕ, ◌*◌, ◌/◌, ◌<◌, ◌≤◌, ◌≡◌, refl, sym, ◌∙◌, ap, subst, inl, inr, Bool, true, false, not, Option,
  none, some, length, ◌==◌, ==_iff, ==_refl, Bool-cases, if◌then◌else◌, Outcome, returns, ◌>>=◌,
  arith,
}
use navi_os.Memory.{page_size}
use navi_os.Memory.Frames.{
  Frame, RegionAllocator, set_used, set_unused, search_for_free_frame, allocate_frame,
  deallocate_frame,
}
use navi_os.Memory.Frames.Bitmap.{is_free, IsValid}
use navi_os.Memory.Frames.Mark.{Marks, set_used-Marks, set_unused-Marks}
use navi_os.Memory.Frames.Search.{
  FirstFree, nothing_free, first_free, search_for_free_frame-FirstFree,
}

abbrev pub frame_at : ℕ → Frame
frame_at i = record { start_address = i * page_size }

-- What a call of `allocate_frame` may do.
pub data Allocates (this : RegionAllocator)
    : Outcome (Option Frame × RegionAllocator) → Type 0 where
  exhausted :
      ((k : ℕ) → this.search_from ≤ k → is_free this.bitmap k ≡ false)
      → Allocates this (returns (none, this))
  allocated :
      (i : ℕ) (next : RegionAllocator)
      → this.search_from ≤ i
      → i < length this.bitmap * 8
      → is_free this.bitmap i ≡ true
      → ((k : ℕ) → this.search_from ≤ k → k < i → is_free this.bitmap k ≡ false)
      → ((k : ℕ) → is_free next.bitmap k ≡ (if i == k then false else is_free this.bitmap k))
      → IsValid next
      → next.search_from ≡ this.search_from
      → length next.bitmap ≡ length this.bitmap
      → Allocates this (returns (some (frame_at i), next))

abbrev finish : RegionAllocator → Option Frame → Outcome (Option Frame × RegionAllocator)
finish this none = returns (none, this)
finish this (some frame) = set_used this frame.start_address >>= λ next. returns (some frame, next)

allocate_frame-finish :
    (this : RegionAllocator) (r : Option Frame)
    → search_for_free_frame this ≡ returns r
    → allocate_frame this ≡ finish this r
unfolding allocate_frame
allocate_frame-finish this none e = rw (e, ◌>>=◌)
allocate_frame-finish this (some f) e = rw (e, ◌>>=◌)

-- A number of a frame in the bitmap is read back from its address.
index_at : (i : ℕ) → i * page_size / page_size ≡ i
index_at i = omega arith

module _ (this : RegionAllocator) (v : IsValid this) (i : ℕ)
    (inside : i < length this.bitmap * 8) where
  in_map : i * page_size / page_size < length this.bitmap * 8
  in_map = rw (index_at i) inside

  marked_used : Marks this i (λ _. false) (set_used this (i * page_size))
  marked_used =
      subst (λ n. Marks this n (λ _. false) (set_used this (i * page_size))) (index_at i)
        (set_used-Marks this v (i * page_size) in_map)

  marked_unused : Marks this i not (set_unused this (i * page_size))
  marked_unused =
      subst (λ n. Marks this n not (set_unused this (i * page_size))) (index_at i)
        (set_unused-Marks this v (i * page_size) in_map)

  finish-allocated :
      this.search_from ≤ i
      → is_free this.bitmap i ≡ true
      → ((k : ℕ) → this.search_from ≤ k → k < i → is_free this.bitmap k ≡ false)
      → Allocates this (finish this (some (frame_at i)))
  finish-allocated le free g =
      let m = marked_used in
      subst (λ r. Allocates this (r >>= λ next. returns (some (frame_at i), next))) (sym m.returned)
        (allocated i (record this { bitmap = m.next }) le inside free g m.bits m.valid refl m.size)

finish-Allocates :
    (this : RegionAllocator) (r : Option Frame)
    → IsValid this
    → FirstFree this.bitmap this.search_from r
    → Allocates this (finish this r)
finish-Allocates this none v (nothing_free g) = exhausted g
finish-Allocates this (some f) v (first_free i inside le free g _ e) =
    subst (λ f. Allocates this (finish this (some f))) (sym e)
      (finish-allocated this v i inside le free g)

-- On a valid bitmap `allocate_frame` does not panic. It returns the first free frame at or after
-- `search_from` and takes exactly that frame out of the free frames, keeping the bitmap valid, or
-- it returns `None`, changes nothing, and no frame from `search_from` on is free.
pub allocate_frame-Allocates :
    (this : RegionAllocator) → IsValid this → Allocates this (allocate_frame this)
allocate_frame-Allocates this v =
    let (r, run, found) = search_for_free_frame-FirstFree this in
    subst (Allocates this) (sym (allocate_frame-finish this r run))
      (finish-Allocates this r v found)

-- Deallocating a frame of a valid bitmap does not panic, and toggles that frame alone: a frame in
-- use becomes free, and a frame that is free already becomes used.
pub deallocate_frame-Marks :
    (this : RegionAllocator) (i : ℕ)
    → IsValid this
    → i < length this.bitmap * 8
    → Marks this i not (deallocate_frame this (frame_at i))
unfolding deallocate_frame
deallocate_frame-Marks this i v inside = marked_unused this v i inside

toggle_twice :
    (i k : ℕ) (f g : ℕ → Bool)
    → ((j : ℕ) → g j ≡ (if i == j then not (f i) else f j))
    → (if i == k then not (g i) else g k) ≡ f k
toggle_twice i k f g law = elim (Bool-cases (i == k)) [
  | inl e ↦ rw (e, law i, ==_refl i, not-not (f i)) (ap f ((==_iff i k).0 e))
  | inr e ↦ rw (e, law k, e) refl
]

-- Deallocating a frame of a valid bitmap twice in a row does not panic, and leaves exactly the
-- frames free that were free before: a frame in use is in use after a double free.
pub deallocate_frame_twice :
    (this : RegionAllocator) (i : ℕ)
    → IsValid this
    → i < length this.bitmap * 8
    → (next : RegionAllocator) × ((deallocate_frame this (frame_at i) >>= λ once.
          deallocate_frame once (frame_at i))
        ≡ returns next)
      × ((k : ℕ) → is_free next.bitmap k ≡ is_free this.bitmap k)
deallocate_frame_twice this i v inside =
    let m = deallocate_frame-Marks this i v inside in
    let once : RegionAllocator = record this { bitmap = m.next } in
    let n = deallocate_frame-Marks once i m.valid (omega (arith, m.size)) in
    (
      record once { bitmap = n.next },
      rw m.returned n.returned,
      λ k. n.bits k ∙ toggle_twice i k (is_free this.bitmap) (is_free once.bitmap) m.bits,
    )

give_back :
    (i k : ℕ) (f g : ℕ → Bool)
    → f i ≡ true
    → ((j : ℕ) → g j ≡ (if i == j then false else f j))
    → (if i == k then not (g i) else g k) ≡ f k
give_back i k f g free law = elim (Bool-cases (i == k)) [
  | inl e ↦ rw (e, law i, ==_refl i) (sym free ∙ ap f ((==_iff i k).0 e))
  | inr e ↦ rw (e, law k, e) refl
]

Allocates-some :
    {this : RegionAllocator} {r : Outcome (Option Frame × RegionAllocator)}
    → Allocates this r
    → (frame : Frame) (next : RegionAllocator) → r ≡ returns (some frame, next)
    → (i : ℕ) × (frame ≡ frame_at i)
      × (i < length this.bitmap * 8)
      × (is_free this.bitmap i ≡ true)
      × ((k : ℕ) → is_free next.bitmap k ≡ (if i == k then false else is_free this.bitmap k))
      × IsValid next
      × (length next.bitmap ≡ length this.bitmap)
Allocates-some (exhausted g) frame next e = cc
Allocates-some {this} (allocated i n le inside free g bits valid from size) frame next e =
    let same : n ≡ next = cc in
    (
      i,
      cc,
      inside,
      free,
      subst
          (λ (m : RegionAllocator).
            (k : ℕ) → is_free m.bitmap k ≡ (if i == k then false else is_free this.bitmap k))
          same bits,
      subst IsValid same valid,
      subst (λ (m : RegionAllocator). length m.bitmap ≡ length this.bitmap) same size,
    )

-- A frame that `allocate_frame` handed out can be given back: `deallocate_frame` does not panic
-- then, and the free frames are those from before the allocation.
pub deallocate_frame-allocate_frame :
    (this next : RegionAllocator) (frame : Frame)
    → IsValid this
    → allocate_frame this ≡ returns (some frame, next)
    → (last : RegionAllocator) × (deallocate_frame next frame ≡ returns last)
      × ((k : ℕ) → is_free last.bitmap k ≡ is_free this.bitmap k)
deallocate_frame-allocate_frame this next frame v e =
    let (i, at, inside, free, bits, valid, size) =
      Allocates-some (allocate_frame-Allocates this v) frame next e in
    let m = deallocate_frame-Marks next i valid (omega (arith, size)) in
    (
      record next { bitmap = m.next },
      rw at m.returned,
      λ k. m.bits k ∙ give_back i k (is_free this.bitmap) (is_free next.bitmap) free bits,
    )
