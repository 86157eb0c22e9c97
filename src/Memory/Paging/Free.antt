-- ===== src/Memory/Paging/Free.antt =====
-- `Entry::free` at level 0.
use native.Mathlib.Decide.{ℕ_discrete}
use navi_os.Base.{
  ℕ, zero, suc, ◌+◌, ◌*◌, ◌/◌, ◌%◌, ◌^◌, ◌≤◌, ◌<◌, ◌≡◌, ◌≢◌, ◌⊎◌, refl, sym, ◌∙◌, ap, arith, length,
  ◌==◌, ==_iff, false, Bool-cases, inl, inr, Outcome, returns, panics,
}
use navi_os.Memory.{page_size, usize_mod}
use navi_os.Memory.Address.{align_down_lem}
use navi_os.Memory.Frames.{RegionAllocator, containing_address, deallocate_frame}
use navi_os.Memory.Frames.Bitmap.{is_free, IsValid}
use navi_os.Memory.Frames.Allocate.{frame_at, deallocate_frame_twice, deallocate_frame-Marks}
use navi_os.Memory.Paging.{
  Machine, Entry, higher_half_entry, free_entries, release, free_with, free_entry,
}
use navi_os.Memory.Paging.Entries.{entry_frame-eq}

abbrev overflow : Machine → Entry → Outcome Machine
overflow _ _ = panics

-- The loop over the entries of a frame whose entries must not be freed.
free_entries-zero :
    (left index table : ℕ) (m : Machine)
    → ((j : ℕ) → index ≤ j → j < index + left → m.memory table j ≡ 0)
    → free_entries overflow left index table m ≡ returns m
unfolding free_entries
free_entries-zero zero index table m h = refl
free_entries-zero (suc left) index table m h =
    rw (h index (omega arith) (omega arith))
      (free_entries-zero left (suc index) table m (λ j a b. h j (omega arith) (omega arith)))

free_entries-panics :
    (left index table j : ℕ) (m : Machine)
    → index ≤ j
    → j < index + left
    → m.memory table j ≢ 0
    → free_entries overflow left index table m ≡ panics
unfolding free_entries
free_entries-panics zero index table j m le lt ne = absurd (omega arith)
free_entries-panics (suc left) index table j m le lt ne =
    elim (Bool-cases (m.memory table index == 0)) [
      | inr used ↦ rw used refl
      | inl empty ↦
          let later : index ≢ j =
            λ same. ne (ap (m.memory table) (sym same) ∙ (==_iff _ _).0 empty) in
          rw empty (free_entries-panics left (suc index) table j m (omega arith) (omega arith) ne)
    ]

containing_at :
    (k : ℕ) → k * page_size < usize_mod → containing_address (k * page_size) ≡ frame_at k
unfolding containing_address
containing_at k h =
    ap (λ a. record { start_address = a })
      (align_down_lem 12 (k * page_size) (omega arith) h ∙ omega arith)

-- Below `n` either every word is zero, or one is not.
words_below : (f : ℕ → ℕ) (n : ℕ) → ((j : ℕ) → j < n → f j ≡ 0) ⊎ ((j : ℕ) × (j < n) × (f j ≢ 0))
words_below f zero = inl (λ j h. absurd (omega (arith, h)))
words_below f (suc n) = elim (words_below f n) [
  | inr (j, lt, ne) ↦ inr (j, omega (arith, lt), ne)
  | inl zeros ↦ elim (Bool-cases (f n == 0)) [
    | inr used ↦ inr (n, omega arith, λ e. not_used n e used)
    | inl empty ↦ inl (λ j lt. elim (ℕ_discrete j n) [
      | yes e ↦ ap f e ∙ (==_iff _ _).0 empty
      | no ne ↦ zeros j (omega (arith, lt, ne))
    ])
  ]
]
  where
    not_used : (n : ℕ) → f n ≡ 0 → (f n == 0) ≡ false → ⊥
    not_used n e used = let yes_zero = (==_iff (f n) 0).1 e in cc

-- What `Entry::free` does to a page's entry: it frees the frame twice, or panics.
abbrev pub FreesTwice : Machine → Entry → Type 0
FreesTwice m e =
    (((j : ℕ) → j < higher_half_entry → m.memory (e / page_size * page_size) j ≡ 0)
      × ((next : RegionAllocator) × (free_entry 0 m e
            ≡ returns (record m { frame_allocator = next }))
          × ((k : ℕ) → is_free next.bitmap k ≡ is_free m.frame_allocator.bitmap k)))
    ⊎ (((j : ℕ) × (j < higher_half_entry) × (m.memory (e / page_size * page_size) j ≢ 0))
        × (free_entry 0 m e ≡ panics))

-- On a valid bitmap, `Entry::free` at level 0, on a present entry whose frame is in the bitmap, never
-- frees the frame: where the lower half of the frame's words is zero, the call returns and leaves exactly
-- the frames free that were free before, and where one of those words is not, it panics.
pub free_entry-FreesTwice :
    (m : Machine) (e : Entry)
    → IsValid m.frame_allocator
    → e < 2 ^ 52
    → e % 2 ≡ 1
    → e / page_size < length m.frame_allocator.bitmap * 8
    → FreesTwice m e
unfolding free_entry free_with release
free_entry-FreesTwice m e v small odd inside =
    let n : ℕ = e / page_size in
    let mark = deallocate_frame-Marks m.frame_allocator n v inside in
    let (next, twice, same) = deallocate_frame_twice m.frame_allocator n v inside in
    let again : deallocate_frame (record m.frame_allocator { bitmap = mark.next }) (frame_at n)
        ≡ returns next =
      (rw mark.returned at twice) in
    let once : Machine = record m {
      frame_allocator = record m.frame_allocator { bitmap = mark.next };
    } in
    let here : containing_address (n * page_size) ≡ frame_at n = containing_at n (omega arith) in
    elim (words_below (m.memory (n * page_size)) higher_half_entry) [
      | inl zeros ↦ inl (
        zeros,
        (
          next,
          rw
              (
                entry_frame-eq e small odd,
                mark.returned,
                free_entries-zero higher_half_entry 0 (n * page_size) once
                    (λ j _ h. zeros j (omega (arith, h))),
                here,
                again,
              )
              refl,
          same,
        ),
      )
      | inr (j, h, ne) ↦ inr (
        (j, h, ne),
        rw
            (
              entry_frame-eq e small odd,
              mark.returned,
              free_entries-panics higher_half_entry 0 (n * page_size) j once (omega arith)
                  (omega (arith, h)) ne,
            )
            refl,
      )
    ]
