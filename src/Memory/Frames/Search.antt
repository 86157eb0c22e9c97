-- ===== src/Memory/Frames/Search.antt =====
-- `search_for_free_frame` finds the first free frame at or after `search_from`, and never panics.
use navi_os.Base.{
  ℕ, zero, suc, ◌+◌, ◌-◌, ◌*◌, ◌/◌, ◌%◌, ◌<◌, ◌≤◌, ◌≡◌, refl, sym, ◌∙◌, ap, ◌⊎◌, inl, inr, true,
  false, Option, none, some, unwrap, ◌>>=◌, List, [], ◌∷◌, length, get_elem?, ◌==◌, subst, ==_iff,
  ==_refl, Bool-cases, Option-cases, if◌then◌else◌, returns, arith, get_elem?-some,
}
use native.Mathlib.Decide.{dec_le}
use navi_os.Memory.{page_size}
use navi_os.Memory.Frames.{
  Frame, RegionAllocator, is_clear, search_cols, search_rows, search_for_free_frame,
}
use navi_os.Memory.Frames.Bitmap.{clear_in, is_free}

-- The columns from `col` on hold no clear bit, or `c` is the first of them that does.
abbrev ColsFound : ℕ → ℕ → ℕ → Option ℕ → Type 0
ColsFound byte left col none = (d : ℕ) → col ≤ d → d < col + left → is_clear byte d ≡ false
ColsFound byte left col (some c) =
    (col ≤ c)
    × (c < col + left)
    × (is_clear byte c ≡ true)
    × ((d : ℕ) → col ≤ d → d < c → is_clear byte d ≡ false)

search_cols-ColsFound : (byte left col : ℕ) → ColsFound byte left col (search_cols byte left col)
unfolding search_cols
search_cols-ColsFound byte zero col = λ d h k. absurd (omega arith)
search_cols-ColsFound byte (suc left) col = elim (Bool-cases (is_clear byte col)) [
  | inl clear ↦ rw clear (omega arith, omega arith, clear, λ d h k. absurd (omega arith))
  | inr taken ↦
      rw taken
        (later (search_cols byte left (col + 1)) (search_cols-ColsFound byte left (col + 1)) taken)
]
  where
    at : (d : ℕ) → (is_clear byte col ≡ false) → col ≤ d → (is_clear byte d ≡ false) ⊎ (col + 1 ≤ d)
    at d taken h = elim (Bool-cases (col == d)) [
      | inl e ↦ inl (ground (arith, ap (is_clear byte) ((==_iff col d).0 e)))
      | inr e ↦ inr (ground arith)
    ]

    later :
        (r : Option ℕ)
        → ColsFound byte left (col + 1) r
        → is_clear byte col ≡ false
        → ColsFound byte (suc left) col r
    later none f taken = λ d h k. elim (at d taken h) [ inl e ↦ e | inr l ↦ f d l (omega arith) ]
    later (some c) f taken = (
      omega arith,
      omega arith,
      f.2,
      λ d h k. elim (at d taken h) [ inl e ↦ e | inr l ↦ f.3 d l k ],
    )

-- The first free frame at or after `from`, as a frame of the bitmap, or that there is none.
pub data FirstFree (bitmap : List ℕ) (from : ℕ) : Option Frame → Type 0 where
  nothing_free : ((k : ℕ) → from ≤ k → is_free bitmap k ≡ false) → FirstFree bitmap from none
  first_free :
      (i : ℕ)
      → i < length bitmap * 8
      → from ≤ i
      → is_free bitmap i ≡ true
      → ((k : ℕ) → from ≤ k → k < i → is_free bitmap k ≡ false)
      → (f : Frame) → f ≡ record { start_address = i * page_size }
      → FirstFree bitmap from (some f)

get_elem?-out : {A : Type 0} (xs : List A) (i : ℕ) → length xs ≤ i → get_elem? xs i ≡ none
get_elem?-out [] i h = refl
get_elem?-out (x ∷ xs) zero h = absurd (omega arith)
get_elem?-out (x ∷ xs) (suc i) h = get_elem?-out xs i (omega arith)

is_free-row :
    (bitmap : List ℕ) (row b k : ℕ)
    → get_elem? bitmap row ≡ some b
    → k / 8 ≡ row
    → is_free bitmap k ≡ is_clear b (k % 8)
is_free-row bitmap row b k read e =
    ap (λ (r : ℕ). clear_in (get_elem? bitmap r) (k % 8)) e ∙ ap (λ o. clear_in o (k % 8)) read

-- No free frame from `col` of a row on, when the row has none there and the next rows have none.
none_after :
    (bitmap : List ℕ) (row b c k : ℕ)
    → get_elem? bitmap row ≡ some b
    → ColsFound b (8 - c) c none
    → c < 8
    → row * 8 + c ≤ k
    → (is_free bitmap k ≡ false) ⊎ ((row + 1) * 8 ≤ k)
none_after bitmap row b c k read f h le = elim (Bool-cases (k / 8 == row)) [
  | inl e ↦
      inl (
        is_free-row bitmap row b k read ((==_iff _ _).0 e) ∙ f (k % 8) (ground arith) (omega arith))
  | inr e ↦ inr (ground arith)
]

FirstFree-next :
    (bitmap : List ℕ) (row b c : ℕ) (r : Option Frame)
    → get_elem? bitmap row ≡ some b
    → ColsFound b (8 - c) c none
    → c < 8
    → FirstFree bitmap ((row + 1) * 8) r
    → FirstFree bitmap (row * 8 + c) r
FirstFree-next bitmap row b c r read f h (nothing_free g) =
    nothing_free
      λ k le. elim (none_after bitmap row b c k read f h le) [ inl e ↦ e | inr l ↦ g k l ]
FirstFree-next bitmap row b c r read f h (first_free i inside le free g fr e) =
    first_free i inside (omega arith) free
      (λ k le' lt. elim (none_after bitmap row b c k read f h le') [
        | inl e' ↦ e'
        | inr l ↦ g k l lt
      ])
      fr e

search_rows-FirstFree :
    (bitmap : List ℕ) (srow left row scol c : ℕ)
    → row + left ≡ length bitmap
    → c ≡ (if row == srow then scol else 0)
    → c < 8
    → srow ≤ row
    → (r : Option Frame) × (search_rows bitmap srow left row scol ≡ returns r)
      × FirstFree bitmap (row * 8 + c) r
unfolding search_rows
search_rows-FirstFree bitmap srow zero row scol c e ec h o = (
  none,
  refl,
  nothing_free (λ k l. ap (λ o. clear_in o (k % 8)) (get_elem?-out bitmap (k / 8) (omega arith))),
)
search_rows-FirstFree bitmap srow (suc left) row scol c e ec h o =
    let (b, read) = get_elem?-some bitmap row (omega arith) in
    let cols = search_cols-ColsFound b (8 - c) c in
    elim (Option-cases (search_cols b (8 - c) c)) [
      | inl missed ↦
          let (r, run, found) =
            search_rows-FirstFree bitmap srow left (row + 1) c 0 (omega arith) (ground arith)
              (omega arith) (omega arith) in
          (
            r,
            rw (← ec, read, unwrap, ◌>>=◌, missed)
                (ap (λ s. search_rows bitmap srow left (row + 1) s) (sym ec) ∙ run),
            FirstFree-next bitmap row b c r read (subst (ColsFound b (8 - c) c) missed cols) h
                (subst (λ (n : ℕ). FirstFree bitmap n r) (omega arith) found),
          )
      | inr (d, hit) ↦
          let (lo, hi, clear, before) = subst (ColsFound b (8 - c) c) hit cols in
          (
            some (record { start_address = (row * 8 + d) * page_size }),
            rw (← ec, read, unwrap, ◌>>=◌, hit) refl,
            first_free (row * 8 + d) (omega arith) (omega arith)
                (is_free-row bitmap row b (row * 8 + d) read (omega arith)
                  ∙ ap (is_clear b) (omega arith)
                  ∙ clear)
                (λ k lk kl.
                  is_free-row bitmap row b k read (omega arith)
                  ∙ before (k % 8) (omega arith) (omega arith))
                _ refl,
          )
    ]

-- The search returns, and what it returns is the first free frame.
pub search_for_free_frame-FirstFree :
    (this : RegionAllocator)
    → (r : Option Frame) × (search_for_free_frame this ≡ returns r)
      × FirstFree this.bitmap this.search_from r
unfolding search_for_free_frame
search_for_free_frame-FirstFree this =
    let n : ℕ = this.search_from in
    elim (dec_le (length this.bitmap) (n / 8)) [
      | yes out ↦
          let e : length this.bitmap - n / 8 ≡ 0 = omega arith in
          (
            none,
            ap (λ (left : ℕ). search_rows this.bitmap (n / 8) left (n / 8) (n % 8)) e,
            nothing_free (λ k l.
                ap (λ o. clear_in o (k % 8)) (get_elem?-out this.bitmap (k / 8) (omega arith))),
          )
      | no inn ↦
          let (r, run, found) =
            search_rows-FirstFree this.bitmap (n / 8) (length this.bitmap - n / 8) (n / 8) (n % 8)
              (n % 8) (omega arith) (rw ==_refl refl) (omega arith) (omega arith) in
          (r, run, subst (λ (n : ℕ). FirstFree this.bitmap n r) (omega arith) found)
    ]
