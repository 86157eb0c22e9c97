-- ===== src/Memory/Frames/Region.antt =====
-- The free frames after `RegionAllocator::new`.
use navi_os.Base.{
  ℕ, zero, suc, ◌+◌, ◌*◌, ◌/◌, ◌≤◌, ◌<◌, ◌≡◌, ◌≢◌, refl, sym, ◌∙◌, true, false, length, ◌==◌,
  ==_iff, ==_ne, Bool-cases, ◌⊎◌, inl, inr, Outcome, returns, arith,
}
use navi_os.Memory.{page_size}
use navi_os.Memory.Frames.{RegionAllocator, set_used_loop, set_unused_loop}
use navi_os.Memory.Frames.Bitmap.{is_free, IsValid}
use navi_os.Memory.Frames.Mark.{set_used-Marks, set_unused-Marks}

-- Frame `k` is one of the `n` frames from `q` on.
abbrev pub InRange : ℕ → ℕ → ℕ → Type 0
InRange q n k = (q ≤ k) × (k < q + n)

-- A call that returns, keeps the bitmap valid and of the same length, and frees no frame but those
-- for which `P` holds.
pub record FreesOnly (this : RegionAllocator) (P : ℕ → Type 0) (r : Outcome RegionAllocator)
    : Type 0 where
  pub next : RegionAllocator
  pub returned : r ≡ returns next
  pub valid : IsValid next
  pub size : length next.bitmap ≡ length this.bitmap
  pub only : (k : ℕ) → is_free next.bitmap k ≡ true → (is_free this.bitmap k ≡ true) ⊎ P k

-- A call that returns likewise, after which none of `n` frames from `q` on is free.
pub record Takes (this : RegionAllocator) (q n : ℕ) (r : Outcome RegionAllocator) : Type 0 where
  pub next : RegionAllocator
  pub returned : r ≡ returns next
  pub valid : IsValid next
  pub size : length next.bitmap ≡ length this.bitmap
  pub only :
      (k : ℕ) → is_free next.bitmap k ≡ true → (is_free this.bitmap k ≡ true) × (InRange q n k → ⊥)

frame_of : (q frame : ℕ) → (q * page_size + frame * page_size) / page_size ≡ q + frame
frame_of q frame = omega arith

pub set_unused_loop-FreesOnly :
    (n frame q : ℕ) (this : RegionAllocator)
    → IsValid this
    → q + frame + n ≤ length this.bitmap * 8
    → FreesOnly this (InRange (q + frame) n) (set_unused_loop n frame (q * page_size) this)
unfolding set_unused_loop
set_unused_loop-FreesOnly zero frame q this v h = record {
  next = this;
  returned = refl;
  valid = v;
  size = refl;
  only = λ k e. inl e;
}
set_unused_loop-FreesOnly (suc n) frame q this v h =
    let m =
      set_unused-Marks this v (q * page_size + frame * page_size)
        (omega (arith, frame_of q frame)) in
    let this' : RegionAllocator = record this { bitmap = m.next } in
    let f = set_unused_loop-FreesOnly n (frame + 1) q this' m.valid (omega (arith, m.size)) in
    record {
      next = f.next;
      returned = rw (m.returned) f.returned;
      valid = f.valid;
      size = f.size ∙ m.size;
      only = λ k e. elim (f.only k e) [
        | inr (lo, hi) ↦ inr (omega arith, omega arith)
        | inl old ↦ elim (Bool-cases ((q * page_size + frame * page_size) / page_size == k)) [
          | inl here ↦
              let at = (==_iff ((q * page_size + frame * page_size) / page_size) k).0 here in
              inr (omega (arith, frame_of q frame), omega (arith, frame_of q frame))
          | inr other ↦ inl (sym (m.bits k ∙ rw other refl) ∙ old)
        ]
      ];
    }

pub set_used_loop-Takes :
    (n frame q : ℕ) (this : RegionAllocator)
    → IsValid this
    → q + frame + n ≤ length this.bitmap * 8
    → Takes this (q + frame) n (set_used_loop n frame (q * page_size) this)
unfolding set_used_loop
set_used_loop-Takes zero frame q this v h = record {
  next = this;
  returned = refl;
  valid = v;
  size = refl;
  only = λ k e. (e, λ r. absurd (omega arith));
}
set_used_loop-Takes (suc n) frame q this v h =
    let m =
      set_used-Marks this v (q * page_size + frame * page_size) (omega (arith, frame_of q frame)) in
    let this' : RegionAllocator = record this { bitmap = m.next } in
    let f = set_used_loop-Takes n (frame + 1) q this' m.valid (omega (arith, m.size)) in
    record {
      next = f.next;
      returned = rw (m.returned) f.returned;
      valid = f.valid;
      size = f.size ∙ m.size;
      only = λ k e.
          let (free, out) = f.only k e in
          elim (Bool-cases ((q * page_size + frame * page_size) / page_size == k)) [
            | inl here ↦ absurd (false-ne-true (sym (m.bits k ∙ rw here refl) ∙ free))
            | inr other ↦
                let ne = ==_ne ((q * page_size + frame * page_size) / page_size) k other in
                (sym (m.bits k ∙ rw other refl) ∙ free, λ r. absurd (beyond k ne out r))
          ];
    }
  where
    false-ne-true : false ≡ true → ⊥
    false-ne-true e = cc

    beyond :
        (k : ℕ)
        → (q * page_size + frame * page_size) / page_size ≢ k
        → (InRange (q + (frame + 1)) n k → ⊥)
        → InRange (q + frame) (suc n) k
        → ⊥
    beyond k ne out (lo, hi) = elim (Bool-cases (q + frame == k)) [
      | inl same ↦ ne (frame_of q frame ∙ (==_iff (q + frame) k).0 same)
      | inr other ↦ out (omega (arith, ==_ne (q + frame) k other), omega arith)
    ]
