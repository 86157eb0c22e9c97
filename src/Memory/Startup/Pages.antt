-- ===== src/Memory/Startup/Pages.antt =====
-- The iterator over pages: it ends behind its last page, also at the end of the address space.
use navi_os.Base.{
  ℕ, suc, ◌+◌, ◌*◌, ◌-◌, ◌^◌, ◌<◌, ◌≡◌, refl, ap, arith, Bool-cases, inl, inr, true, false, none,
  some, ltb, leb,
}
use navi_os.Memory.{page_size}
use navi_os.Memory.Paging.{Page, IterPage, next, max_page_addr}

abbrev pub page_at : ℕ → Page
page_at a = record { start_address = a * page_size }

abbrev pub pages_at : ℕ → ℕ → IterPage
pages_at a b = record { start = page_at a; end = page_at b }

pub next-inner :
    (a b : ℕ) → a < b → b < 2 ^ 52 → next (pages_at a b) ≡ (some (page_at a), pages_at (suc a) b)
unfolding next
next-inner a b h small =
    let go_on : leb (a * page_size) (b * page_size) ≡ true = ground arith in
    let below : ltb (a * page_size) max_page_addr ≡ true = ground arith in
    rw (go_on, below)
      (ap
        (λ n. (some (page_at a), record { start = record { start_address = n }; end = page_at b }))
        (omega arith))

-- At its last page the iterator returns the page, and then it has ended.
pub next-last :
    (a : ℕ)
    → 0 < a
    → a < 2 ^ 52
    → (ended : IterPage) × (next (pages_at a a) ≡ (some (page_at a), ended))
      × (next ended ≡ (none, ended))
unfolding next
next-last a h small =
    let go_on : leb (a * page_size) (a * page_size) ≡ true = ground arith in
    elim (Bool-cases (ltb (a * page_size) max_page_addr)) [
      | inl below ↦
          let stop : leb (a * page_size + page_size) (a * page_size) ≡ false = ground arith in
          (
            record (pages_at a a) { start = record { start_address = a * page_size + page_size } },
            rw (go_on, below) refl,
            rw stop refl,
          )
      | inr top ↦
          let stop : leb (a * page_size) (a * page_size - page_size) ≡ false = ground arith in
          (
            record (pages_at a a) { end = record { start_address = a * page_size - page_size } },
            rw (go_on, top) refl,
            rw stop refl,
          )
    ]
