-- ===== src/Memory/Startup/Range.antt =====
-- The pages of the heap: the loop ends, and every page of the range is mapped.
use navi_os.Base.{
  ℕ, zero, suc, ◌+◌, ◌*◌, ◌%◌, ◌^◌, ◌≤◌, ◌<◌, ◌≡◌, ◌≢◌, refl, sym, ◌∙◌, ap, arith, Bool-cases, inl,
  inr, true, false, Option, some, ◌==◌, ==_iff, ==_refl, if◌then◌else◌, returns,
}
use navi_os.Memory.{PhysAddr, page_size}
use navi_os.Memory.Frames.Bitmap.{is_free}
use navi_os.Memory.Paging.{Machine, Call, ok, err, frame_allocation_failed}
use navi_os.Memory.Paging.Tree.{IsTree, Places}
use navi_os.Memory.Paging.Mapped.{is_some}
use navi_os.Memory.Paging.Address.{resolve, page_number}
use navi_os.Memory.Startup.{map_new, map_range, go_on}
use navi_os.Memory.Startup.Pages.{page_at, pages_at, next-inner, next-last}
use navi_os.Memory.Startup.NewPage.{MapsNew, failed, added, map_new-MapsNew}

-- What the loop may do with the pages from `a` to `b`.
pub data MapsRange (m : Machine) (root : PhysAddr) (a b : ℕ)
    : Option (Call (Unit {0})) → Type 0 where
  range_failed :
      (m' : Machine) (place : Places)
      → IsTree m' root place
      → ((k : ℕ) → m'.frame_allocator.search_from ≤ k → is_free m'.frame_allocator.bitmap k ≡ false)
      → MapsRange m root a b (some (returns (err frame_allocation_failed, m')))
  range_mapped :
      (m' : Machine) (place : Places)
      → IsTree m' root place
      → ((k : ℕ) → a ≤ k → k ≤ b → is_some (resolve m' root (k * page_size)) ≡ true)
      → ((addr : ℕ) → is_some (resolve m root addr) ≡ true → is_some (resolve m' root addr) ≡ true)
      → ((addr : ℕ)
          → ((k : ℕ) → a ≤ k → k ≤ b → page_number addr ≢ page_number (k * page_size))
          → resolve m' root addr ≡ resolve m root addr)
      → MapsRange m root a b (some (returns (ok tt, m')))

-- One page, which is then mapped; what was mapped stays so, and the other pages are as they were.
record AddsPage (m m' : Machine) (root : PhysAddr) (a : ℕ) : Type 0 where
  here : is_some (resolve m' root (a * page_size)) ≡ true
  kept : (addr : ℕ) → is_some (resolve m root addr) ≡ true → is_some (resolve m' root addr) ≡ true
  others :
      (addr : ℕ)
      → page_number addr ≢ page_number (a * page_size)
      → resolve m' root addr ≡ resolve m root addr

added_page :
    (m m' : Machine) (root : PhysAddr) (a n : ℕ)
    → ((addr : ℕ)
        → resolve m' root addr ≡ (
            if page_number addr == page_number (a * page_size)
            then some (n * page_size + addr % page_size)
            else resolve m root addr))
    → AddsPage m m' root a
added_page m m' root a n law = record {
  here = ap is_some (law (a * page_size)) ∙ rw (==_refl (page_number (a * page_size))) refl;
  kept = λ addr h. ap is_some (law addr) ∙ either addr h;
  others = λ addr ne. law addr ∙ rw (no_page addr ne) refl;
}
  where
    either :
        (addr : ℕ)
        → is_some (resolve m root addr) ≡ true
        → is_some (
            if page_number addr == page_number (a * page_size)
            then some (n * page_size + addr % page_size)
            else resolve m root addr)
          ≡ true
    either addr h = elim (Bool-cases (page_number addr == page_number (a * page_size))) [
      | inl e ↦ rw e refl
      | inr e ↦ rw e h
    ]

    no_page :
        (addr : ℕ)
        → page_number addr ≢ page_number (a * page_size)
        → (page_number addr == page_number (a * page_size)) ≡ false
    no_page addr ne = elim (Bool-cases (page_number addr == page_number (a * page_size))) [
      | inl e ↦ absurd (ne ((==_iff _ _).0 e))
      | inr e ↦ e
    ]

extend :
    (m m' : Machine) (root : PhysAddr) (a b : ℕ) (r : Option (Call (Unit {0})))
    → a < b
    → AddsPage m m' root a
    → MapsRange m' root (suc a) b r
    → MapsRange m root a b r
extend m m' root a b r lt adds (range_failed last place tree none_free) =
    range_failed last place tree none_free
extend m m' root a b r lt adds (range_mapped last place tree all kept others) =
    range_mapped last place tree all_of (λ addr h. kept addr (adds.kept addr h))
      (λ addr h.
        others addr (λ k le ge. h k (omega (arith, le)) ge)
        ∙ adds.others addr (h a (omega arith) (omega arith)))
  where
    all_of : (k : ℕ) → a ≤ k → k ≤ b → is_some (resolve last root (k * page_size)) ≡ true
    all_of k le ge = elim (Bool-cases (a == k)) [
      | inl first ↦ kept (k * page_size) (
          ap (λ k. is_some (resolve m' root (k * page_size))) (sym ((==_iff a k).0 first))
          ∙ adds.here)
      | inr later ↦ all k (ground (arith, later)) ge
    ]

module _ (root : PhysAddr) where
  step :
      (m : Machine) (a b : ℕ) (r : Call (Unit {0})) (rest : Machine → Option (Call (Unit {0})))
      → MapsNew m root (page_at a) r
      → ((m' : Machine) (place : Places)
          → IsTree m' root place
          → AddsPage m m' root a
          → MapsRange m root a b (rest m'))
      → MapsRange m root a b (go_on r rest)
  step m a b r rest (failed m' place tree none_free same) behind =
      range_failed m' place tree none_free
  step m a b r rest (added n m' place tree law) behind =
      behind m' place tree (added_page m m' root a n law)

  -- The last page.
  ended_at :
      (m m' : Machine) (a : ℕ) (place : Places)
      → IsTree m' root place
      → AddsPage m m' root a
      → MapsRange m root a a (some (returns (ok tt, m')))
  ended_at m m' a place tree adds =
      range_mapped m' place tree
        (λ k le ge.
          ap (λ k. is_some (resolve m' root (k * page_size))) (omega (arith, le, ge)) ∙ adds.here)
        adds.kept (λ addr h. adds.others addr (h a (omega arith) (omega arith)))

  -- `left` pages behind the first one.
  pub map_range-MapsRange :
      (left fuel a : ℕ) (m : Machine) (place : Places)
      → IsTree m root place
      → left + 1 < fuel
      → 0 < a
      → a + left < 2 ^ 52
      → MapsRange m root a (a + left) (map_range fuel (pages_at a (a + left)) m root)
  unfolding map_range
  map_range-MapsRange left zero a m place tree enough pos small = absurd (omega arith)
  map_range-MapsRange left (suc zero) a m place tree enough pos small = absurd (omega arith)
  map_range-MapsRange zero (suc (suc fuel)) a m place tree enough pos small =
      let same : a + 0 ≡ a = omega arith in
      let (ended, first, stop) = next-last a pos (omega arith) in
      rw (same, first)
        (step m a a (map_new m root (page_at a)) _ (map_new-MapsNew m root place tree (page_at a))
          (λ m' place' tree' adds. rw stop (ended_at m m' a place' tree' adds)))
  map_range-MapsRange (suc left) (suc (suc fuel)) a m place tree enough pos small =
      let end : a + suc left ≡ suc a + left = omega arith in
      rw (end, next-inner a (suc a + left) (omega arith) (omega arith))
        (step m a (suc a + left) (map_new m root (page_at a)) _
          (map_new-MapsNew m root place tree (page_at a))
          (λ m' place' tree' adds. extend m m' root a (suc a + left) _ (omega arith) adds (
            map_range-MapsRange left (suc fuel) (suc a) m' place' tree' (omega arith) (omega arith)
              (omega arith))))
