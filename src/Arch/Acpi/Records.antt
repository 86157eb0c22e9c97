-- ===== src/Arch/Acpi/Records.antt =====
-- The search in the records of the MADT.
use native.Mathlib.Decide.{ℕ_discrete}
use navi_os.Base.{
  ℕ, zero, suc, ◌+◌, ◌-◌, ◌%◌, ◌^◌, ◌<◌, ◌≤◌, ◌≡◌, ◌≢◌, ◌==◌, ==_iff, refl, sym, ◌∙◌, ap, subst,
  arith, true, false, Bool-cases, inl, inr, ltb, leb, Option, some, Outcome, returns,
}
use navi_os.Memory.{PhysAddr}
use navi_os.Arch.{Bytes}
use navi_os.Arch.Acpi.{
  madt_size, len, first_record, record_loop, madt_nth, find_record, get_record_of_type,
}

-- The address of the record `k`: each record begins where the one before it ends.
abbrev pub record_at : Bytes → PhysAddr → ℕ → PhysAddr
record_at mem addr zero = addr + madt_size
record_at mem addr (suc k) = record_at mem addr k + mem (record_at mem addr k + 1)

module _ (mem : Bytes) (addr : PhysAddr) where
  record_at_le : (j k : ℕ) → j ≤ k → record_at mem addr j ≤ record_at mem addr k
  record_at_le j zero h =
      let e : j ≡ 0 = omega arith in
      subst (λ i. record_at mem addr i ≤ record_at mem addr 0) (sym e) (omega arith)
  record_at_le j (suc k) h = elim (ℕ_discrete j (suc k)) [
    | yes e ↦ subst (λ i. record_at mem addr i ≤ record_at mem addr (suc k)) (sym e) (omega arith)
    | no e ↦ let up = record_at_le j k (omega (arith, h, e)) in omega (arith, up)
  ]

  record_loop-at :
      (left k n : ℕ)
      → left + k ≡ n
      → record_at mem addr n < 2 ^ 32
      → record_loop left mem (record_at mem addr k) ≡ returns (record_at mem addr n)
  unfolding record_loop
  record_loop-at zero k n e h =
      let same : k ≡ n = omega (arith, e) in ap (λ i. returns (record_at mem addr i)) same
  record_loop-at (suc left) k n e h =
      let up = record_at_le (suc k) n (omega (arith, e)) in
      let fits : ltb (record_at mem addr k + mem (record_at mem addr k + 1)) (2 ^ 32) ≡ true =
        ground arith in
      rw fits (record_loop-at left (suc k) n (omega (arith, e)) h)

  first_record-eq :
      addr + madt_size < 2 ^ 32 → first_record addr ≡ returns (addr + madt_size, madt_size)
  unfolding first_record
  first_record-eq h =
      let low : addr % 2 ^ 32 ≡ addr = omega arith in
      let base : (addr + madt_size) % 2 ^ 32 ≡ addr + madt_size = omega arith in
      let le : leb addr (addr + madt_size) ≡ true = ground arith in
      let back : addr + madt_size - addr ≡ madt_size = omega arith in rw (base, low, le, back) refl

  -- The second and the third call give the same record.
  madt_nth-at :
      (n : ℕ)
      → record_at mem addr (suc (n - 1)) < 2 ^ 32
      → madt_nth mem addr (suc n)
        ≡ returns (record_at mem addr (suc (n - 1)), record_at mem addr (suc (n - 1)) - addr)
  unfolding madt_nth
  madt_nth-at n h =
      let up = record_at_le 1 (suc (n - 1)) (omega arith) in
      let first = record_at_le 0 1 (omega arith) in
      let start : record_at mem addr 0 ≡ addr + madt_size = refl in
      let low : addr % 2 ^ 32 ≡ addr = omega arith in
      let base : (addr + madt_size) % 2 ^ 32 ≡ addr + madt_size = omega arith in
      let fits : ltb (addr + madt_size + mem (addr + madt_size + 1)) (2 ^ 32) ≡ true =
        ground arith in
      let left : suc n - 1 - 1 ≡ n - 1 = omega arith in
      let reached : record_loop (n - 1) mem (record_at mem addr 1)
          ≡ returns (record_at mem addr (suc (n - 1))) =
        record_loop-at (n - 1) 1 (suc (n - 1)) (omega arith) h in
      let le : leb addr (record_at mem addr (suc (n - 1))) ≡ true = ground arith in
      rw (first_record-eq (omega arith), base, left, fits, reached, low, le) refl

-- The first record of a type is the record `k`, inside of the table.
pub record IsFirst (mem : Bytes) (addr : PhysAddr) (ty k : ℕ) : Type 0 where
  pub small : record_at mem addr k < 2 ^ 32
  pub inside : record_at mem addr k ≤ addr + len mem addr
  pub others : (j : ℕ) → j < k → mem (record_at mem addr j) ≢ ty
  pub hit : mem (record_at mem addr k) ≡ ty

module _ (mem : Bytes) (addr : PhysAddr) (ty k : ℕ) (first : IsFirst mem addr ty k) where
  abbrev Finds : Option (Outcome (Option PhysAddr)) → Type 0
  Finds r = r ≡ some (returns (some (record_at mem addr k)))

  -- A round on a record up to the record `k`: it is the one, or the loop goes on behind it.
  round :
      (fuel current i j : ℕ)
      → current ≤ len mem addr
      → j ≤ k
      → madt_nth mem addr i ≡ returns (record_at mem addr j, record_at mem addr j - addr)
      → (j < k → Finds (find_record fuel mem addr ty (record_at mem addr j - addr) (suc i)))
      → Finds (find_record (suc fuel) mem addr ty current i)
  unfolding find_record
  round fuel current i j le at e rest =
      let there : leb current (len mem addr) ≡ true = ground arith in
      elim (Bool-cases (mem (record_at mem addr j) == ty)) [
        | inl yes_type ↦
            let same : mem (record_at mem addr j) ≡ ty = (==_iff _ _).0 yes_type in
            rw (there, e, yes_type)
              (elim (ℕ_discrete j k) [
                | yes is ↦ ap (λ n. some (returns (some (record_at mem addr n)))) is
                | no isnt ↦ absurd (first.others j (omega (arith, at, isnt)) same)
              ])
        | inr no_type ↦
            rw (there, e, no_type)
              (elim (ℕ_discrete j k) [
                | yes is ↦ absurd (missed j is no_type)
                | no isnt ↦ rest (omega (arith, at, isnt))
              ])
      ]
    where
      missed : (j : ℕ) → j ≡ k → (mem (record_at mem addr j) == ty) ≡ false → ⊥
      missed j is no_type =
          let same : mem (record_at mem addr j) ≡ ty =
            ap (λ n. mem (record_at mem addr n)) is ∙ first.hit in
          let yes_type = (==_iff (mem (record_at mem addr j)) ty).1 same in cc

  nth_at :
      (n j : ℕ)
      → suc (n - 1) ≡ j
      → j ≤ k
      → madt_nth mem addr (suc n) ≡ returns (record_at mem addr j, record_at mem addr j - addr)
  nth_at n j e le =
      let up = record_at_le mem addr j k le in
      let small : record_at mem addr j < 2 ^ 32 = omega (arith, up, first.small) in
      subst
        (λ i.
          record_at mem addr i < 2 ^ 32
          → madt_nth mem addr (suc n) ≡ returns (record_at mem addr i, record_at mem addr i - addr))
        e (madt_nth-at mem addr n) small

  nth_first : madt_nth mem addr 0 ≡ returns (record_at mem addr 0, record_at mem addr 0 - addr)
  unfolding madt_nth
  nth_first =
      let up = record_at_le mem addr 0 k (omega arith) in
      let start : record_at mem addr 0 ≡ addr + madt_size = refl in
      let size : madt_size ≡ addr + madt_size - addr = omega arith in
      first_record-eq mem addr (omega (arith, up, first.small, start))
      ∙ ap (λ offset. returns (addr + madt_size, offset)) size

  offset_le : (j : ℕ) → j ≤ k → record_at mem addr j - addr ≤ len mem addr
  offset_le j le = let up = record_at_le mem addr j k le in omega (arith, up, first.inside)

  -- From the third call on.
  from :
      (d n fuel current : ℕ)
      → 0 < n
      → n + d ≡ k
      → d < fuel
      → current ≤ len mem addr
      → Finds (find_record fuel mem addr ty current (suc n))
  from d n zero current pos e enough le = absurd (omega (arith, enough))
  from zero n (suc fuel) current pos e enough le =
      round fuel current (suc n) n le (omega (arith, e))
        (nth_at n n (omega arith) (omega (arith, e))) (λ lt. absurd (omega (arith, e, lt)))
  from (suc d) n (suc fuel) current pos e enough le =
      round fuel current (suc n) n le (omega (arith, e))
        (nth_at n n (omega arith) (omega (arith, e)))
        (λ lt.
          from d (suc n) fuel (record_at mem addr n - addr) (omega arith) (omega (arith, e))
            (omega (arith, enough)) (offset_le n (omega (arith, e))))

  search : (fuel : ℕ) → suc k < fuel → Finds (get_record_of_type fuel mem addr ty)
  unfolding get_record_of_type
  search zero enough = absurd (omega (arith, enough))
  search (suc zero) enough = absurd (omega (arith, enough))
  search (suc (suc fuel)) enough =
      round (suc fuel) 0 0 0 (omega arith) (omega arith) nth_first (λ some_left.
        round fuel (record_at mem addr 0 - addr) 1 1 (offset_le 0 (omega arith))
          (omega (arith, some_left)) (nth_at 0 1 (omega arith) (omega (arith, some_left)))
          (λ more_left.
            from (k - 1) 1 fuel (record_at mem addr 1 - addr) (omega arith)
              (omega (arith, more_left)) (omega (arith, enough, more_left))
              (offset_le 1 (omega (arith, more_left)))))

-- When the first record of a type begins within the length of the table, and below 2^32, the search
-- ends within two rounds more than there are records before it, and returns it.
pub get_record_of_type-record_at :
    (fuel : ℕ) (mem : Bytes) (addr : PhysAddr) (ty k : ℕ)
    → IsFirst mem addr ty k
    → suc k < fuel
    → get_record_of_type fuel mem addr ty ≡ some (returns (some (record_at mem addr k)))
get_record_of_type-record_at fuel mem addr ty k first enough =
    search mem addr ty k first fuel enough
