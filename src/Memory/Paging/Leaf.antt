-- ===== src/Memory/Paging/Leaf.antt =====
-- The entry of a page in its last table.
use navi_os.Base.{
  ℕ, ◌+◌, ◌*◌, ◌%◌, ◌^◌, ◌<◌, ◌≡◌, ◌≢◌, refl, sym, ◌∙◌, ap, arith, false, ◌&&◌, some, List, [], ◌∷◌,
  length, ◌==◌, ==_iff, ==_refl, Bool-cases, inl, inr,
}
use navi_os.Memory.{PhysAddr, page_size}
use navi_os.Memory.Paging.{Machine, Entry, entry_new, with_entry}
use navi_os.Memory.Paging.Entries.{
  Small, entry_frame-eq, entry_new-Small, entry_new-odd, entry_new-frame,
}
use navi_os.Memory.Paging.Tree.{
  address_of, leads, bind-cong, walk, Places, IsTree, same_entry, other_table,
}

-- The indices `q`, the last one first, followed by those of `is`.
abbrev pub onto : List ℕ → List ℕ → List ℕ
onto q [] = q
onto q (j ∷ is) = onto (j ∷ q) is

-- The write of the last entry, in the table `t`.
module _ (m : Machine) (root : PhysAddr) (place : Places) (tree : IsTree m root place)
    (t i flags n : ℕ) (p : List ℕ) (at : place t ≡ some p) (last : length p ≡ 3) (few : flags < 512)
    (odd : flags % 2 ≡ 1) (small : n < 2 ^ 40) where
  abbrev pub entry : Entry
  entry = entry_new flags (n * page_size)

  abbrev pub final : Machine
  final = with_entry m t i entry

  apart : (u : ℕ) (q : List ℕ) → place u ≡ some q → length q < 3 → (u == t) ≡ false
  apart u q h lt = elim (Bool-cases (u == t)) [
    | inr other ↦ other
    | inl same ↦
        let tables : u ≡ t = (==_iff u t).0 same in
        let places : q ≡ p = cc (ap place tables) in absurd (omega (arith, ap length places))
  ]

  pub leads-final : leads final t i ≡ some (n * page_size)
  leads-final =
      rw (==_refl t, ==_refl i)
        (ap address_of (
            entry_frame-eq entry (entry_new-Small flags n few odd small)
              (entry_new-odd flags n few odd small))
          ∙ ap (λ k. some (k * page_size)) (entry_new-frame flags n few odd small))

  pub leads-inner :
      (u j : ℕ) (q : List ℕ) → place u ≡ some q → length q < 3 → leads final u j ≡ leads m u j
  leads-inner u j q h lt = rw (other_table t u i j (apart u q h lt)) refl

  pub walk-other :
      (u : ℕ) (q is : List ℕ)
      → place u ≡ some q
      → length q + length is ≡ 4
      → onto q is ≢ i ∷ p
      → walk final u is ≡ walk m u is
  unfolding walk
  walk-other u q [] h len ne = refl
  walk-other u q (j ∷ []) h len ne = elim (Bool-cases (u == t && j == i)) [
    | inr other ↦ rw other (bind-cong (leads m u j) (λ _ _. refl))
    | inl same ↦
        let (tables, indices) = same_entry t u i j same in absurd (ne (cc (ap place tables)))
  ]
  walk-other u q (j ∷ j' ∷ is) h len ne = rw (leads-inner u j q h (omega (arith, len))) (
      bind-cong (leads m u j) (λ u' e.
        walk-other u' (j ∷ q) (j' ∷ is) (tree.below u j u' q h (omega (arith, len)) e)
          (omega (arith, len)) ne))

  pub final-IsTree : IsTree final root place
  final-IsTree = record {
    root_at = tree.root_at;
    valid = tree.valid;
    within = tree.within;
    entries = entry_at;
    below = λ u j u' q h lt e. tree.below u j u' q h lt (sym (leads-inner u j q h lt) ∙ e);
    unused = tree.unused;
  }
    where
      entry_at : (u j : ℕ) (q : List ℕ) → place u ≡ some q → Small (final.memory u j)
      entry_at u j q h = elim (Bool-cases (u == t && j == i)) [
        | inl same ↦ rw same (entry_new-Small flags n few odd small)
        | inr other ↦ rw other (tree.entries u j q h)
      ]
