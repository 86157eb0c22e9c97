-- ===== src/Base/Bytes.antt =====
-- Texts and byte strings as lists of numbers: equality and the order of keys.
use Prim.Native.Nat.{ℕ}
use mathlib.Core.Path.{◌≡◌, refl, sym, ◌∙◌}
use mathlib.Core.Logic.{◌≢◌, inl, inr}
use mathlib.Core.Bool.{Bool, true, false, ◌&&◌, ◌||◌}
use mathlib.Core.List.{List, [], ◌∷◌}
use native.Mathlib.Omega.{arith}
use navi_os.Base.Tests.{◌==◌, ltb, if◌then◌else◌, Bool-cases, ==_ne}
use navi_os.Base.Lists.{All}

abbrev pub bytes_eq : List ℕ → List ℕ → Bool
bytes_eq [] [] = true
bytes_eq [] (y ∷ ys) = false
bytes_eq (x ∷ xs) [] = false
bytes_eq (x ∷ xs) (y ∷ ys) = x == y && bytes_eq xs ys

-- The lexicographic order.
abbrev pub bytes_lt : List ℕ → List ℕ → Bool
bytes_lt [] [] = false
bytes_lt [] (y ∷ ys) = true
bytes_lt (x ∷ xs) [] = false
bytes_lt (x ∷ xs) (y ∷ ys) = ltb x y || (x == y && bytes_lt xs ys)

pub bytes_eq_refl : (xs : List ℕ) → bytes_eq xs xs ≡ true
bytes_eq_refl [] = refl
bytes_eq_refl (x ∷ xs) = ground (arith, bytes_eq_refl xs)

pub bytes_eq_path : (xs ys : List ℕ) → bytes_eq xs ys ≡ true → xs ≡ ys
bytes_eq_path [] [] e = refl
bytes_eq_path [] (y ∷ ys) e = ground arith
bytes_eq_path (x ∷ xs) [] e = ground arith
bytes_eq_path (x ∷ xs) (y ∷ ys) e = ground (arith, bytes_eq_path xs ys)

-- Texts without a character.
abbrev pub absent : ℕ → List ℕ → Bool
absent c [] = true
absent c (d ∷ ds) = if d == c then false else absent c ds

pub absent-All : (c : ℕ) (ds : List ℕ) → absent c ds ≡ true → All (λ d. d ≢ c) ds
absent-All c [] h = tt
absent-All c (d ∷ ds) h = elim (Bool-cases (d == c)) [
  | inl same ↦ absurd (false-ne-true (sym (rw same refl) ∙ h))
  | inr other ↦ (==_ne d c other, absent-All c ds (sym (rw other refl) ∙ h))
]
  where
    false-ne-true : false ≡ true → ⊥
    false-ne-true e = cc
