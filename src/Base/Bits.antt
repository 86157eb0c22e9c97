-- ===== src/Base/Bits.antt =====
-- The bit operations of machine words, and what they do in the terms of division.
use Prim.Native.Nat.{
  ℕ, zero, suc, ◌+◌, ◌-◌, ◌*◌, ◌/◌, ◌%◌, ◌^◌, ◌≤◌, ◌<◌, min, bit_and, digits, bit_and-bitwise,
}
use mathlib.Core.Path.{◌≡◌, refl, sym, ap, ◌∙◌}
use mathlib.Core.Bool.{Bool, true, ◌&&◌}
use native.Mathlib.Omega.{arith}
use native.Mathlib.Nat.{
  pow-suc, mul_comm, div-div-eq-div-mul, mod-add-div', mod-eq_of_lt, add-zero, add-suc,
}

-- `usize` has 64 bits.
abbrev pub usize_bits : ℕ
usize_bits = 64

-- x >> k and 1 << k.
abbrev pub shr : ℕ → ℕ → ℕ
shr x k = x / 2 ^ k

abbrev pub shl : ℕ → ℕ → ℕ
shl x k = x * 2 ^ k

-- Whether a test passes at every number under a bound; what such a table says of one number.
unfoldable pub holds_under : (ℕ → Bool) → ℕ → Bool
holds_under test zero = true
holds_under test (suc top) = holds_under test top && test top

pub holds_under-at :
    (test : ℕ → Bool) (top : ℕ) → holds_under test top ≡ true → (n : ℕ) → n < top → test n ≡ true
unfolding holds_under
holds_under-at test zero h n lt = elim lt [ ]
holds_under-at test (suc top) h n lt = ground (arith, holds_under-at test top (ground arith) n)

-- `bit_and` goes through the digits of its first number; this is the recursion, with a bound on
-- their count.
abbrev and_upto : ℕ → ℕ → ℕ → ℕ
and_upto fuel x y = digits (λ _. zero) min fuel x y

and_upto-suc : (fuel x y : ℕ) → x ≤ fuel → and_upto (suc fuel) x y ≡ and_upto fuel x y
and_upto-suc zero zero y h = refl
and_upto-suc (suc fuel) zero y h = refl
and_upto-suc zero (suc x) y h = absurd (omega arith)
and_upto-suc (suc fuel) (suc x) y h =
    let deeper = and_upto-suc fuel (suc x / 2) (y / 2) (omega arith) in omega arith

and_upto-add : (more fuel x y : ℕ) → x ≤ fuel → and_upto (fuel + more) x y ≡ and_upto fuel x y
and_upto-add zero fuel x y h = rw add-zero refl
and_upto-add (suc more) fuel x y h =
    rw add-suc (and_upto-suc (fuel + more) x y (omega arith) ∙ and_upto-add more fuel x y h)

-- The lowest digit of the result, and the rest.
pub bit_and-halves : (x y : ℕ) → bit_and x y ≡ min (x % 2) (y % 2) + 2 * bit_and (x / 2) (y / 2)
bit_and-halves zero y =
    let whole = bit_and-bitwise zero y in let rest = bit_and-bitwise zero (y / 2) in omega arith
bit_and-halves (suc x) y =
    let half : ℕ = suc x / 2 in
    let gap : half + (x - half) ≡ x = omega arith in
    let enough : and_upto x half (y / 2) ≡ and_upto half half (y / 2) =
      ap (λ (fuel : ℕ). and_upto fuel half (y / 2)) (sym gap)
      ∙ and_upto-add (x - half) half half (y / 2) (omega arith) in
    let whole = bit_and-bitwise (suc x) y in let rest = bit_and-bitwise half (y / 2) in omega arith

pub bit_and-zero_under : (top x : ℕ) → x < top → bit_and x 0 ≡ 0
bit_and-zero_under zero x lt = elim lt [ ]
bit_and-zero_under (suc top) zero lt = bit_and-bitwise zero 0
bit_and-zero_under (suc top) (suc x) lt =
    let rest = bit_and-zero_under top (suc x / 2) (omega arith) in
    omega (arith, bit_and-halves (suc x) 0)

pub bit_and-none : (x : ℕ) → bit_and x 0 ≡ 0
bit_and-none x = bit_and-zero_under (suc x) x (omega arith)

pub pow-pos : (n : ℕ) → 0 < 2 ^ n
pow-pos zero = omega arith
pow-pos (suc n) = omega (arith, pow-suc 2 n, pow-pos n)

-- The first halving of a division by twice a number.
pub div-double : (x p : ℕ) → x / (p * 2) ≡ x / 2 / p
div-double x p = ap (λ (d : ℕ). x / d) (mul_comm p 2) ∙ sym (div-div-eq-div-mul x 2 p)

pub mod-double : (x p : ℕ) → x % (p * 2) ≡ x / 2 % p * 2 + x % 2
mod-double x p =
    omega (
      arith,
      ap (λ (t : ℕ). t * p) (div-double x p),
      mod-add-div' x (p * 2),
      mod-add-div' (x / 2) p,
    )

-- A mask of n ones keeps the n lowest bits.
pub bit_and-ones : (n x : ℕ) → bit_and x (2 ^ n - 1) ≡ x % 2 ^ n
bit_and-ones zero x = omega (arith, bit_and-none x)
bit_and-ones (suc n) x =
    let half : (2 ^ n * 2 - 1) / 2 ≡ 2 ^ n - 1 = omega (arith, pow-pos n) in
    let ih : bit_and (x / 2) ((2 ^ n * 2 - 1) / 2) ≡ x / 2 % 2 ^ n =
      rw half (bit_and-ones n (x / 2)) in
    rw (pow-suc 2 n, bit_and-halves x (2 ^ n * 2 - 1))
      (omega (arith, pow-pos n, ih, mod-double x (2 ^ n)))

-- A mask of ones above the k lowest bits clears those.
pub bit_and-high : (k n x : ℕ) → k ≤ n → x < 2 ^ n → bit_and x (2 ^ n - 2 ^ k) ≡ x / 2 ^ k * 2 ^ k
bit_and-high zero n x h lt = omega (arith, bit_and-ones n x, mod-eq_of_lt lt)
bit_and-high (suc k) zero x h lt = absurd (omega arith)
bit_and-high (suc k) (suc n) x h lt =
    let half : (2 ^ n * 2 - 2 ^ k * 2) / 2 ≡ 2 ^ n - 2 ^ k = omega arith in
    let ih : bit_and (x / 2) ((2 ^ n * 2 - 2 ^ k * 2) / 2) ≡ x / 2 / 2 ^ k * 2 ^ k =
      rw half (bit_and-high k n (x / 2) (omega arith) (omega (arith, pow-suc 2 n))) in
    rw (pow-suc 2 n, pow-suc 2 k, bit_and-halves x (2 ^ n * 2 - 2 ^ k * 2))
      (omega (arith, ih, ap (λ (t : ℕ). t * 2 ^ k) (div-double x (2 ^ k))))
