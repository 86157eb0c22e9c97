-- ===== src/Base/Masks.antt =====
-- The or of machine words and the masks of their fields, in the terms of division.
use Prim.Native.Nat.{
  ℕ, zero, suc, ◌+◌, ◌-◌, ◌*◌, ◌/◌, ◌%◌, ◌^◌, ◌≤◌, ◌<◌, max, bit_and, bit_or, digits,
  bit_or-bitwise,
}
use mathlib.Core.Path.{◌≡◌, refl, sym, ap, ◌∙◌}
use native.Mathlib.Omega.{arith}
use native.Mathlib.Nat.{pow-suc, add-zero, add-suc}
use navi_os.Base.Bits.{bit_and-halves, bit_and-none, pow-pos, div-double, mod-double}

abbrev or_upto : ℕ → ℕ → ℕ → ℕ
or_upto fuel x y = digits (λ b. b) max fuel x y

or_upto-suc : (fuel x y : ℕ) → x ≤ fuel → or_upto (suc fuel) x y ≡ or_upto fuel x y
or_upto-suc zero zero y h = refl
or_upto-suc (suc fuel) zero y h = refl
or_upto-suc zero (suc x) y h = absurd (omega arith)
or_upto-suc (suc fuel) (suc x) y h =
    let deeper = or_upto-suc fuel (suc x / 2) (y / 2) (omega arith) in omega arith

or_upto-add : (more fuel x y : ℕ) → x ≤ fuel → or_upto (fuel + more) x y ≡ or_upto fuel x y
or_upto-add zero fuel x y h = rw add-zero refl
or_upto-add (suc more) fuel x y h =
    rw add-suc (or_upto-suc (fuel + more) x y (omega arith) ∙ or_upto-add more fuel x y h)

pub bit_or-halves : (x y : ℕ) → bit_or x y ≡ max (x % 2) (y % 2) + 2 * bit_or (x / 2) (y / 2)
bit_or-halves zero y =
    let whole = bit_or-bitwise zero y in let rest = bit_or-bitwise zero (y / 2) in omega arith
bit_or-halves (suc x) y =
    let half : ℕ = suc x / 2 in
    let gap : half + (x - half) ≡ x = omega arith in
    let enough : or_upto x half (y / 2) ≡ or_upto half half (y / 2) =
      ap (λ (fuel : ℕ). or_upto fuel half (y / 2)) (sym gap)
      ∙ or_upto-add (x - half) half half (y / 2) (omega arith) in
    let whole = bit_or-bitwise (suc x) y in let rest = bit_or-bitwise half (y / 2) in omega arith

or-zero_under : (top x : ℕ) → x < top → bit_or x 0 ≡ x
or-zero_under zero x lt = elim lt [ ]
or-zero_under (suc top) zero lt = bit_or-bitwise zero 0
or-zero_under (suc top) (suc x) lt =
    omega (arith, or-zero_under top (suc x / 2) (omega arith), bit_or-halves (suc x) 0)

-- The fields of two words that have no bit in common are put side by side.
pub bit_or-high : (n k x : ℕ) → x < 2 ^ n → bit_or (k * 2 ^ n) x ≡ k * 2 ^ n + x
bit_or-high zero k zero h = or-zero_under (suc (k * 2 ^ 0)) (k * 2 ^ 0) (omega arith) ∙ omega arith
bit_or-high zero k (suc x) h = absurd (omega arith)
bit_or-high (suc n) k x h =
    let pow : 2 ^ suc n ≡ 2 ^ n * 2 = pow-suc 2 n in
    let whole : k * 2 ^ suc n ≡ (k * 2 ^ n) * 2 = omega (arith, ap (λ (p : ℕ). k * p) pow) in
    let half : (k * 2 ^ n) * 2 / 2 ≡ k * 2 ^ n = omega arith in
    let rest : bit_or ((k * 2 ^ n) * 2 / 2) (x / 2) ≡ k * 2 ^ n + x / 2 =
      ap (λ (y : ℕ). bit_or y (x / 2)) half ∙ bit_or-high n k (x / 2) (omega arith) in
    rw whole (bit_or-halves ((k * 2 ^ n) * 2) x ∙ omega (arith, rest))

pub bit_or-lt : (n x y : ℕ) → x < 2 ^ n → y < 2 ^ n → bit_or x y < 2 ^ n
bit_or-lt zero zero zero h k = omega (arith, bit_or-bitwise zero 0)
bit_or-lt zero zero (suc y) h k = absurd (omega arith)
bit_or-lt zero (suc x) y h k = absurd (omega arith)
bit_or-lt (suc n) x y h k =
    let pow : 2 ^ suc n ≡ 2 ^ n * 2 = pow-suc 2 n in
    omega (arith, bit_or-halves x y, bit_or-lt n (x / 2) (y / 2) (omega arith) (omega arith))

-- A bit above a word is not in it.
bit_and-above : (n x : ℕ) → x < 2 ^ n → bit_and x (2 ^ n) ≡ 0
bit_and-above zero zero h = bit_and-none 0 ∙ refl
bit_and-above zero (suc x) h = absurd (omega arith)
bit_and-above (suc n) x h =
    let pow : 2 ^ suc n ≡ 2 ^ n * 2 = pow-suc 2 n in
    let half : 2 ^ n * 2 / 2 ≡ 2 ^ n = omega arith in
    let rest : bit_and (x / 2) (2 ^ n * 2 / 2) ≡ 0 =
      ap (λ (y : ℕ). bit_and (x / 2) y) half ∙ bit_and-above n (x / 2) (omega arith) in
    rw pow (bit_and-halves x (2 ^ n * 2) ∙ omega (arith, rest))

-- A mask of k ones with other bits above them.
bit_and-fields :
    (k x m : ℕ) → bit_and x (m * 2 ^ k + (2 ^ k - 1)) ≡ bit_and (x / 2 ^ k) m * 2 ^ k + x % 2 ^ k
bit_and-fields zero x m =
    let mask : m * 2 ^ 0 + (2 ^ 0 - 1) ≡ m = omega arith in
    let same : x / 2 ^ 0 ≡ x = omega arith in rw (mask, same) (omega arith)
bit_and-fields (suc k) x m =
    let p : ℕ = 2 ^ k in
    let some_p : 0 < p = pow-pos k in
    let distribute : m * (p * 2) ≡ m * p * 2 = omega arith in
    let half : (m * (p * 2) + (p * 2 - 1)) / 2 ≡ m * p + (p - 1) = omega arith in
    let rest : bit_and (x / 2) ((m * (p * 2) + (p * 2 - 1)) / 2)
        ≡ bit_and (x / (p * 2)) m * p + x / 2 % p =
      ap (λ (y : ℕ). bit_and (x / 2) y) half
      ∙ bit_and-fields k (x / 2) m
      ∙ ap (λ (y : ℕ). bit_and y m * p + x / 2 % p) (sym (div-double x p)) in
    rw (pow-suc 2 k)
      (bit_and-halves x (m * (p * 2) + (p * 2 - 1)) ∙ omega (arith, rest, mod-double x p))

-- The flags of an entry of a page table.
pub bit_and-flags : (x : ℕ) → x < 2 ^ 52 → bit_and x 0x80000000000001FF ≡ x % 512
bit_and-flags x h =
    bit_and-fields 9 x (2 ^ 54)
    ∙ ap (λ (y : ℕ). y * 2 ^ 9 + x % 2 ^ 9) (bit_and-above 54 (x / 2 ^ 9) (omega arith))
    ∙ omega arith
