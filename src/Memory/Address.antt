-- ===== src/Memory/Address.antt =====
-- What `align_up`, `align_down` and `translate` of kernel/src/memory/mod.rs compute.
use native.Mathlib.Nat.{pow-le-pow_right, div-mul-le_self, lt-div-mul-add}
use navi_os.Base.{ℕ, ◌+◌, ◌-◌, ◌*◌, ◌/◌, ◌^◌, ◌≤◌, ◌<◌, ◌≡◌, arith}
use navi_os.Base.Bits.{pow-pos, bit_and-high, bit_and-ones}
use navi_os.Memory.{usize_mod, usize_add, usize_sub, usize_not, align_up, align_down, translate}

pow-le-usize : (k : ℕ) → k < 64 → 2 ^ k ≤ 2 ^ 64
pow-le-usize k h = pow-le-pow_right {n = 2} (omega arith) {i = k} {j = 64} (omega arith)

mask-lem : (k : ℕ) → k < 64 → usize_not (usize_sub (2 ^ k) 1) ≡ 2 ^ 64 - 2 ^ k
mask-lem k h = omega (arith, pow-pos k, pow-le-usize k h)

-- `align_down` to a power of two rounds down to a multiple of it.
pub align_down_lem : (k x : ℕ) → k < 64 → x < usize_mod → align_down x (2 ^ k) ≡ x / 2 ^ k * 2 ^ k
unfolding align_down
align_down_lem k x h lt = rw (mask-lem k h) (bit_and-high k 64 x (omega arith) lt)

-- Where the sum does not wrap, `align_up` to a power of two returns the least multiple of it
-- that is no less than the address.
pub align_up_lem :
    (k x : ℕ)
    → k < 64
    → x + 2 ^ k < usize_mod
    → (q : ℕ) × (align_up x (2 ^ k) ≡ q * 2 ^ k) × (x ≤ q * 2 ^ k) × (q * 2 ^ k < x + 2 ^ k)
unfolding align_up
align_up_lem k x h lt =
    let y : ℕ = x + 2 ^ k - 1 in
    let sum : usize_sub (usize_add x (2 ^ k)) 1 ≡ y = omega (arith, pow-pos k) in
    (
      y / 2 ^ k,
      rw (sum, mask-lem k h) (bit_and-high k 64 y (omega arith) (omega arith)),
      omega (arith, pow-pos k, lt-div-mul-add {a = y} (pow-pos k)),
      omega (arith, pow-pos k, div-mul-le_self y (2 ^ k)),
    )

-- The five parts of a 48-bit address are in range and add up to it again.
pub translate_lem :
    (addr : ℕ)
    → addr < 2 ^ 48
    → let (offset, l1, l2, l3, l4) = translate addr in
      (offset < 4096)
      × (l1 < 512)
      × (l2 < 512)
      × (l3 < 512)
      × (l4 < 512)
      × (l4 * 2 ^ 39 + l3 * 2 ^ 30 + l2 * 2 ^ 21 + l1 * 2 ^ 12 + offset ≡ addr)
unfolding translate
translate_lem addr h =
    let offset = bit_and-ones 12 addr in
    let l1 = bit_and-ones 9 (addr / 2 ^ 12) in
    let l2 = bit_and-ones 9 (addr / 2 ^ 21) in
    let l3 = bit_and-ones 9 (addr / 2 ^ 30) in
    let l4 = bit_and-ones 9 (addr / 2 ^ 39) in omega arith
