-- ===== src/Memory/Frames/Bitmap.antt =====
-- The bitmap as a set of free frames: what the bit operations of `set_used` and `set_unused` do
-- to each bit.
use navi_os.Base.{
  ℕ, suc, ◌-◌, ◌*◌, ◌/◌, ◌%◌, ◌<◌, ◌≤◌, ◌≡◌, refl, sym, ◌∙◌, ap, inl, inr, Bool, true, false, not,
  Option, none, some, List, length, get_elem?, set, bit_or, bit_xor, ◌==◌, ==_iff, ==_ne,
  Bool-cases, if◌then◌else◌, All, arith, get_elem?-set_self, get_elem?-set_ne, lt-length_of_some,
}
use navi_os.Base.Bits.{shl, holds_under, holds_under-at}
use navi_os.Memory.{usize_mod, page_size}
use navi_os.Memory.Frames.{RegionAllocator, is_clear}

-- Frame `i` is free: its bit is in the bitmap, and clear.
abbrev pub clear_in : Option ℕ → ℕ → Bool
clear_in none col = false
clear_in (some b) col = is_clear b col

abbrev pub is_free : List ℕ → ℕ → Bool
is_free bitmap i = clear_in (get_elem? bitmap (i / 8)) (i % 8)

-- The bitmap holds bytes, and the addresses of its frames fit into a `usize`.
pub record IsValid (this : RegionAllocator) : Type 0 where
  pub bytes : All (λ b. b < 256) this.bitmap
  pub fits : length this.bitmap * 8 * page_size ≤ usize_mod

abbrev eqb : Bool → Bool → Bool
eqb true b = b
eqb false b = not b

eqb-eq : (a b : Bool) → eqb a b ≡ true → a ≡ b
eqb-eq true b e = sym e
eqb-eq false true e = e
eqb-eq false false e = refl

-- A law for every byte and two columns, from a table.
abbrev table : (ℕ → ℕ → ℕ → Bool) → Bool
table p = holds_under (λ b. holds_under (λ c. holds_under (p b c) 8) 8) 256

table_at :
    (p : ℕ → ℕ → ℕ → Bool) (b c d : ℕ) → table p ≡ true → b < 256 → c < 8 → d < 8 → p b c d ≡ true
table_at p b c d t hb hc hd =
    holds_under-at (p b c) 8
      (holds_under-at (λ c. holds_under (p b c) 8) 8
        (holds_under-at (λ b. holds_under (λ c. holds_under (p b c) 8) 8) 256 t b hb) c hc)
      d hd

abbrev or_law : ℕ → ℕ → ℕ → Bool
or_law b c d = eqb (is_clear (bit_or b (shl 1 c)) d) (if c == d then false else is_clear b d)

abbrev xor_law : ℕ → ℕ → ℕ → Bool
xor_law b c d =
    eqb (is_clear (bit_xor b (shl 1 c)) d) (if c == d then not (is_clear b c) else is_clear b d)

abbrev ltb' : ℕ → ℕ → Bool
ltb' a b = suc a - b == 0

or_table : table or_law ≡ true
unfolding holds_under
or_table = refl

xor_table : table xor_law ≡ true
unfolding holds_under
xor_table = refl

or_byte_table : table (λ b c d. ltb' (bit_or b (shl 1 c)) 256) ≡ true
unfolding holds_under
or_byte_table = refl

xor_byte_table : table (λ b c d. ltb' (bit_xor b (shl 1 c)) 256) ≡ true
unfolding holds_under
xor_byte_table = refl

pub is_clear-or :
    (b c d : ℕ)
    → b < 256
    → c < 8
    → d < 8
    → is_clear (bit_or b (shl 1 c)) d ≡ (if c == d then false else is_clear b d)
is_clear-or b c d hb hc hd = eqb-eq _ _ (table_at or_law b c d or_table hb hc hd)

pub is_clear-xor :
    (b c d : ℕ)
    → b < 256
    → c < 8
    → d < 8
    → is_clear (bit_xor b (shl 1 c)) d ≡ (if c == d then not (is_clear b c) else is_clear b d)
is_clear-xor b c d hb hc hd = eqb-eq _ _ (table_at xor_law b c d xor_table hb hc hd)

pub or-lt : (b c : ℕ) → b < 256 → c < 8 → bit_or b (shl 1 c) < 256
or-lt b c hb hc =
    let fact =
      table_at (λ b c d. ltb' (bit_or b (shl 1 c)) 256) b c 0 or_byte_table hb hc (omega arith) in
    ground arith

pub xor-lt : (b c : ℕ) → b < 256 → c < 8 → bit_xor b (shl 1 c) < 256
xor-lt b c hb hc =
    let fact =
      table_at (λ b c d. ltb' (bit_xor b (shl 1 c)) 256) b c 0 xor_byte_table hb hc (omega arith) in
    ground arith

-- A write of one byte that gives bit `i` the value `v` and keeps the others does so to the set.
pub is_free-set :
    (bm : List ℕ) (i b b' : ℕ) (v : Bool)
    → get_elem? bm (i / 8) ≡ some b
    → ((d : ℕ) → d < 8 → is_clear b' d ≡ (if i % 8 == d then v else is_clear b d))
    → (j : ℕ) → is_free (set bm (i / 8) b') j ≡ (if i == j then v else is_free bm j)
is_free-set bm i b b' v e law j = elim (Bool-cases (i / 8 == j / 8)) [
  | inl same ↦
      let rows : i / 8 ≡ j / 8 = (==_iff _ _).0 same in
      let read : get_elem? (set bm (i / 8) b') (j / 8) ≡ some b' =
        rw (← rows) (get_elem?-set_self bm (i / 8) b' (lt-length_of_some bm (i / 8) b e)) in
      let old : get_elem? bm (j / 8) ≡ some b = rw (← rows) e in
      ap (λ o. clear_in o (j % 8)) read
      ∙ law (j % 8) (omega arith)
      ∙ ground (arith, ap (λ o. clear_in o (j % 8)) old)
  | inr other ↦
      ap (λ o. clear_in o (j % 8)) (get_elem?-set_ne bm (i / 8) (j / 8) b' (==_ne _ _ other))
      ∙ ground arith
]
