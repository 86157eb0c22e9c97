-- ===== src/Drivers/Keyboard/Scan.antt =====
-- The state machine of the scan codes.
use navi_os.Base.{
  ℕ, ◌+◌, ◌-◌, ◌*◌, ◌/◌, ◌<◌, ◌≡◌, ◌≢◌, refl, ◌∙◌, bit_and, true, false, Option, none, List, [],
  ◌∷◌, ◌++◌, ◌==◌, ltb, if◌then◌else◌, Outcome, returns, ◌>>=◌, length, set, replicate, arith,
  get_elem?-set_self, set-set, length-set,
}
use navi_os.Base.Bits.{bit_and-high}
use navi_os.Drivers.Keyboard.Set1
use navi_os.Drivers.Keyboard.Set1.{Set1Key, set_1, encode}
use navi_os.Drivers.Keyboard.Shapes.{single, prefixed, four, shape}
use navi_os.Drivers.Keyboard.{
  Key, Crates, Documented, Keyboard, add_pressed_keycode, release, released, made, idle,
  from_le_bytes, encoded, write_byte, complete, encode_ps2_set_1,
}

low_bits : (c : ℕ) → c < 128 → (bit_and c 128 == 128) ≡ false
low_bits c h = ground (arith, bit_and-high 7 8 c (omega arith) (omega arith))

high_bit : (c : ℕ) → c < 128 → (bit_and (c + 128) 128 == 128) ≡ true
high_bit c h = ground (arith, bit_and-high 7 8 (c + 128) (omega arith) (omega arith))

module _ (crates : Crates) (kb : Keyboard)
    (inside : kb.latest_unencoded_byte < length kb.current_unencoded_key) where
  abbrev pub with_byte : ℕ → List ℕ
  with_byte c = set kb.current_unencoded_key kb.latest_unencoded_byte c

  writes :
      (c : ℕ)
      → write_byte kb.current_unencoded_key kb.latest_unencoded_byte c ≡ returns (with_byte c)
  writes c = ground arith

  pub step_prefix :
      encode_ps2_set_1 crates kb 0xE0
      ≡ returns (
        record kb {
          current_unencoded_key = with_byte 0xE0;
          latest_unencoded_byte = kb.latest_unencoded_byte + 1;
        },
        none,
      )
  unfolding encode_ps2_set_1
  step_prefix = rw (writes 0xE0, encode_ps2_set_1) refl

  pub step_make :
      (c : ℕ) → c < 128 → encode_ps2_set_1 crates kb c ≡ made crates kb.current_keys (with_byte c)
  unfolding encode_ps2_set_1
  step_make c h =
      let other : (c == 0xE0) ≡ false = ground arith in
      rw
        (
          writes c,
          encode_ps2_set_1,
          other,
          complete,
          get_elem?-set_self kb.current_unencoded_key kb.latest_unencoded_byte c inside,
          low_bits c h,
        )
        refl

  rewrites :
      (c : ℕ)
      → write_byte (with_byte (c + 128)) kb.latest_unencoded_byte (c + 128 - 0x80)
        ≡ returns (with_byte c)
  rewrites c =
      let size = length-set kb.current_unencoded_key kb.latest_unencoded_byte (c + 128) in
      let here : ltb kb.latest_unencoded_byte (length (with_byte (c + 128))) ≡ true =
        ground (arith, size) in
      let back : c + 128 - 0x80 ≡ c = omega arith in
      rw (here, back, set-set kb.current_unencoded_key kb.latest_unencoded_byte (c + 128) c) refl

  pub step_break :
      (c : ℕ)
      → c < 128
      → c ≢ 0x60
      → encode_ps2_set_1 crates kb (c + 128)
        ≡ returns (released crates kb.current_keys (with_byte c))
  unfolding encode_ps2_set_1
  step_break c h ne =
      let other : (c + 128 == 0xE0) ≡ false = ground arith in
      rw
        (
          writes (c + 128),
          encode_ps2_set_1,
          other,
          complete,
          get_elem?-set_self kb.current_unencoded_key kb.latest_unencoded_byte (c + 128) inside,
          high_bit c h,
          rewrites c,
        )
        refl

-- A keyboard that is sent bytes, with the call that the last of them makes.
unfoldable pub feed : Crates → Keyboard → List ℕ → Outcome (Keyboard × Option Key)
unfolding encode_ps2_set_1
feed crates kb [] = returns (kb, none)
feed crates kb (b ∷ []) = encode_ps2_set_1 crates kb b
feed crates kb (b ∷ c ∷ bs) = encode_ps2_set_1 crates kb b >>= λ r. feed crates r.0 (c ∷ bs)

-- The bytes of a scan code before its last one, and its last one.
abbrev pub prefix_of : Set1Key → List ℕ
prefix_of k = if ltb (set_1 k) 256 then [] else 0xE0 ∷ []

abbrev pub last_of : Set1Key → ℕ
last_of k = if ltb (set_1 k) 256 then set_1 k else set_1 k / 256

-- What the bytes of a key's make code and of its break code do to an idle keyboard.
pub record Decodes (crates : Crates) (keys : List Key) (k : Set1Key) : Type 0 where
  pub make :
      feed crates (idle keys) (prefix_of k ++ last_of k ∷ [])
      ≡ (add_pressed_keycode crates keys (encode k) >>= λ added. returns (idle added.0, added.1))
  pub break :
      feed crates (idle keys) (prefix_of k ++ (last_of k + 128) ∷ [])
      ≡ returns (idle (release crates keys (encode k)), none)

encoded_as :
    (crates : Crates) (buffer : List ℕ) (k : Set1Key)
    → Documented crates
    → from_le_bytes buffer ≡ set_1 k
    → encoded crates buffer ≡ encode k
encoded_as crates buffer k docs e = rw (e, docs.known k) refl

single-Decodes :
    (crates : Crates) (keys : List Key) (k : Set1Key)
    → Documented crates
    → set_1 k < 96
    → Decodes crates keys k
unfolding feed
single-Decodes crates keys k docs h =
    let short : ltb (set_1 k) 256 ≡ true = ground arith in
    let inside : 0 < 8 = omega arith in
    let code = encoded_as crates (set_1 k ∷ replicate 7 0) k docs (omega arith) in
    record {
      make = rw (short, step_make crates (idle keys) inside (set_1 k) (omega arith), code) refl;
      break =
          rw
            (
              short,
              step_break crates (idle keys) inside (set_1 k) (omega arith) (omega arith),
              code,
            )
            refl;
    }

prefixed-Decodes :
    (crates : Crates) (keys : List Key) (k : Set1Key) (c : ℕ)
    → Documented crates
    → c < 96
    → set_1 k ≡ 224 + 256 * c
    → Decodes crates keys k
unfolding feed
prefixed-Decodes crates keys k c docs h e =
    let long : ltb (set_1 k) 256 ≡ false = ground arith in
    let last : set_1 k / 256 ≡ c = omega arith in
    let again : 1 < 8 = omega arith in
    let waiting : Keyboard = record (idle keys) {
      current_unencoded_key = 0xE0 ∷ replicate 7 0;
      latest_unencoded_byte = 1;
    } in
    let code = encoded_as crates (0xE0 ∷ c ∷ replicate 6 0) k docs (omega arith) in
    record {
      make = rw (long, last) (step_make crates waiting again c (omega arith) ∙ rw code refl);
      break =
          rw (long, last)
            (step_break crates waiting again c (omega arith) (omega arith) ∙ rw code refl);
    }

-- With crates that do what is documented, on an idle keyboard, the bytes of a key's make code press the key that the scan code names, those
-- of its break code release it, and the keyboard is idle again. This holds for each key except
-- `PrintScr`.
pub feed-Decodes :
    (crates : Crates) (keys : List Key) (k : Set1Key)
    → Documented crates
    → k ≢ Set1.print_scr
    → Decodes crates keys k
feed-Decodes crates keys k docs ne = elim (shape k) [
  | single h ↦ single-Decodes crates keys k docs h
  | prefixed c h e ↦ prefixed-Decodes crates keys k c docs h e
  | four e ↦ absurd (ne e)
]
