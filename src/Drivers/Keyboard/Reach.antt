-- ===== src/Drivers/Keyboard/Reach.antt =====
-- The states that bytes lead to, and the bytes on which the kernel panics.
use navi_os.Base.{
  ℕ, zero, suc, ◌+◌, ◌-◌, ◌<◌, ◌≤◌, ◌≡◌, ◌≢◌, refl, sym, ◌∙◌, ap, false, Option, List, ◌∷◌, ◌++◌,
  ◌==◌, ltb, Outcome, returns, panics, length, set, replicate, arith, length-append,
  length-replicate, Bool-cases, Option-cases, inl, inr,
}
use navi_os.Drivers.Keyboard.Codes
use navi_os.Drivers.Keyboard.Codes.{KeyCode, same_code}
use navi_os.Drivers.Keyboard.Shapes.{is_print_scr}
use navi_os.Drivers.Keyboard.Scan.{with_byte, step_prefix, step_make, step_break}
use navi_os.Drivers.Keyboard.Held.{IsHeld, add-IsHeld, release-IsHeld}
use navi_os.Drivers.Keyboard.{
  Key, Crates, Documented, Keyboard, release, idle, from_le_bytes, encoded, write_byte,
  encode_ps2_set_1,
}

-- A buffer of `n + m` bytes after `n` prefixes.
abbrev pub prefixes : ℕ → ℕ → List ℕ
prefixes n m = replicate n 0xE0 ++ replicate m 0

-- Only prefixes wait in the buffer, of which the code keeps the position behind the last; the keys
-- are within their capacity and `PrintScr` is not among them.
pub record IsValid (kb : Keyboard) : Type 0 where
  pub position : kb.latest_unencoded_byte ≤ 8
  pub waiting :
      kb.current_unencoded_key ≡ prefixes kb.latest_unencoded_byte (8 - kb.latest_unencoded_byte)
  pub held : IsHeld kb.current_keys

length-prefixes : (n m : ℕ) → length (prefixes n m) ≡ n + m
length-prefixes n m = omega (
  arith,
  length-append {A = ℕ} (replicate n 0xE0) (replicate m 0),
  length-replicate {A = ℕ} n 0xE0,
  length-replicate {A = ℕ} m 0,
)

set-prefixes : (n m : ℕ) → set (prefixes n (suc m)) n 0xE0 ≡ prefixes (suc n) m
set-prefixes zero m = refl
set-prefixes (suc n) m = ap (◌∷◌ 0xE0) (set-prefixes n m)

zeros : (m : ℕ) → from_le_bytes (replicate m 0) ≡ 0
zeros zero = refl
zeros (suc m) = omega (arith, zeros m)

-- No bytes that the machine collects are the scan code of `PrintScr`.
not_print_scr : (n m c : ℕ) → c < 256 → from_le_bytes (set (prefixes n (suc m)) n c) ≢ 0x37E02AE0
not_print_scr zero m c h e = absurd (omega (arith, zeros m, e))
not_print_scr (suc zero) m c h e = absurd (omega (arith, zeros m, e))
not_print_scr (suc (suc n)) m c h e = absurd (omega (arith, e))

encoded-ne_print_scr :
    (crates : Crates) (buffer : List ℕ)
    → Documented crates
    → from_le_bytes buffer ≢ 0x37E02AE0
    → same_code (encoded crates buffer) Codes.print_scr ≡ false
encoded-ne_print_scr crates buffer docs ne =
    elim (Option-cases (crates.try_from (from_le_bytes buffer))) [
      | inl e ↦ rw e refl
      | inr (k, e) ↦ elim (is_print_scr k) [
        | inl p ↦ absurd (ne (docs.sound (from_le_bytes buffer) k e ∙ p))
        | inr p ↦ rw e p
      ]
    ]

idle-IsValid : (keys : List Key) → IsHeld keys → IsValid (idle keys)
idle-IsValid keys h = record { position = omega arith; waiting = refl; held = h }

-- What a byte does: it leads from a state with room for it to a valid one, and panics in a state
-- with eight prefixes.
abbrev pub Steps : Keyboard → Outcome (Keyboard × Option Key) → Type 0
Steps kb (returns r) = (kb.latest_unencoded_byte < 8) × IsValid r.0
Steps kb panics = kb.latest_unencoded_byte ≡ 8

module _ (crates : Crates) (docs : Documented crates) (kb : Keyboard) (v : IsValid kb) where
  length-buffer : length kb.current_unencoded_key ≡ 8
  length-buffer =
      ap length v.waiting
      ∙ omega (
        arith,
        length-prefixes kb.latest_unencoded_byte (8 - kb.latest_unencoded_byte),
        v.position,
      )

  full-Steps :
      (byte : ℕ) → kb.latest_unencoded_byte ≡ 8 → Steps kb (encode_ps2_set_1 crates kb byte)
  unfolding encode_ps2_set_1
  full-Steps byte e =
      let out : write_byte kb.current_unencoded_key kb.latest_unencoded_byte byte ≡ panics =
        ground (arith, length-buffer, e) in
      rw (out, encode_ps2_set_1) e

  module _ (room : kb.latest_unencoded_byte < 8) where
    inside : kb.latest_unencoded_byte < length kb.current_unencoded_key
    inside = omega (arith, length-buffer)

    -- The buffer with the byte at the position, in terms of the number of prefixes.
    buffer-eq :
        (c : ℕ)
        → with_byte crates kb inside c
          ≡ set
              (prefixes kb.latest_unencoded_byte (suc (7 - kb.latest_unencoded_byte)))
              kb.latest_unencoded_byte
              c
    buffer-eq c =
        let split : 8 - kb.latest_unencoded_byte ≡ suc (7 - kb.latest_unencoded_byte) =
          omega arith in
        ap (λ (b : List ℕ). set b kb.latest_unencoded_byte c)
          (v.waiting ∙ ap (prefixes kb.latest_unencoded_byte) split)

    ordinary :
        (c : ℕ)
        → c < 256
        → same_code (encoded crates (with_byte crates kb inside c)) Codes.print_scr ≡ false
    ordinary c h = encoded-ne_print_scr crates (with_byte crates kb inside c) docs (λ e.
        not_print_scr kb.latest_unencoded_byte (7 - kb.latest_unencoded_byte) c h
          (ap from_le_bytes (sym (buffer-eq c)) ∙ e))

    prefix-Steps : Steps kb (encode_ps2_set_1 crates kb 0xE0)
    prefix-Steps =
        let end : 7 - kb.latest_unencoded_byte ≡ 8 - (kb.latest_unencoded_byte + 1) = omega arith in
        let next : suc kb.latest_unencoded_byte ≡ kb.latest_unencoded_byte + 1 = omega arith in
        rw (step_prefix crates kb inside) (
          room,
          record {
            position = omega arith;
            waiting =
                buffer-eq 0xE0
                ∙ set-prefixes kb.latest_unencoded_byte (7 - kb.latest_unencoded_byte)
                ∙ ap (prefixes (suc kb.latest_unencoded_byte)) end
                ∙ ap (λ n. prefixes n (8 - (kb.latest_unencoded_byte + 1))) next;
            held = v.held;
          },
        )

    make-Steps : (c : ℕ) → c < 128 → Steps kb (encode_ps2_set_1 crates kb c)
    make-Steps c h =
        let buffer = with_byte crates kb inside c in
        let (added, e, held) =
          add-IsHeld crates kb.current_keys (encoded crates buffer) docs v.held
            (ordinary c (omega arith)) in
        rw (step_make crates kb inside c h, e) (room, idle-IsValid added.0 held)

    break-Steps : (c : ℕ) → c < 128 → c ≢ 0x60 → Steps kb (encode_ps2_set_1 crates kb (c + 128))
    break-Steps c h ne =
        let buffer = with_byte crates kb inside c in
        rw (step_break crates kb inside c h ne) (
          room,
          idle-IsValid (release crates kb.current_keys (encoded crates buffer))
              (release-IsHeld crates kb.current_keys (encoded crates buffer) docs v.held),
        )

-- With crates that do what is documented, in a valid state every byte either returns a valid state or panics, and it panics exactly when
-- eight prefixes wait. Valid are the states in which only prefixes wait in the buffer, at most 256
-- keys are held and `PrintScr` is none of them.
pub encode_ps2_set_1-Steps :
    (crates : Crates) (kb : Keyboard) (byte : ℕ)
    → Documented crates
    → IsValid kb
    → byte < 256
    → Steps kb (encode_ps2_set_1 crates kb byte)
encode_ps2_set_1-Steps crates kb byte docs v h =
    elim (Bool-cases (ltb kb.latest_unencoded_byte 8)) [
      | inr full ↦ full-Steps crates docs kb v byte (ground (arith, v.position))
      | inl room ↦ elim (Bool-cases (byte == 0xE0)) [
        | inl e ↦
            let here : byte ≡ 0xE0 = ground arith in
            rw here (prefix-Steps crates docs kb v (ground arith))
        | inr e ↦ elim (Bool-cases (ltb byte 128)) [
          | inl low ↦ make-Steps crates docs kb v (ground arith) byte (ground arith)
          | inr high ↦
              let split : byte ≡ (byte - 128) + 128 = ground arith in
              rw split (
                break-Steps crates docs kb v (ground arith) (byte - 128) (ground arith)
                  (ground arith))
        ]
      ]
    ]
