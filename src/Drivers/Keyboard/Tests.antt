-- ===== src/Drivers/Keyboard/Tests.antt =====
-- Runs of the keyboard.
use navi_os.Base.{
  ◌≡◌, ◌≢◌, refl, false, none, some, [], ◌∷◌, ◌++◌, returns, panics, arith, replicate,
}
use navi_os.Drivers.Keyboard.Codes
use navi_os.Drivers.Keyboard.Codes.{KeyCode}
use navi_os.Drivers.Keyboard.Set1
use navi_os.Drivers.Keyboard.Set1.{Set1Key}
use navi_os.Drivers.Keyboard.Table.{crates, crates-Documented, search}
use navi_os.Drivers.Keyboard.{
  Key, idle, encode_ps2_set_1, add_pressed_keycode, index_of, key_is_pressed,
}
use navi_os.Drivers.Keyboard.Scan.{feed, Decodes, feed-Decodes}
use navi_os.Drivers.Keyboard.Reach.{IsValid, Steps, encode_ps2_set_1-Steps}
use navi_os.Drivers.Keyboard.Repeat.{caps_lock-toggle}

abbrev plain : KeyCode → Key
plain code = record { code = code; flags = 0 }

-- Shift is held, then `a` is pressed.
shifted :
    feed crates (idle (plain Codes.shift ∷ [])) (0x1E ∷ [])
    ≡ returns (
      idle (plain Codes.shift ∷ record { code = Codes.key_a; flags = 4 } ∷ []),
      some (record { code = Codes.key_a; flags = 4 }),
    )
unfolding feed search
shifted = refl

-- The release of the right arrow.
arrow : feed crates (idle (plain Codes.right ∷ [])) (0xE0 ∷ 0xCD ∷ []) ≡ returns (idle [], none)
unfolding feed search
arrow = refl

-- The make code of `PrintScr` presses nothing.
print_scr_lost : feed crates (idle []) (0xE0 ∷ 0x2A ∷ 0xE0 ∷ 0x37 ∷ []) ≡ returns (idle [], none)
unfolding feed search
print_scr_lost = refl

-- The ninth byte panics after eight prefixes.
ninth : feed crates (idle []) (replicate 8 0xE0 ++ 0x1E ∷ []) ≡ panics
unfolding feed search
ninth = refl

held_with_flags : key_is_pressed (plain Codes.shift ∷ []) Codes.shift 4 ≡ false
unfolding key_is_pressed
held_with_flags = refl

idle-IsValid : IsValid (idle (plain Codes.shift ∷ []))
idle-IsValid = record {
  position = omega arith;
  waiting = refl;
  held = record { size = omega arith; never = (refl, tt) };
}

right-ne_print_scr : Set1.right ≢ Set1.print_scr
right-ne_print_scr e = cc

feed-Decodes_example : Decodes crates [] Set1.right
feed-Decodes_example = feed-Decodes crates [] Set1.right crates-Documented right-ne_print_scr

encode_ps2_set_1-Steps_example :
    Steps
      (idle (plain Codes.shift ∷ []))
      (encode_ps2_set_1 crates (idle (plain Codes.shift ∷ [])) 0x1E)
encode_ps2_set_1-Steps_example =
    encode_ps2_set_1-Steps crates (idle (plain Codes.shift ∷ [])) 0x1E crates-Documented
      idle-IsValid (omega arith)

caps_lock-toggle_example :
    (key : Key) × (add_pressed_keycode crates (plain Codes.shift ∷ []) Codes.caps_lock
      ≡ returns (plain Codes.shift ∷ key ∷ [], some key))
    × (add_pressed_keycode crates (plain Codes.shift ∷ key ∷ []) Codes.caps_lock
        ≡ returns (plain Codes.shift ∷ [], none))
unfolding index_of
caps_lock-toggle_example =
    caps_lock-toggle crates (plain Codes.shift ∷ []) crates-Documented refl (omega arith)
