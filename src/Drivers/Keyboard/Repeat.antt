-- ===== src/Drivers/Keyboard/Repeat.antt =====
-- Keys that are pressed more than once: the repeats of a key that is held, and the caps lock.
use navi_os.Base.{
  ◌<◌, ◌≡◌, refl, ◌∙◌, ap, true, false, ◌&&◌, none, some, List, [], ◌∷◌, ◌++◌, returns, length,
  remove_at, arith, Bool-cases, Option-cases, inl, inr,
}
use navi_os.Drivers.Keyboard.Codes
use navi_os.Drivers.Keyboard.Codes.{KeyCode, same_code}
use navi_os.Drivers.Keyboard.Held.{remove_pressed-eq}
use navi_os.Drivers.Keyboard.{
  Key, Crates, Documented, max_keys, is_pressed, get_pressed_key_flags, index_of, process_keycode,
  push_or_replace, add_pressed_keycode,
}

index_of-snoc :
    (keys : List Key) (key : Key) (code : KeyCode)
    → same_code key.code code ≡ true
    → index_of keys code ≡ none
    → index_of (keys ++ key ∷ []) code ≡ some (length keys)
unfolding index_of
index_of-snoc [] key code s e = rw s refl
index_of-snoc (k ∷ keys) key code s e = elim (Bool-cases (same_code k.code code)) [
  | inl here ↦ ground (arith, rw here at e)
  | inr not_here ↦ elim (Option-cases (index_of keys code)) [
    | inl n ↦ rw (not_here, index_of-snoc keys key code s n) refl
    | inr (j, f) ↦ ground (arith, rw (not_here, f) at e)
  ]
]

is_pressed-snoc :
    (keys : List Key) (key : Key) (code : KeyCode)
    → same_code key.code code ≡ true
    → is_pressed (keys ++ key ∷ []) code ≡ true
unfolding is_pressed get_pressed_key_flags
is_pressed-snoc [] key code s = rw s refl
is_pressed-snoc (k ∷ keys) key code s = elim (Bool-cases (same_code k.code code)) [
  | inl here ↦ rw here refl
  | inr not_here ↦ rw not_here (is_pressed-snoc keys key code s)
]

is_pressed-none :
    (keys : List Key) (code : KeyCode) → index_of keys code ≡ none → is_pressed keys code ≡ false
unfolding is_pressed get_pressed_key_flags index_of
is_pressed-none [] code e = refl
is_pressed-none (k ∷ keys) code e = elim (Bool-cases (same_code k.code code)) [
  | inl here ↦ ground (arith, rw here at e)
  | inr not_here ↦ elim (Option-cases (index_of keys code)) [
    | inl n ↦ rw not_here (is_pressed-none keys code n)
    | inr (j, f) ↦ ground (arith, rw (not_here, f) at e)
  ]
]

remove_at-last : (keys : List Key) (key : Key) → remove_at (length keys) (keys ++ key ∷ []) ≡ keys
remove_at-last [] key = refl
remove_at-last (k ∷ keys) key = ap (◌∷◌ k) (remove_at-last keys key)

-- Pressing an ordinary key adds it at the end.
add_ordinary :
    (crates : Crates) (keys : List Key) (code : KeyCode)
    → Documented crates
    → same_code code Codes.null ≡ false
    → (same_code code Codes.caps_lock && is_pressed keys code) ≡ false
    → length keys < max_keys
    → add_pressed_keycode crates keys code
      ≡ returns (keys ++ process_keycode keys code ∷ [], some (process_keycode keys code))
unfolding add_pressed_keycode
add_ordinary crates keys code docs n c h =
    rw (n, add_pressed_keycode, c, push_or_replace, docs.room keys (process_keycode keys code) h)
      refl

abbrev pressed_twice : List Key → KeyCode → List Key
pressed_twice keys code =
    let once = keys ++ process_keycode keys code ∷ [] in once ++ process_keycode once code ∷ []

-- With crates that do what is documented, the caps lock is a switch: while it is off and there is room for a key, the first press adds it
-- and reports it, and the second one takes it out again and reports nothing.
pub caps_lock-toggle :
    (crates : Crates) (keys : List Key)
    → Documented crates
    → index_of keys Codes.caps_lock ≡ none
    → length keys < max_keys
    → (key : Key) × (add_pressed_keycode crates keys Codes.caps_lock
        ≡ returns (keys ++ key ∷ [], some key))
      × (add_pressed_keycode crates (keys ++ key ∷ []) Codes.caps_lock ≡ returns (keys, none))
unfolding add_pressed_keycode process_keycode
caps_lock-toggle crates keys docs e h =
    let key = process_keycode keys Codes.caps_lock in
    let removed =
      remove_pressed-eq crates (keys ++ key ∷ []) Codes.caps_lock (length keys) docs refl
        (index_of-snoc keys key Codes.caps_lock refl e)
      ∙ remove_at-last keys key in
    (
      key,
      add_ordinary crates keys Codes.caps_lock docs refl (is_pressed-none keys Codes.caps_lock e) h,
      rw (is_pressed-snoc keys key Codes.caps_lock refl, removed) refl,
    )
