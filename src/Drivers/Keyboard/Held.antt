-- ===== src/Drivers/Keyboard/Held.antt =====
-- The keys that are held: `add_pressed_keycode` and `remove_pressed_keycode`.
use navi_os.Base.{
  ℕ, zero, suc, ◌<◌, ◌≤◌, ◌≡◌, refl, ap, false, ◌&&◌, Option, none, some, List, [], ◌∷◌, ◌++◌, ltb,
  returns, length, All, remove_at, arith, length-remove_at, length-append, Bool-cases, Option-cases,
  inl, inr,
}
use navi_os.Drivers.Keyboard.Codes
use navi_os.Drivers.Keyboard.Codes.{KeyCode, same_code, same_code_refl}
use navi_os.Drivers.Keyboard.{
  Key, Crates, Documented, max_keys, is_pressed, index_of, process_keycode, replace_last,
  push_or_replace, add_pressed_keycode, remove_pressed_keycode, release,
}

abbrev pub NotPrintScr : Key → Type 0
NotPrintScr key = same_code key.code Codes.print_scr ≡ false

-- The vector is within its capacity, and `PrintScr` is not in it.
pub record IsHeld (keys : List Key) : Type 0 where
  pub size : length keys ≤ max_keys
  pub never : All NotPrintScr keys

All-snoc :
    (keys : List Key) (key : Key)
    → All NotPrintScr keys
    → NotPrintScr key
    → All NotPrintScr (keys ++ key ∷ [])
All-snoc [] key h p = (p, tt)
All-snoc (k ∷ keys) key h p = (h.0, All-snoc keys key h.1 p)

All-remove_at :
    (i : ℕ) (keys : List Key) → All NotPrintScr keys → All NotPrintScr (remove_at i keys)
All-remove_at i [] h = tt
All-remove_at zero (k ∷ keys) h = h.1
All-remove_at (suc i) (k ∷ keys) h = (h.0, All-remove_at i keys h.1)

pub index_of-lt :
    (keys : List Key) (code : KeyCode) (i : ℕ) → index_of keys code ≡ some i → i < length keys
unfolding index_of
index_of-lt [] code i e = ground arith
index_of-lt (k ∷ keys) code i e = elim (Bool-cases (same_code k.code code)) [
  | inl here ↦ ground (arith, rw here at e)
  | inr not_here ↦ elim (Option-cases (index_of keys code)) [
    | inl n ↦ ground (arith, rw (not_here, n) at e)
    | inr (j, f) ↦ ground (arith, index_of-lt keys code j f, rw (not_here, f) at e)
  ]
]

-- Releasing a key takes out the first one with its code, if there is one.
pub remove_pressed-eq :
    (crates : Crates) (keys : List Key) (code : KeyCode) (i : ℕ)
    → Documented crates
    → same_code code Codes.null ≡ false
    → index_of keys code ≡ some i
    → remove_pressed_keycode crates keys code ≡ remove_at i keys
unfolding remove_pressed_keycode
remove_pressed-eq crates keys code i docs n e =
    rw (n, remove_pressed_keycode, e) (docs.removed keys i (index_of-lt keys code i e))

pub remove-IsHeld :
    (crates : Crates) (keys : List Key) (code : KeyCode)
    → Documented crates
    → IsHeld keys
    → IsHeld (remove_pressed_keycode crates keys code)
unfolding remove_pressed_keycode
remove-IsHeld crates keys code docs h = elim (Bool-cases (same_code code Codes.null)) [
  | inl n ↦ rw (n, remove_pressed_keycode) h
  | inr n ↦ elim (Option-cases (index_of keys code)) [
    | inl e ↦ rw (n, remove_pressed_keycode, e) h
    | inr (i, e) ↦
        let lt = index_of-lt keys code i e in
        rw (remove_pressed-eq crates keys code i docs n e) (record {
          size = omega (arith, length-remove_at i keys lt, h.size);
          never = All-remove_at i keys h.never;
        })
  ]
]

pub release-IsHeld :
    (crates : Crates) (keys : List Key) (code : KeyCode)
    → Documented crates
    → IsHeld keys
    → IsHeld (release crates keys code)
release-IsHeld crates keys code docs h = elim (Bool-cases (same_code code Codes.caps_lock)) [
  | inl c ↦ rw c h
  | inr c ↦ rw c (remove-IsHeld crates keys code docs h)
]

-- The last key of a vector that is not empty is replaced.
replace_last-All :
    (keys : List Key) (key : Key)
    → 0 < length keys
    → All NotPrintScr keys
    → NotPrintScr key
    → (keys' : List Key) × (replace_last keys key ≡ returns keys')
      × (length keys' ≡ length keys)
      × All NotPrintScr keys'
replace_last-All [] key h a p = absurd (omega arith)
replace_last-All (k ∷ []) key h a p = (key ∷ [], refl, refl, (p, tt))
replace_last-All (k ∷ j ∷ keys) key h a p =
    let (rest, e, size, all) = replace_last-All (j ∷ keys) key (omega arith) a.1 p in
    (k ∷ rest, rw e refl, ap suc size, (a.0, all))

pub push-IsHeld :
    (crates : Crates) (keys : List Key) (key : Key)
    → Documented crates
    → IsHeld keys
    → NotPrintScr key
    → (keys' : List Key) × (push_or_replace crates keys key ≡ returns keys') × IsHeld keys'
push-IsHeld crates keys key docs h p = elim (Bool-cases (ltb (length keys) max_keys)) [
  | inl lt ↦ (
    keys ++ key ∷ [],
    rw (push_or_replace, docs.room keys key (ground arith)) refl,
    record {
      size = ground (arith, length-append keys (key ∷ []));
      never = All-snoc keys key h.never p;
    },
  )
  | inr ge ↦
      let (keys', e, size, all) = replace_last-All keys key (ground arith) h.never p in
      (
        keys',
        rw (push_or_replace, docs.full keys key (ground arith)) e,
        record { size = omega (arith, size, h.size); never = all },
      )
]

-- Pressing a key returns, and keeps the invariant.
pub add-IsHeld :
    (crates : Crates) (keys : List Key) (code : KeyCode)
    → Documented crates
    → IsHeld keys
    → same_code code Codes.print_scr ≡ false
    → (added : List Key × Option Key) × (add_pressed_keycode crates keys code ≡ returns added)
      × IsHeld added.0
unfolding add_pressed_keycode process_keycode
add-IsHeld crates keys code docs h p = elim (Bool-cases (same_code code Codes.null)) [
  | inl n ↦ ((keys, none), rw (n, add_pressed_keycode) refl, h)
  | inr n ↦ elim (Bool-cases (same_code code Codes.caps_lock && is_pressed keys code)) [
    | inl c ↦ (
      (remove_pressed_keycode crates keys code, none),
      rw (n, add_pressed_keycode, c) refl,
      remove-IsHeld crates keys code docs h,
    )
    | inr c ↦
        let key = process_keycode keys code in
        let (keys', e, held) = push-IsHeld crates keys key docs h p in
        ((keys', some key), rw (n, add_pressed_keycode, c, e) refl, held)
  ]
]
