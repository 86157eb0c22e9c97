-- ===== src/Drivers/Keyboard.antt =====
-- kernel/src/drivers/keyboard.rs: the bytes of a PS/2 keyboard become key codes, and the keys that
-- are held are kept. The two statics of the scan code and `CURRENT_KEYS` are the state; the call of
-- `__navi_key_pressed` is returned. What the crates `heapless` and `int_enum` do is a parameter.
pub mod Codes
pub mod KeyFlags
pub mod Set1
pub mod Shapes
pub mod Scan
pub mod Held
pub mod Reach
pub mod Repeat
pub mod Table
pub mod Tests
use navi_os.Base.{
  ℕ, zero, suc, ◌+◌, ◌-◌, ◌*◌, ◌<◌, ◌≤◌, ◌≡◌, bit_and, bit_or, Bool, true, false, not, ◌&&◌, Option,
  none, some, List, [], ◌∷◌, ◌++◌, ◌==◌, ltb, if◌then◌else◌, Outcome, returns, panics, ◌>>=◌,
  unwrap, length, get_elem?, set, replicate, remove_at,
}
use navi_os.Drivers.Keyboard.Codes
use navi_os.Drivers.Keyboard.Codes.{KeyCode, discriminant, same_code}
use navi_os.Drivers.Keyboard.KeyFlags
use navi_os.Drivers.Keyboard.Set1
use navi_os.Drivers.Keyboard.Set1.{Set1Key, set_1, encode}

pub record Key : Type 0 where
  pub code : KeyCode
  pub flags : ℕ

abbrev pub max_keys : ℕ
max_keys = 256

-- `try_from` is derived by `int_enum`; `push`, which gives the key back when the vector is full, and
-- `remove` are those of the vector of `heapless`.
pub record Crates : Type 0 where
  pub try_from : ℕ → Option Set1Key
  pub push : List Key → Key → Option (List Key)
  pub remove : List Key → ℕ → List Key

-- What their documentation says.
pub record Documented (crates : Crates) : Type 0 where
  pub known : (k : Set1Key) → crates.try_from (set_1 k) ≡ some k
  pub sound : (n : ℕ) (k : Set1Key) → crates.try_from n ≡ some k → n ≡ set_1 k
  pub room :
      (keys : List Key) (key : Key)
      → length keys < max_keys
      → crates.push keys key ≡ some (keys ++ key ∷ [])
  pub full : (keys : List Key) (key : Key) → max_keys ≤ length keys → crates.push keys key ≡ none
  pub removed :
      (keys : List Key) (i : ℕ) → i < length keys → crates.remove keys i ≡ remove_at i keys

pub record Keyboard : Type 0 where
  pub current_unencoded_key : List ℕ
  pub latest_unencoded_byte : ℕ
  pub current_keys : List Key

-- `__navi_keyboard_get_pressed_key_flags`
unfoldable pub get_pressed_key_flags : List Key → KeyCode → Option ℕ
get_pressed_key_flags [] code = none
get_pressed_key_flags (key ∷ keys) code =
    if same_code key.code code then some key.flags else get_pressed_key_flags keys code

-- `__navi_keyboard_key_is_pressed`
unfoldable pub key_is_pressed : List Key → KeyCode → ℕ → Bool
key_is_pressed [] code flags = false
key_is_pressed (key ∷ keys) code flags =
    if same_code key.code code && key.flags == flags then true else key_is_pressed keys code flags

abbrev is_some {ℓ} : {A : Type ℓ} → Option A → Bool
is_some none = false
is_some (some a) = true

unfoldable pub is_pressed : List Key → KeyCode → Bool
unfolding get_pressed_key_flags
is_pressed keys code = is_some (get_pressed_key_flags keys code)

-- One `if` of `process_keycode`.
abbrev with_flag : List Key → KeyCode → KeyCode → ℕ → ℕ → ℕ
with_flag keys modifier keycode flag flags =
    if is_pressed keys modifier && not (same_code keycode modifier)
    then bit_or flags flag
    else flags

pub process_keycode : List Key → KeyCode → Key
unfolding is_pressed
process_keycode keys keycode = record {
  code = keycode;
  flags = with_flag keys Codes.caps_lock keycode KeyFlags.caps_lock (
      with_flag keys Codes.alt keycode KeyFlags.alt (
        with_flag keys Codes.shift keycode KeyFlags.shift
          (with_flag keys Codes.ctrl keycode KeyFlags.ctrl 0)));
}

-- The index of the first key with the code.
unfoldable pub index_of : List Key → KeyCode → Option ℕ
index_of [] code = none
index_of (key ∷ keys) code =
    if same_code key.code code
    then some 0
    else elim (index_of keys code) [ none ↦ none | some i ↦ some (suc i) ]

unfoldable pub remove_pressed_keycode : Crates → List Key → KeyCode → List Key
unfolding index_of
remove_pressed_keycode crates keys code =
    if same_code code Codes.null
    then keys
    else elim (index_of keys code) [ none ↦ keys | some i ↦ crates.remove keys i ]

-- `*last_mut().unwrap() = key`
abbrev pub replace_last : List Key → Key → Outcome (List Key)
replace_last [] key = panics
replace_last (k ∷ []) key = returns (key ∷ [])
replace_last (k ∷ j ∷ keys) key = replace_last (j ∷ keys) key >>= λ rest. returns (k ∷ rest)

abbrev pub push_or_replace : Crates → List Key → Key → Outcome (List Key)
push_or_replace crates keys key = elim (crates.push keys key) [
  | some keys' ↦ returns keys'
  | none ↦ replace_last keys key
]

-- The keys, and the key that `__navi_key_pressed` is called with.
unfoldable pub add_pressed_keycode : Crates → List Key → KeyCode → Outcome (List Key × Option Key)
unfolding is_pressed remove_pressed_keycode process_keycode
add_pressed_keycode crates keys code =
    if same_code code Codes.null
    then returns (keys, none)
    else if same_code code Codes.caps_lock && is_pressed keys code
    then returns (remove_pressed_keycode crates keys code, none)
    else push_or_replace crates keys (process_keycode keys code) >>= λ keys'.
        returns (keys', some (process_keycode keys code))

abbrev pub release : Crates → List Key → KeyCode → List Key
release crates keys code =
    if same_code code Codes.caps_lock then keys else remove_pressed_keycode crates keys code

-- The state that `reset_unencoded_buffer` leaves.
abbrev pub idle : List Key → Keyboard
idle keys = record {
  current_unencoded_key = replicate 8 0;
  latest_unencoded_byte = 0;
  current_keys = keys;
}

-- `transmute` of the buffer to a `u64`, whose lowest byte comes first.
abbrev pub from_le_bytes : List ℕ → ℕ
from_le_bytes [] = 0
from_le_bytes (b ∷ bs) = b + 256 * from_le_bytes bs

abbrev unwrap_or_null : Option Set1Key → Set1Key
unwrap_or_null none = Set1.null
unwrap_or_null (some k) = k

abbrev pub encoded : Crates → List ℕ → KeyCode
encoded crates buffer = encode (unwrap_or_null (crates.try_from (from_le_bytes buffer)))

abbrev pub write_byte : List ℕ → ℕ → ℕ → Outcome (List ℕ)
write_byte buffer i byte = if ltb i (length buffer) then returns (set buffer i byte) else panics

-- A break code: its key is released.
abbrev pub released : Crates → List Key → List ℕ → Keyboard × Option Key
released crates keys buffer = (idle (release crates keys (encoded crates buffer)), none)

-- A make code: its key is pressed.
abbrev pub made : Crates → List Key → List ℕ → Outcome (Keyboard × Option Key)
made crates keys buffer = do
  added ← add_pressed_keycode crates keys (encoded crates buffer)
  returns (idle added.0, added.1)

-- What follows the prefixes, with the last byte in the buffer. The buffer is reset at the end.
unfoldable pub complete : Crates → List Key → ℕ → List ℕ → Outcome (Keyboard × Option Key)
unfolding add_pressed_keycode remove_pressed_keycode
complete crates keys latest buffer = do
  byte ← unwrap (get_elem? buffer latest)
  if bit_and byte 128 == 128
      then (write_byte buffer latest (byte - 0x80) >>= λ buffer'.
          returns (released crates keys buffer'))
      else made crates keys buffer

unfoldable pub encode_ps2_set_1 : Crates → Keyboard → ℕ → Outcome (Keyboard × Option Key)
unfolding complete
encode_ps2_set_1 crates kb code = do
  buffer ← write_byte kb.current_unencoded_key kb.latest_unencoded_byte code
  if code == 0xE0
      then returns (
        record kb {
          current_unencoded_key = buffer;
          latest_unencoded_byte = kb.latest_unencoded_byte + 1;
        },
        none,
      )
      else complete crates kb.current_keys kb.latest_unencoded_byte buffer
