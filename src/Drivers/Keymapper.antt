-- ===== src/Drivers/Keymapper.antt =====
-- kernel/src/drivers/keymapper.rs: the characters of the keys. A `char` is its code point.
pub mod Defaults
pub mod Lookup
pub mod MapKey
pub mod Tests
use navi_os.Base.{
  ℕ, zero, suc, ◌+◌, Bool, true, false, Option, none, some, List, [], ◌∷◌, ◌==◌, if◌then◌else◌,
  Outcome, returns, panics, ◌>>=◌, unwrap, get_elem?, set, replicate,
}
use navi_os.Drivers.Keyboard.Codes
use navi_os.Drivers.Keyboard.Codes.{KeyCode, discriminant}
use navi_os.Drivers.Keyboard.{Key}

pub record MappingEntry : Type 0 where
  pub flags : ℕ
  pub result : ℕ

abbrev pub blank_entry : MappingEntry
blank_entry = record { flags = 0; result = 0 }

-- `KeyMapping`: a row of 16 entries for each key code below `LastKey`.
abbrev pub KeyMapping : Type 0
KeyMapping = List (List MappingEntry)

abbrev pub blank_mapping : KeyMapping
blank_mapping = replicate (discriminant Codes.last_key) (replicate 16 blank_entry)

-- `KeyMapping::get`
abbrev pub row_of : KeyMapping → KeyCode → Outcome (List MappingEntry)
row_of mapping index = unwrap (get_elem? mapping (discriminant index))

-- A line of `create_mapping!`.
pub record Line : Type 0 where
  pub code : KeyCode
  pub flags : ℕ
  pub char : ℕ

-- The entry goes to the first place of the row whose character is `'\0'`.
abbrev pub add_entry : List MappingEntry → MappingEntry → Outcome (List MappingEntry)
add_entry [] new = panics
add_entry (entry ∷ row) new =
    if entry.result == 0
    then returns (new ∷ row)
    else (add_entry row new >>= λ row'. returns (entry ∷ row'))

abbrev pub entry_of : Line → MappingEntry
entry_of line = record { flags = line.flags; result = line.char }

abbrev pub add_line : KeyMapping → Line → Outcome KeyMapping
add_line mapping line = do
  row ← row_of mapping line.code
  row' ← add_entry row (entry_of line)
  returns (set mapping (discriminant line.code) row')

unfoldable pub create_mapping : List Line → KeyMapping → Outcome KeyMapping
create_mapping [] mapping = returns mapping
create_mapping (line ∷ lines) mapping =
    add_line mapping line >>= λ mapping'. create_mapping lines mapping'

-- The character of the first entry with the flags.
unfoldable pub find_flags : List MappingEntry → ℕ → ℕ
find_flags [] flags = 0
find_flags (entry ∷ row) flags = if entry.flags == flags then entry.result else find_flags row flags

unfoldable pub map_key : KeyMapping → Key → Outcome ℕ
unfolding find_flags
map_key mapping key = do row ← row_of mapping key.code; returns (find_flags row key.flags)
