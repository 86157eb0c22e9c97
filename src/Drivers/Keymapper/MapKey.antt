-- ===== src/Drivers/Keymapper/MapKey.antt =====
-- `map_key` on `DEFAULT_MAPPING`.
use navi_os.Base.{
  ℕ, zero, suc, ◌<◌, ◌≡◌, refl, ◌∙◌, ap, Bool, true, false, none, some, List, [], ◌∷◌,
  if◌then◌else◌, ltb, Outcome, returns, panics, ◌>>=◌, get_elem?, replicate, All, arith,
}
use navi_os.Drivers.Keyboard.Codes
use navi_os.Drivers.Keyboard.Codes.{discriminant}
use navi_os.Drivers.Keyboard.{Key}
use navi_os.Drivers.Keymapper.{MappingEntry, blank_entry, KeyMapping, blank_mapping, Line, map_key}
use navi_os.Drivers.Keymapper.Defaults.{default_lines, default_mapping}
use navi_os.Drivers.Keymapper.Lookup.{lookup, or_nul, IsRow, create_mapping-IsFound}

abbrev is_returns : Outcome KeyMapping → Bool
is_returns (returns m) = true
is_returns panics = false

returned : (o : Outcome KeyMapping) → is_returns o ≡ true → (m : KeyMapping) × (o ≡ returns m)
returned (returns m) e = (m, refl)
returned panics e = ground (arith, e)

-- No line of the default mapping is refused.
default_mapping-is_returns : is_returns default_mapping ≡ true
unfolding default_mapping
default_mapping-is_returns = refl

abbrev all_chars : List Line → Bool
all_chars [] = true
all_chars (line ∷ lines) = if ltb 0 line.char then all_chars lines else false

chars : (lines : List Line) → all_chars lines ≡ true → All (λ (line : Line). 0 < line.char) lines
chars [] h = tt
chars (line ∷ lines) h = (ground (arith, h), chars lines (ground (arith, h)))

blank-AreRows :
    (n i : ℕ) (row : List MappingEntry)
    → get_elem? (replicate n (replicate 16 blank_entry)) i ≡ some row
    → (used : List MappingEntry) × IsRow row used
blank-AreRows zero i row e = absurd (none-ne-some row e)
  where
    none-ne-some : (row : List MappingEntry) → none ≡ some row → ⊥
    none-ne-some row e = cc
blank-AreRows (suc n) zero row e = ([], record { free = 16; shape = same row e; busy = tt })
  where
    same :
        (row : List MappingEntry)
        → some (replicate 16 blank_entry) ≡ some row
        → row ≡ replicate 16 blank_entry
    same row e = cc
blank-AreRows (suc n) (suc i) row e = blank-AreRows n i row e

blank-row :
    (n i : ℕ)
    → i < n
    → get_elem? (replicate n (replicate 16 blank_entry)) i ≡ some (replicate 16 blank_entry)
blank-row zero i h = absurd (omega arith)
blank-row (suc n) zero h = refl
blank-row (suc n) (suc i) h = blank-row n i (omega arith)

-- For every key but `LastKey`, `map_key` on the default mapping does not panic and returns the
-- character of the first line that has the key's code and flags, or `'\0'` if no line has them.
pub map_key-lookup :
    (key : Key)
    → discriminant key.code < discriminant Codes.last_key
    → (default_mapping >>= λ mapping. map_key mapping key)
      ≡ returns (or_nul (lookup default_lines key))
unfolding map_key default_mapping
map_key-lookup key h =
    let (mapping, e) = returned default_mapping default_mapping-is_returns in
    let f =
      create_mapping-IsFound default_lines blank_mapping mapping key (replicate 16 blank_entry) []
        (chars default_lines refl) (blank-AreRows (discriminant Codes.last_key)) e
        (blank-row (discriminant Codes.last_key) (discriminant key.code) h)
        (record { free = 16; shape = refl; busy = tt }) in
    ap (λ (o : Outcome KeyMapping). o >>= λ m. map_key m key) e
    ∙ rw (map_key, f.at) (ap returns f.found)
