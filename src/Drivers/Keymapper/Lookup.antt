-- ===== src/Drivers/Keymapper/Lookup.antt =====
-- The table that `create_mapping!` builds and the list of its lines give the same characters.
use navi_os.Base.{
  ℕ, zero, suc, ◌<◌, ◌≡◌, refl, sym, ◌∙◌, ap, subst, true, false, ◌&&◌, Option, none, some, List,
  [], ◌∷◌, ◌++◌, ◌==◌, ==_iff, ==_ne, if◌then◌else◌, returns, panics, get_elem?, set, replicate,
  All, arith, Bool-cases, Option-cases, ◌⊎◌, inl, inr, get_elem?-set_self, get_elem?-set_ne,
  lt-length_of_some,
}
use navi_os.Drivers.Keyboard.Codes.{discriminant, same_code}
use navi_os.Drivers.Keyboard.{Key}
use navi_os.Drivers.Keymapper.{
  MappingEntry, blank_entry, KeyMapping, Line, add_entry, entry_of, create_mapping, find_flags,
}

-- The character of the first line with the key's code and flags.
abbrev pub lookup : List Line → Key → Option ℕ
lookup [] key = none
lookup (line ∷ lines) key =
    if same_code line.code key.code && line.flags == key.flags
    then some line.char
    else lookup lines key

abbrev pub or_nul : Option ℕ → ℕ
or_nul none = 0
or_nul (some c) = c

abbrev pub find_used : List MappingEntry → ℕ → Option ℕ
find_used [] flags = none
find_used (entry ∷ row) flags =
    if entry.flags == flags then some entry.result else find_used row flags

abbrev pub or_else : Option ℕ → Option ℕ → Option ℕ
or_else none b = b
or_else (some a) b = some a

abbrev pub Busy : MappingEntry → Type 0
Busy entry = 0 < entry.result

-- A row: entries with a character, then blank ones.
pub record IsRow (row used : List MappingEntry) : Type 0 where
  pub free : ℕ
  pub shape : row ≡ used ++ replicate free blank_entry
  pub busy : All Busy used

find_flags-blank : (n flags : ℕ) → find_flags (replicate n blank_entry) flags ≡ 0
unfolding find_flags
find_flags-blank zero flags = refl
find_flags-blank (suc n) flags = ground (arith, find_flags-blank n flags)

find_flags-used :
    (used : List MappingEntry) (n flags : ℕ)
    → find_flags (used ++ replicate n blank_entry) flags ≡ or_nul (find_used used flags)
unfolding find_flags
find_flags-used [] n flags = find_flags-blank n flags
find_flags-used (entry ∷ used) n flags = elim (Bool-cases (entry.flags == flags)) [
  | inl e ↦ rw e refl
  | inr e ↦ rw e (find_flags-used used n flags)
]

find_used-snoc :
    (used : List MappingEntry) (new : MappingEntry) (flags : ℕ) (rest : Option ℕ)
    → or_else (find_used (used ++ new ∷ []) flags) rest
      ≡ or_else (find_used used flags) (if new.flags == flags then some new.result else rest)
find_used-snoc [] new flags rest = elim (Bool-cases (new.flags == flags)) [
  | inl e ↦ rw e refl
  | inr e ↦ rw e refl
]
find_used-snoc (entry ∷ used) new flags rest = elim (Bool-cases (entry.flags == flags)) [
  | inl e ↦ rw e refl
  | inr e ↦ rw e (find_used-snoc used new flags rest)
]

add_entry-full :
    (used : List MappingEntry) (new : MappingEntry)
    → All Busy used
    → add_entry (used ++ []) new ≡ panics
add_entry-full [] new h = refl
add_entry-full (entry ∷ used) new h =
    let busy : (entry.result == 0) ≡ false = ground (arith, h.0) in
    rw (busy, add_entry-full used new h.1) refl

add_entry-free :
    (used : List MappingEntry) (new : MappingEntry) (n : ℕ)
    → All Busy used
    → add_entry (used ++ replicate (suc n) blank_entry) new
      ≡ returns ((used ++ new ∷ []) ++ replicate n blank_entry)
add_entry-free [] new n h = refl
add_entry-free (entry ∷ used) new n h =
    let busy : (entry.result == 0) ≡ false = ground (arith, h.0) in
    rw (busy, add_entry-free used new n h.1) refl

All-snoc :
    (used : List MappingEntry) (new : MappingEntry)
    → All Busy used
    → Busy new
    → All Busy (used ++ new ∷ [])
All-snoc [] new h b = (b, tt)
All-snoc (entry ∷ used) new h b = (h.0, All-snoc used new h.1 b)

-- A row either takes an entry behind its used ones, or is full.
add_entry-IsRow :
    (row used : List MappingEntry) (new : MappingEntry)
    → IsRow row used
    → Busy new
    → (add_entry row new ≡ panics)
      ⊎ ((row' : List MappingEntry) × (add_entry row new ≡ returns row')
          × IsRow row' (used ++ new ∷ []))
add_entry-IsRow row used new r b = go r.free r.shape
  where
    go :
        (free : ℕ)
        → row ≡ used ++ replicate free blank_entry
        → (add_entry row new ≡ panics)
          ⊎ ((row' : List MappingEntry) × (add_entry row new ≡ returns row')
              × IsRow row' (used ++ new ∷ []))
    go zero e = inl (rw e (add_entry-full used new r.busy))
    go (suc n) e = inr (
      (used ++ new ∷ []) ++ replicate n blank_entry,
      rw e (add_entry-free used new n r.busy),
      record { free = n; shape = refl; busy = All-snoc used new r.busy b },
    )

-- Every row of a mapping is one.
abbrev pub AreRows : KeyMapping → Type 0
AreRows mapping =
    (i : ℕ) (row : List MappingEntry)
    → get_elem? mapping i ≡ some row
    → (used : List MappingEntry) × IsRow row used

-- What the finished table says about a key whose row had the entries `used`.
pub record IsFound (lines : List Line) (mapping' : KeyMapping) (key : Key)
    (used : List MappingEntry) : Type 0 where
  pub row : List MappingEntry
  pub at : get_elem? mapping' (discriminant key.code) ≡ some row
  pub found :
      find_flags row key.flags ≡ or_nul (or_else (find_used used key.flags) (lookup lines key))

panics-ne-returns {ℓ} : {A : Type ℓ} (a : A) → panics ≡ returns a → ⊥
panics-ne-returns a e = cc

set-AreRows :
    (mapping : KeyMapping) (i : ℕ) (old row used : List MappingEntry)
    → AreRows mapping
    → get_elem? mapping i ≡ some old
    → IsRow row used
    → AreRows (set mapping i row)
set-AreRows mapping i old row used rows a r j row' e = elim (Bool-cases (i == j)) [
  | inl same ↦
      let here : i ≡ j = (==_iff i j).0 same in
      let inside = lt-length_of_some mapping i old a in
      let eq : some row ≡ some row' =
        sym (get_elem?-set_self mapping i row inside)
        ∙ ap (get_elem? (set mapping i row)) here
        ∙ e in
      (used, subst (λ r. IsRow r used) (some-inj row row' eq) r)
  | inr ne ↦ rows j row' (sym (get_elem?-set_ne mapping i j row (==_ne i j ne)) ∙ e)
]
  where
    some-inj : (a b : List MappingEntry) → some a ≡ some b → a ≡ b
    some-inj a b e = cc

lookup-eq :
    (line : Line) (lines : List Line) (key : Key) (used : List MappingEntry)
    → (discriminant line.code == discriminant key.code) ≡ true
    → or_else (find_used (used ++ entry_of line ∷ []) key.flags) (lookup lines key)
      ≡ or_else (find_used used key.flags) (lookup (line ∷ lines) key)
lookup-eq line lines key used e =
    find_used-snoc used (entry_of line) key.flags (lookup lines key) ∙ rw e refl

pub create_mapping-IsFound :
    (lines : List Line) (mapping mapping' : KeyMapping) (key : Key) (row used : List MappingEntry)
    → All (λ (line : Line). 0 < line.char) lines
    → AreRows mapping
    → create_mapping lines mapping ≡ returns mapping'
    → get_elem? mapping (discriminant key.code) ≡ some row
    → IsRow row used
    → IsFound lines mapping' key used
unfolding create_mapping
create_mapping-IsFound [] mapping mapping' key row used h rows e a r =
    let same : mapping ≡ mapping' = returns-inj mapping mapping' e in
    record {
      row = row;
      at = ap (λ (m : KeyMapping). get_elem? m (discriminant key.code)) (sym same) ∙ a;
      found =
          ap (λ (es : List MappingEntry). find_flags es key.flags) r.shape
          ∙ find_flags-used used r.free key.flags
          ∙ ap or_nul (or_else_none (find_used used key.flags));
    }
  where
    returns-inj : (a b : KeyMapping) → returns a ≡ returns b → a ≡ b
    returns-inj a b e = cc

    or_else_none : (o : Option ℕ) → o ≡ or_else o none
    or_else_none none = refl
    or_else_none (some c) = refl
create_mapping-IsFound (line ∷ lines) mapping mapping' key row used h rows e a r =
    elim (Option-cases (get_elem? mapping (discriminant line.code))) [
      | inl n ↦ absurd (panics-ne-returns mapping' (rw n at e))
      | inr (old, b) ↦ elim (Bool-cases (discriminant line.code == discriminant key.code)) [
        | inl same ↦
            let here = (==_iff (discriminant line.code) (discriminant key.code)).0 same in
            let mine : get_elem? mapping (discriminant line.code) ≡ some row =
              ap (get_elem? mapping) here ∙ a in
            elim (add_entry-IsRow row used (entry_of line) r h.0) [
              | inl p ↦ absurd (panics-ne-returns mapping' (rw (mine, p) at e))
              | inr (row', p, r') ↦
                  let f =
                    create_mapping-IsFound lines (set mapping (discriminant line.code) row')
                      mapping' key row' (used ++ entry_of line ∷ []) h.1
                      (set-AreRows mapping (discriminant line.code) row row'
                        (used ++ entry_of line ∷ []) rows mine r')
                      (rw (mine, p) at e)
                      (ap (get_elem? (set mapping (discriminant line.code) row')) (sym here)
                        ∙ get_elem?-set_self mapping (discriminant line.code) row'
                            (lt-length_of_some mapping (discriminant line.code) row mine))
                      r' in
                  record {
                    row = f.row;
                    at = f.at;
                    found = f.found ∙ ap or_nul (lookup-eq line lines key used same);
                  }
            ]
        | inr other ↦
            let (olds, o) = rows (discriminant line.code) old b in
            elim (add_entry-IsRow old olds (entry_of line) o h.0) [
              | inl p ↦ absurd (panics-ne-returns mapping' (rw (b, p) at e))
              | inr (old', p, o') ↦
                  let f =
                    create_mapping-IsFound lines (set mapping (discriminant line.code) old')
                      mapping' key row used h.1
                      (set-AreRows mapping (discriminant line.code) old old'
                        (olds ++ entry_of line ∷ []) rows b o')
                      (rw (b, p) at e)
                      (get_elem?-set_ne mapping (discriminant line.code) (discriminant key.code)
                          old' (==_ne (discriminant line.code) (discriminant key.code) other)
                        ∙ a)
                      r in
                  record { row = f.row; at = f.at; found = f.found ∙ rw other refl }
            ]
      ]
    ]
