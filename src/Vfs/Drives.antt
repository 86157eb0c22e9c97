-- ===== src/Vfs/Drives.antt =====
-- The table of drives: what `mount` and `umount` do to the drives that the other calls find.
use navi_os.Base.{
  ◌≡◌, refl, sym, ◌∙◌, false, Option, none, some, List, [], ◌∷◌, inl, inr, if◌then◌else◌,
  Bool-cases, Option-cases, arith, bytes_eq, bytes_lt, bytes_eq_refl, bytes_eq_path,
}
use navi_os.Vfs.{Name}
use navi_os.Vfs.RamFs.{RamFs}
use navi_os.Vfs.Mounts.{Vfs, driver, set_driver, remove_driver, mount, umount}
use navi_os.Vfs.Resolve.{none-ne-some}

abbrev Drives : Type 0
Drives = List (Name × RamFs)

driver-set_driver :
    (k j : Name) (fs : RamFs) (drives : Drives)
    → driver j (set_driver k fs drives) ≡ (if bytes_eq k j then some fs else driver j drives)
unfolding driver set_driver
driver-set_driver k j fs [] = refl
driver-set_driver k j fs ((i, old) ∷ rest) = elim (Bool-cases (bytes_eq i k)) [
  | inl e ↦ let same : i ≡ k = bytes_eq_path i k e in rw e (rw (← same) (ground arith))
  | inr e ↦ elim (Bool-cases (bytes_lt k i)) [
    | inl l ↦ rw (e, l) refl
    | inr l ↦
        rw (e, l, driver-set_driver k j fs rest)
          (elim (Bool-cases (bytes_eq k j)) [
            | inr f ↦ rw f refl
            | inl f ↦ let same : k ≡ j = bytes_eq_path k j f in rw (f, ← same, e) refl
          ])
  ]
]

remove-set_driver :
    (k : Name) (fs : RamFs) (drives : Drives)
    → driver k drives ≡ none
    → remove_driver k (set_driver k fs drives) ≡ drives
unfolding driver set_driver remove_driver
remove-set_driver k fs [] h = rw (bytes_eq_refl k) refl
remove-set_driver k fs ((i, old) ∷ rest) h = elim (Bool-cases (bytes_eq i k)) [
  | inl e ↦ absurd (none-ne-some old (sym h ∙ rw e refl))
  | inr e ↦
      let missing : driver k rest ≡ none = sym (rw e refl) ∙ h in
      elim (Bool-cases (bytes_lt k i)) [
        | inl l ↦ rw (e, l, bytes_eq_refl k) refl
        | inr l ↦ rw (e, l, e, remove-set_driver k fs rest missing) refl
      ]
]

-- What a successful `mount` leaves: the drive's name leads to the file system, every other name
-- leads where it did, the name cannot be mounted again, and `umount` gives back the old table.
pub record Mounted (vfs : Vfs) (name : Name) (fs : RamFs) (vfs' : Vfs) : Type 0 where
  pub here : driver name vfs'.drivers ≡ some fs
  pub others :
      (other : Name)
      → bytes_eq name other ≡ false
      → driver other vfs'.drivers ≡ driver other vfs.drivers
  pub once : (again : RamFs) → mount vfs' name again ≡ none
  pub undone : umount vfs' name ≡ some vfs

-- Mounting fails without a change exactly on a name that is mounted.
abbrev pub MountsAs : Vfs → Name → RamFs → Option Vfs → Type 0
MountsAs vfs name fs none = (old : RamFs) × (driver name vfs.drivers ≡ some old)
MountsAs vfs name fs (some vfs') = (driver name vfs.drivers ≡ none) × Mounted vfs name fs vfs'

added-Mounted :
    (vfs : Vfs) (name : Name) (fs : RamFs)
    → driver name vfs.drivers ≡ none
    → Mounted vfs name fs (record { drivers = set_driver name fs vfs.drivers })
unfolding mount umount
added-Mounted vfs name fs h =
    let here : driver name (set_driver name fs vfs.drivers) ≡ some fs =
      driver-set_driver name name fs vfs.drivers ∙ rw (bytes_eq_refl name) refl in
    record {
      here = here;
      others = λ other e. driver-set_driver name other fs vfs.drivers ∙ rw e refl;
      once = λ again. rw (here, mount) refl;
      undone = rw (here, umount, remove-set_driver name fs vfs.drivers h) refl;
    }

-- `mount` fails exactly when its name is taken; otherwise the name leads to the new file system,
-- the other names lead where they did, a second `mount` of the name fails, and `umount` of it gives
-- back the old table.
pub mount-MountsAs :
    (vfs : Vfs) (name : Name) (fs : RamFs) → MountsAs vfs name fs (mount vfs name fs)
unfolding mount
mount-MountsAs vfs name fs = elim (Option-cases (driver name vfs.drivers)) [
  | inl h ↦ rw (h, mount) (h, added-Mounted vfs name fs h)
  | inr (old, h) ↦ rw (h, mount) (old, h)
]
