-- ===== src/Vfs/Open.antt =====
-- `VFS::open`: the drive of a path, and the path within the drive.
use navi_os.Base.{
  ℕ, ◌≡◌, refl, sym, ◌∙◌, ap, true, false, some, List, [], ◌∷◌, ◌==◌, inl, inr, Bool-cases,
  Option-cases, arith,
}
use navi_os.Vfs.{
  Name, VfsPath, Location, FsResult, ok, err, panic, ◌>>=◌, FileDescriptor, split_path,
  is_separator,
}
use navi_os.Vfs.Inode
use navi_os.Vfs.Inode.{Inode}
use navi_os.Vfs.RamFs
use navi_os.Vfs.RamFs.{RamFs, reslove_path}
use navi_os.Vfs.Mounts
use navi_os.Vfs.Mounts.{Vfs, driver, ends_with_colon, strip_colon, mountpoint_path, get_from_path}
use navi_os.Vfs.Resolve.{Found, IsSplit, split_path-IsSplit, reslove_path-Found}

-- A descriptor at the start of an inode of a mounted file system.
pub record IsOpen (vfs : Vfs) (fd : FileDescriptor) : Type 0 where
  pub fs : RamFs
  pub mounted : driver fd.mountpoint vfs.drivers ≡ some fs
  pub node : Inode
  pub at : Inode.at fd.node fs.root_inode ≡ some node
  pub read_start : fd.read_pos ≡ 0
  pub write_start : fd.write_pos ≡ 0

abbrev pub Opens : Vfs → FsResult FileDescriptor → Type 0
Opens vfs (ok fd) = IsOpen vfs fd
Opens vfs (err e) = Unit {0}
Opens vfs panic = ⊥

pub no_colon : ends_with_colon [] ≡ true → ⊥
unfolding ends_with_colon
no_colon e = ground (arith, e)

pub cons-inj : (c d : Name) (cs ds : List Name) → c ∷ cs ≡ d ∷ ds → c ≡ d
cons-inj c d cs ds e = cc

-- A path whose first part ends in a colon has a colon.
pub mountpoint_path-ok :
    (path : VfsPath) (part : Name) (rest : List Name)
    → split_path path ≡ part ∷ rest
    → ends_with_colon part ≡ true
    → (inner : VfsPath) × (mountpoint_path path ≡ ok inner)
unfolding split_path mountpoint_path IsSplit ends_with_colon
mountpoint_path-ok [] part rest e h =
    absurd (no_colon (ap ends_with_colon (cons-inj [] part [] rest e) ∙ h))
mountpoint_path-ok (c ∷ cs) part rest e h = elim (Bool-cases (c == b':')) [
  | inl colon ↦ (cs, rw colon refl)
  | inr other ↦ elim (Bool-cases (is_separator c)) [
    | inl s ↦ absurd (
        no_colon
          (ap ends_with_colon (cons-inj [] part (split_path cs) rest (sym (rw s refl) ∙ e)) ∙ h))
    | inr s ↦
        let (first, more, f) = split_path-IsSplit cs in
        let whole : c ∷ first ≡ part =
          cons-inj (c ∷ first) part more rest (sym (rw (s, f) refl) ∙ e) in
        let (inner, g) =
          mountpoint_path-ok cs first more f
            (behind c first other (ap ends_with_colon whole ∙ h)) in
        (inner, rw (other, g) refl)
  ]
]
  where
    behind :
        (c : ℕ) (first : Name)
        → (c == b':') ≡ false
        → ends_with_colon (c ∷ first) ≡ true
        → ends_with_colon first ≡ true
    behind c [] other e = ground (arith, other, e)
    behind c (d ∷ ds) other e = e

resolved-Opens :
    (vfs : Vfs) (name : Name) (fs : RamFs) (inner : VfsPath) (r : FsResult Location)
    → driver name vfs.drivers ≡ some fs
    → Found fs.root_inode r
    → Opens vfs (
        r >>= λ found. ok (record { mountpoint = name; node = found; read_pos = 0; write_pos = 0 }))
resolved-Opens vfs name fs inner (ok loc) m (node, at) = record {
  fs = fs;
  mounted = m;
  node = node;
  at = at;
  read_start = refl;
  write_start = refl;
}
resolved-Opens vfs name fs inner (err e) m f = tt
resolved-Opens vfs name fs inner panic m f = f

-- `open` never panics. When it succeeds, the descriptor leads to an inode of a mounted file system
-- and both its positions are 0.
pub open_file-Opens : (vfs : Vfs) (path : VfsPath) → Opens vfs (Mounts.open_file vfs path)
unfolding Mounts.open_file get_from_path RamFs.open_file IsSplit
open_file-Opens vfs path =
    let (part, rest, e) = split_path-IsSplit path in
    elim (Bool-cases (ends_with_colon part)) [
      | inr c ↦ rw (Mounts.open_file, get_from_path, e, c) tt
      | inl c ↦ elim (Option-cases (driver (strip_colon part) vfs.drivers)) [
        | inl d ↦ rw (Mounts.open_file, get_from_path, e, c, d) tt
        | inr (fs, d) ↦
            let (inner, m) = mountpoint_path-ok path part rest e c in
            rw (Mounts.open_file, get_from_path, e, c, d, m)
              (resolved-Opens vfs (strip_colon part) fs inner (reslove_path fs inner) d
                (reslove_path-Found fs inner))
      ]
    ]
