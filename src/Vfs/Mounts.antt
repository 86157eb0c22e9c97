-- ===== src/Vfs/Mounts.antt =====
-- `VFS` of kernel/src/drivers/vfs/mod.rs: the mounted drives, and the calls that go to the file
-- system of a path's drive. `RamFS` is the only file system that is ever mounted.
use navi_os.Base.{
  ℕ, Bool, false, not, Option, none, some, List, [], ◌∷◌, ◌==◌, if◌then◌else◌, bytes_eq, bytes_lt,
}
use navi_os.Vfs.{
  Name, VfsPath, FsResult, ok, err, panic, ◌>>=◌, ok_or, unwrap, invaild_drive,
  no_such_a_file_or_directory, not_a_directory, split_path, FileDescriptor,
}
use navi_os.Vfs.Inode
use navi_os.Vfs.RamFs
use navi_os.Vfs.RamFs.{RamFs}

pub record Vfs : Type 0 where
  pub drivers : List (Name × RamFs)

pub new : Vfs
new = record { drivers = [] }

-- The operations of the map of drives, by keys in order.
unfoldable pub driver : Name → List (Name × RamFs) → Option RamFs
driver k [] = none
driver k ((j, fs) ∷ rest) = if bytes_eq j k then some fs else driver k rest

unfoldable pub set_driver : Name → RamFs → List (Name × RamFs) → List (Name × RamFs)
set_driver k fs [] = (k, fs) ∷ []
set_driver k fs ((j, old) ∷ rest) =
    if bytes_eq j k
    then (j, fs) ∷ rest
    else if bytes_lt k j
    then (k, fs) ∷ (j, old) ∷ rest
    else (j, old) ∷ set_driver k fs rest

unfoldable pub remove_driver : Name → List (Name × RamFs) → List (Name × RamFs)
remove_driver k [] = []
remove_driver k ((j, fs) ∷ rest) = if bytes_eq j k then rest else (j, fs) ∷ remove_driver k rest

-- `none` is the error of `mount` and of `umount`.
unfoldable pub mount : Vfs → Name → RamFs → Option Vfs
unfolding driver set_driver
mount vfs name value = elim (driver name vfs.drivers) [
  | some fs ↦ none
  | none ↦ some (record { drivers = set_driver name value vfs.drivers })
]

unfoldable pub umount : Vfs → Name → Option Vfs
unfolding driver remove_driver
umount vfs name = elim (driver name vfs.drivers) [
  | some fs ↦ some (record { drivers = remove_driver name vfs.drivers })
  | none ↦ none
]

-- A name without a `:` at its end.
unfoldable pub strip_colon : Name → Name
strip_colon [] = []
strip_colon (c ∷ []) = if c == b':' then [] else c ∷ []
strip_colon (c ∷ d ∷ cs) = c ∷ strip_colon (d ∷ cs)

unfoldable pub ends_with_colon : Name → Bool
ends_with_colon [] = false
ends_with_colon (c ∷ []) = c == b':'
ends_with_colon (c ∷ d ∷ cs) = ends_with_colon (d ∷ cs)

unfoldable pub get_with_name : Vfs → Name → Option RamFs
unfolding driver strip_colon
get_with_name vfs name = driver (strip_colon name) vfs.drivers

abbrev pub first_of_parts : List Name → Option Name
first_of_parts [] = none
first_of_parts (part ∷ parts) = some part

-- The name of the drive and its file system, if there is one.
unfoldable pub get_from_path : Vfs → VfsPath → FsResult (Option (Name × RamFs))
unfolding split_path ends_with_colon strip_colon get_with_name
get_from_path vfs path = do
  drive ← ok_or (first_of_parts (split_path path)) invaild_drive
  if not (ends_with_colon drive)
      then err invaild_drive
      else ok
          (elim (get_with_name vfs drive) [ none ↦ none | some fs ↦ some (strip_colon drive, fs) ])

-- What follows the first `:`.
unfoldable pub mountpoint_path : VfsPath → FsResult VfsPath
mountpoint_path [] = panic
mountpoint_path (c ∷ cs) = if c == b':' then ok cs else mountpoint_path cs

abbrev mountpoint : Vfs → VfsPath → FsResult (Name × RamFs)
mountpoint vfs path = get_from_path vfs path >>= λ found. ok_or found no_such_a_file_or_directory

unfoldable pub verify_path_dir : Vfs → VfsPath → FsResult (Unit {0})
unfolding get_from_path RamFs.reslove_path Inode.at
verify_path_dir vfs path = do
  drive ← mountpoint vfs path
  res ← RamFs.reslove_path drive.1 path
  node ← unwrap (Inode.at res drive.1.root_inode)
  if RamFs.is_directory (Inode.inode_type node) then ok tt else err not_a_directory

unfoldable pub open_file : Vfs → VfsPath → FsResult FileDescriptor
unfolding get_from_path mountpoint_path RamFs.open_file
open_file vfs path = do
  drive ← mountpoint vfs path
  inner ← mountpoint_path path
  RamFs.open_file drive.0 drive.1 inner

-- The descriptor's raw pointer leads to the file system that it was opened on.
abbrev opened_on : Vfs → FileDescriptor → FsResult RamFs
opened_on vfs fd = unwrap (driver fd.mountpoint vfs.drivers)

unfoldable pub read : Vfs → FileDescriptor → List ℕ → FsResult (ℕ × FileDescriptor × List ℕ)
unfolding driver RamFs.read
read vfs fd buffer = opened_on vfs fd >>= λ fs. RamFs.read fs fd buffer

unfoldable pub readdir : Vfs → FileDescriptor → FsResult (List FileDescriptor)
unfolding driver RamFs.readdir
readdir vfs fd = opened_on vfs fd >>= λ fs. RamFs.readdir fs fd

abbrev update : Vfs → Name → RamFs → Vfs
update vfs name fs = record { drivers = set_driver name fs vfs.drivers }

unfoldable pub write : Vfs → FileDescriptor → List ℕ → FsResult (Vfs × FileDescriptor)
unfolding driver set_driver RamFs.write
write vfs fd buffer = do
  fs ← opened_on vfs fd
  written ← RamFs.write fs fd buffer
  ok (update vfs fd.mountpoint written.0, written.1)

unfoldable pub create : Vfs → VfsPath → Name → FsResult Vfs
unfolding get_from_path set_driver RamFs.create
create vfs path name = do
  drive ← mountpoint vfs path
  fs ← RamFs.create drive.1 path name
  ok (update vfs drive.0 fs)

unfoldable pub createdir : Vfs → VfsPath → Name → FsResult Vfs
unfolding get_from_path set_driver RamFs.createdir
createdir vfs path name = do
  drive ← mountpoint vfs path
  fs ← RamFs.createdir drive.1 path name
  ok (update vfs drive.0 fs)

pub close : Vfs → FileDescriptor → FsResult (Unit {0})
unfolding RamFs.close
close vfs fd = opened_on vfs fd >>= λ fs. RamFs.close fs fd
