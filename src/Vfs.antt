-- ===== src/Vfs.antt =====
-- kernel/src/drivers/vfs/mod.rs: errors, inodes, paths and file descriptors. A name or a path is
-- the list of its characters. A raw pointer to an inode is the list of the names that lead to it
-- from the root of its file system.
pub mod Inode
pub mod RamFs
pub mod Mounts
pub mod Resolve
pub mod Content
pub mod Files
pub mod Entries
pub mod Drives
pub mod Open
pub mod Slash
pub mod Tests
use navi_os.Base.{
  ℕ, Bool, true, false, Option, none, some, List, [], ◌∷◌, ◌||◌, ◌==◌, if◌then◌else◌, bytes_eq,
}

abbrev pub Name : Type 0
Name = List ℕ

abbrev pub VfsPath : Type 0
VfsPath = List ℕ

abbrev pub Location : Type 0
Location = List Name

pub data FsError : Type 0 where
  operation_not_supported not_a_file not_a_directory no_such_a_file_or_directory : FsError
  invaild_drive invaild_path : FsError

-- `FSResult`, and the panics of the code that computes it.
pub data FsResult {ℓ} (A : Type ℓ) : Type ℓ where
  ok : A → FsResult A
  err : FsError → FsResult A
  panic : FsResult A

infixl 5 ◌>>=◌
abbrev pub ◌>>=◌ {ℓ κ} : {A : Type ℓ} {B : Type κ} → FsResult A → (A → FsResult B) → FsResult B
ok a >>= f = f a
err e >>= f = err e
panic >>= f = panic

abbrev pub ok_or {ℓ} : {A : Type ℓ} → Option A → FsError → FsResult A
ok_or none e = err e
ok_or (some a) e = ok a

abbrev pub unwrap {ℓ} : {A : Type ℓ} → Option A → FsResult A
unwrap none = panic
unwrap (some a) = ok a

pub data InodeType : Type 0 where
  file directory symlink : InodeType

-- `path.split(&['/', '\\'])`: there is always a first part.
abbrev pub is_separator : ℕ → Bool
is_separator c = c == b'/' || c == b'\\'

abbrev pub onto_first : ℕ → List Name → List Name
onto_first c [] = (c ∷ []) ∷ []
onto_first c (part ∷ parts) = (c ∷ part) ∷ parts

unfoldable pub split_path : VfsPath → List Name
split_path [] = [] ∷ []
split_path (c ∷ cs) = if is_separator c then [] ∷ split_path cs else onto_first c (split_path cs)

pub record FileDescriptor : Type 0 where
  pub mountpoint : Name
  pub node : Location
  pub read_pos : ℕ
  pub write_pos : ℕ
