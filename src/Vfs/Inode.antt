-- ===== src/Vfs/Inode.antt =====
-- `Inode`, and `RamInode` of kernel/src/drivers/vfs/ramfs.rs with its `InodeOps`. A `BTreeMap` is
-- the list of its entries in the order of the keys. Nothing makes a `Symlink`, whose size is a
-- `todo!()`.
use navi_os.Base.{
  ℕ, ◌+◌, ◌-◌, Bool, true, false, Option, none, some, List, [], ◌∷◌, ◌++◌, length, take, drop,
  replicate, ltb, leb, ◌==◌, ◌&&◌, if◌then◌else◌, bytes_eq, bytes_lt,
}
use navi_os.Vfs.{
  Name, Location, FsResult, ok, err, panic, ◌>>=◌, unwrap, not_a_file, not_a_directory, InodeType,
  directory,
}
use navi_os.Vfs

mutual
  pub data Inode : Type 0 where
    inode : Name → InodeType → RamInode → Inode

  pub data RamInode : Type 0 where
    content : List ℕ → RamInode
    children : Entries → RamInode
    link : RamInode

  pub data Entries : Type 0 where
    nil : Entries
    entry : Name → Inode → Entries → Entries

abbrev pub name : Inode → Name
name (inode n t ops) = n

abbrev pub inode_type : Inode → InodeType
inode_type (inode n t ops) = t

abbrev pub ops : Inode → RamInode
ops (inode n t o) = o

-- The operations of the map.
unfoldable pub find : Name → Entries → Option Inode
find k nil = none
find k (entry j node rest) = if bytes_eq j k then some node else find k rest

unfoldable pub put : Name → Inode → Entries → Entries
put k node nil = entry k node nil
put k node (entry j old rest) =
    if bytes_eq j k
    then entry j node rest
    else if bytes_lt k j
    then entry k node (entry j old rest)
    else entry j old (put k node rest)

unfoldable pub keys : Entries → List Name
keys nil = []
keys (entry k node rest) = k ∷ keys rest

unfoldable pub new_file : Name → List ℕ → Inode
new_file n bytes = inode n Vfs.file (content bytes)

unfoldable pub new_dir : Name → Inode
new_dir n = inode n directory (children nil)

unfoldable pub new_root : Inode
new_root = inode [] directory (children nil)

unfoldable pub get : RamInode → Name → FsResult (Option Inode)
unfolding find
get (children tree) n = ok (find n tree)
get (content bytes) n = err not_a_directory
get link n = err not_a_directory

abbrev is_some {ℓ} : {A : Type ℓ} → Option A → Bool
is_some none = false
is_some (some a) = true

unfoldable pub contains : RamInode → Name → Bool
unfolding find
contains (children tree) n = is_some (find n tree)
contains (content bytes) n = false
contains link n = false

unfoldable mutual
  pub size : RamInode → FsResult ℕ
  size (content bytes) = ok (length bytes)
  size (children tree) = total_size tree
  size link = panic

  pub total_size : Entries → FsResult ℕ
  total_size nil = ok 0
  total_size (entry k node rest) = inode_size node >>= λ n. total_size rest >>= λ m. ok (n + m)

  pub inode_size : Inode → FsResult ℕ
  inode_size (inode n t o) = size o

-- `xs[from..to]`, which panics outside of the slice.
abbrev pub slice : List ℕ → ℕ → ℕ → FsResult (List ℕ)
slice xs from to =
    if leb from to && leb to (length xs) then ok (take (to - from) (drop from xs)) else panic

-- `xs[from..to].copy_from_slice(src)`, which panics if the lengths differ.
abbrev pub copy_into : List ℕ → ℕ → ℕ → List ℕ → FsResult (List ℕ)
copy_into xs from to src = do
  part ← slice xs from to
  if length part == length src then ok (take from xs ++ src ++ drop to xs) else panic

-- Returns the new contents of the buffer.
unfoldable pub read : RamInode → List ℕ → ℕ → ℕ → FsResult (List ℕ)
read (content bytes) buffer offset count = do
  src ← slice bytes offset count
  copy_into buffer 0 count src
read (children tree) buffer offset count = err not_a_file
read link buffer offset count = err not_a_file

-- Returns the names of the entries, in the order of the map.
unfoldable pub readdir : RamInode → FsResult (List Name)
unfolding keys
readdir (children tree) = ok (keys tree)
readdir (content bytes) = err not_a_directory
readdir link = err not_a_directory

-- `data.resize(n, 0)` where `data` is shorter.
abbrev pub grow : List ℕ → ℕ → List ℕ
grow bytes n = if ltb (length bytes) n then bytes ++ replicate (n - length bytes) 0 else bytes

unfoldable pub write : RamInode → List ℕ → ℕ → FsResult RamInode
write (content bytes) buffer offset = do
  bytes' ← copy_into (grow bytes (length buffer + offset)) offset (length buffer) buffer
  ok (content bytes')
write (children tree) buffer offset = err not_a_file
write link buffer offset = err not_a_file

unfoldable pub insert : RamInode → Name → Inode → FsResult RamInode
unfolding put
insert (children tree) n node = ok (children (put n node tree))
insert (content bytes) n node = err not_a_directory
insert link n node = err not_a_directory

-- The inode that a location leads to, and the tree with its `ops` replaced.
unfoldable pub at : Location → Inode → Option Inode
unfolding find
at [] node = some node
at (k ∷ ks) (inode n t (children tree)) = elim (find k tree) [
  | none ↦ none
  | some child ↦ at ks child
]
at (k ∷ ks) (inode n t (content bytes)) = none
at (k ∷ ks) (inode n t link) = none

unfoldable pub replace_at : Location → RamInode → Inode → Inode
unfolding find put
replace_at [] o (inode n t old) = inode n t o
replace_at (k ∷ ks) o (inode n t (children tree)) = elim (find k tree) [
  | none ↦ inode n t (children tree)
  | some child ↦ inode n t (children (put k (replace_at ks o child) tree))
]
replace_at (k ∷ ks) o (inode n t (content bytes)) = inode n t (content bytes)
replace_at (k ∷ ks) o (inode n t link) = inode n t link
