-- ===== src/Vfs/RamFs.antt =====
-- `RamFS` of kernel/src/drivers/vfs/ramfs.rs, with `reslove_path` of the `FS` trait
-- (kernel/src/drivers/vfs/mod.rs). A file system that an operation leaves changed is returned.
use navi_os.Base.{
  ℕ, ◌+◌, ◌-◌, Bool, true, false, List, [], ◌∷◌, ◌++◌, map, length, ltb, not, if◌then◌else◌,
  bytes_eq,
}
use navi_os.Vfs.{
  Name, VfsPath, Location, FsResult, ok, err, panic, ◌>>=◌, unwrap, not_a_directory,
  no_such_a_file_or_directory, invaild_path, InodeType, file, directory, symlink, split_path,
  FileDescriptor,
}
use navi_os.Vfs.Inode
use navi_os.Vfs.Inode.{Inode}

pub record RamFs : Type 0 where
  pub root_inode : Inode

unfoldable pub new : RamFs
unfolding Inode.new_root
new = record { root_inode = Inode.new_root }

abbrev pub is_directory : InodeType → Bool
is_directory file = false
is_directory directory = true
is_directory symlink = false

-- The parts of a path that `reslove_path` tells apart.
pub data Part : Type 0 where
  empty dot dot_dot : Part
  named : Name → Part

unfoldable pub part_of : Name → Part
part_of n =
    if bytes_eq n []
    then empty
    else if bytes_eq n (b'.' ∷ [])
    then dot
    else if bytes_eq n (b'.' ∷ b'.' ∷ [])
    then dot_dot
    else named n

-- One step down from `current`.
unfoldable pub enter : Inode → Location → Name → FsResult Location
unfolding Inode.at Inode.contains Inode.get
enter root current n = do
  node ← unwrap (Inode.at current root)
  if not (is_directory (Inode.inode_type node))
      then err no_such_a_file_or_directory
      else if not (Inode.contains (Inode.ops node) n)
      then err no_such_a_file_or_directory
      else Inode.get (Inode.ops node) n >>= λ child. unwrap child >>= λ _. ok (current ++ n ∷ [])

-- The loop of `reslove_path`. After an empty part nothing may follow.
unfoldable pub reslove_loop : Inode → List Name → Location → Location → FsResult Location
unfolding part_of enter
reslove_loop root [] current prev = ok current
reslove_loop root (depth ∷ rest) current prev = elim (part_of depth) [
  | empty ↦ elim rest [ [] ↦ ok current | _ ∷ _ ↦ err invaild_path ]
  | dot ↦ reslove_loop root rest current prev
  | dot_dot ↦ reslove_loop root rest prev prev
  | named n ↦ enter root current n >>= λ next. reslove_loop root rest next current
]

abbrev pub rest_of : List Name → List Name
rest_of [] = []
rest_of (part ∷ parts) = parts

unfoldable pub reslove_path : RamFs → VfsPath → FsResult Location
unfolding reslove_loop split_path
reslove_path fs path = reslove_loop fs.root_inode (rest_of (split_path path)) [] []

-- `self` is the name under which the file system is mounted.
unfoldable pub open_file : Name → RamFs → VfsPath → FsResult FileDescriptor
unfolding reslove_path
open_file self fs path = do
  found ← reslove_path fs path
  ok (record { mountpoint = self; node = found; read_pos = 0; write_pos = 0 })

-- The number of bytes that a read may return. The subtraction overflows if the position is past
-- the end.
abbrev pub read_count : ℕ → ℕ → ℕ → FsResult ℕ
read_count read_pos len size =
    if ltb size (read_pos + len)
    then (if ltb len (read_pos + len - size) then panic else ok (len - (read_pos + len - size)))
    else ok len

-- Returns the count, the new position and the new contents of the buffer.
unfoldable pub read : RamFs → FileDescriptor → List ℕ → FsResult (ℕ × FileDescriptor × List ℕ)
unfolding Inode.at Inode.size Inode.read
read fs fd buffer = do
  node ← unwrap (Inode.at fd.node fs.root_inode)
  size ← Inode.size (Inode.ops node)
  count ← read_count fd.read_pos (length buffer) size
  buffer' ← Inode.read (Inode.ops node) buffer fd.read_pos count
  ok (count, record fd { read_pos = fd.read_pos + count }, buffer')

unfoldable pub readdir : RamFs → FileDescriptor → FsResult (List FileDescriptor)
unfolding Inode.at Inode.readdir
readdir fs fd = do
  node ← unwrap (Inode.at fd.node fs.root_inode)
  names ← Inode.readdir (Inode.ops node)
  ok (
      map
        (λ n. record {
          mountpoint = fd.mountpoint;
          node = fd.node ++ n ∷ [];
          read_pos = 0;
          write_pos = 0;
        })
        names)

unfoldable pub write : RamFs → FileDescriptor → List ℕ → FsResult (RamFs × FileDescriptor)
unfolding Inode.at Inode.write Inode.replace_at
write fs fd buffer = do
  node ← unwrap (Inode.at fd.node fs.root_inode)
  ops' ← Inode.write (Inode.ops node) buffer fd.write_pos
  ok (
    record { root_inode = Inode.replace_at fd.node ops' fs.root_inode },
    record fd { write_pos = fd.write_pos + length buffer },
  )

-- The body that `create` and `createdir` share: put `node` under its name into the directory.
unfoldable pub insert_at : RamFs → VfsPath → Inode → FsResult RamFs
unfolding reslove_path Inode.at Inode.insert Inode.replace_at
insert_at fs path node = do
  dir ← reslove_path fs path
  resloved ← unwrap (Inode.at dir fs.root_inode)
  if not (is_directory (Inode.inode_type resloved))
      then err not_a_directory
      else Inode.insert (Inode.ops resloved) (Inode.name node) node >>= λ ops'.
          ok (record { root_inode = Inode.replace_at dir ops' fs.root_inode })

unfoldable pub create : RamFs → VfsPath → Name → FsResult RamFs
unfolding insert_at Inode.new_file
create fs path name = insert_at fs path (Inode.new_file name [])

unfoldable pub createdir : RamFs → VfsPath → Name → FsResult RamFs
unfolding insert_at Inode.new_dir
createdir fs path name = insert_at fs path (Inode.new_dir name)

unfoldable pub close : RamFs → FileDescriptor → FsResult (Unit {0})
close fs fd = ok tt
