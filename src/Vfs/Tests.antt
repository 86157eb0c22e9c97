-- ===== src/Vfs/Tests.antt =====
-- Runs of the file systems on a small tree, and the drive that holds it.
use navi_os.Base.{◌≡◌, refl, [], ◌∷◌, ◌++◌, arith}
use navi_os.Vfs.{
  Name, VfsPath, Location, FsResult, ok, err, panic, directory, FileDescriptor, invaild_path,
  invaild_drive, no_such_a_file_or_directory, not_a_file, split_path,
}
use navi_os.Vfs
use navi_os.Vfs.Inode
use navi_os.Vfs.Inode.{Inode, inode, content, children, nil, entry}
use navi_os.Vfs.RamFs
use navi_os.Vfs.RamFs.{RamFs, reslove_path}
use navi_os.Vfs.Mounts
use navi_os.Vfs.Mounts.{Vfs, mount}
use navi_os.Vfs.Resolve.{Found, reslove_path-Found, reslove_path_up_twice, slash_up}
use navi_os.Vfs.Slash.{reslove_path-slash}
use navi_os.Vfs.Content.{IsFile}
use navi_os.Vfs.Open.{open_file-Opens, Opens}
use navi_os.Vfs.Files.{write-Written, second_write, Written}
use navi_os.Vfs.Entries.{create-Inserts, Inserts}
use navi_os.Vfs.Drives.{mount-MountsAs, MountsAs}

abbrev file_a : Inode
file_a = inode (b'a' ∷ []) Vfs.file (content (1 ∷ 2 ∷ 3 ∷ []))

-- `/d/e/` and `/d/a`, which holds three bytes.
abbrev tree : RamFs
tree = record {
  root_inode = inode [] directory (
      children (
        entry (b'd' ∷ [])
          (inode (b'd' ∷ []) directory (
            children (
              entry (b'a' ∷ []) file_a
                (entry (b'e' ∷ []) (inode (b'e' ∷ []) directory (children nil)) nil))))
          nil));
}

abbrev opened : FileDescriptor
opened = record {
  mountpoint = b'r' ∷ [];
  node = (b'd' ∷ []) ∷ (b'a' ∷ []) ∷ [];
  read_pos = 0;
  write_pos = 0;
}

-- `/d/a`
abbrev path_a : VfsPath
path_a = b'/' ∷ b'd' ∷ b'/' ∷ b'a' ∷ []

-- `/d/e`
abbrev path_e : VfsPath
path_e = b'/' ∷ b'd' ∷ b'/' ∷ b'e' ∷ []

abbrev drives : Vfs
drives = record { drivers = (b'r' ∷ [], tree) ∷ [] }

resolved : reslove_path tree path_a ≡ ok opened.node
unfolding reslove_path
resolved = refl

trailing : reslove_path tree (path_e ++ b'/' ∷ []) ≡ reslove_path tree path_e
unfolding reslove_path
trailing = refl

doubled : reslove_path tree (b'/' ∷ path_e) ≡ err invaild_path
unfolding reslove_path
doubled = refl

up_once : reslove_path tree (path_e ++ slash_up) ≡ ok ((b'd' ∷ []) ∷ [])
unfolding reslove_path
up_once = refl

opened_a : Mounts.open_file drives (b'r' ∷ b':' ∷ path_a) ≡ ok opened
unfolding Mounts.open_file
opened_a = refl

no_drive : Mounts.open_file drives path_a ≡ err invaild_drive
unfolding Mounts.open_file
no_drive = refl

two_read : RamFs.read tree opened (0 ∷ 0 ∷ []) ≡ ok (2, record opened { read_pos = 2 }, 1 ∷ 2 ∷ [])
unfolding RamFs.read
two_read = refl

-- The rest of the file cannot be read.
rest_read : RamFs.read tree (record opened { read_pos = 2 }) (0 ∷ 0 ∷ []) ≡ panic
unfolding RamFs.read
rest_read = refl

tree-IsFile : IsFile tree opened.node (1 ∷ 2 ∷ 3 ∷ [])
unfolding Inode.at
tree-IsFile = record { name = b'a' ∷ []; kind = Vfs.file; at = refl }

write-Written_example :
    (fs' : RamFs) × (fd' : FileDescriptor) × (RamFs.write tree opened (7 ∷ 8 ∷ []) ≡ ok (fs', fd'))
    × Written opened (7 ∷ 8 ∷ []) (7 ∷ 8 ∷ 3 ∷ []) fs' fd'
write-Written_example = write-Written tree opened (1 ∷ 2 ∷ 3 ∷ []) (7 ∷ 8 ∷ []) tree-IsFile refl

abbrev written_tree : RamFs
written_tree = record {
  root_inode = inode [] directory (
      children (
        entry (b'd' ∷ [])
          (inode (b'd' ∷ []) directory (
            children (
              entry (b'a' ∷ []) (inode (b'a' ∷ []) Vfs.file (content (7 ∷ 8 ∷ 3 ∷ [])))
                (entry (b'e' ∷ []) (inode (b'e' ∷ []) directory (children nil)) nil))))
          nil));
}

wrote : RamFs.write tree opened (7 ∷ 8 ∷ []) ≡ ok (written_tree, record opened { write_pos = 2 })
unfolding RamFs.write
wrote = refl

second_write_example : RamFs.write written_tree (record opened { write_pos = 2 }) (9 ∷ []) ≡ panic
second_write_example =
    second_write tree written_tree opened (record opened { write_pos = 2 }) (7 ∷ 8 ∷ []) (9 ∷ [])
      wrote (omega arith)

reslove_path-Found_example : Found tree.root_inode (reslove_path tree path_a)
reslove_path-Found_example = reslove_path-Found tree path_a

reslove_path_up_twice_example :
    reslove_path tree (path_e ++ (slash_up ++ slash_up)) ≡ reslove_path tree (path_e ++ slash_up)
reslove_path_up_twice_example = reslove_path_up_twice tree path_e

create-Inserts_example :
    Inserts tree path_e (Inode.new_file (b'n' ∷ []) []) (RamFs.create tree path_e (b'n' ∷ []))
    × Inserts tree path_e (Inode.new_dir (b'n' ∷ [])) (RamFs.createdir tree path_e (b'n' ∷ []))
create-Inserts_example = create-Inserts tree path_e (b'n' ∷ [])

mount-MountsAs_example : MountsAs drives (b's' ∷ []) tree (mount drives (b's' ∷ []) tree)
mount-MountsAs_example = mount-MountsAs drives (b's' ∷ []) tree

open_file-Opens_example : Opens drives (Mounts.open_file drives (b'r' ∷ b':' ∷ path_a))
open_file-Opens_example = open_file-Opens drives (b'r' ∷ b':' ∷ path_a)

resolved_e : reslove_path tree path_e ≡ ok ((b'd' ∷ []) ∷ (b'e' ∷ []) ∷ [])
unfolding reslove_path
resolved_e = refl

reslove_path-slash_example :
    reslove_path tree (path_e ++ b'/' ∷ []) ≡ ok ((b'd' ∷ []) ∷ (b'e' ∷ []) ∷ [])
reslove_path-slash_example =
    reslove_path-slash tree path_e ((b'd' ∷ []) ∷ (b'e' ∷ []) ∷ []) resolved_e
