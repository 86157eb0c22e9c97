-- ===== src/Vfs/Entries.antt =====
-- What `create` and `createdir` of `RamFS` add to a directory.
use navi_os.Base.{◌≡◌, refl, some, [], ◌∷◌, ◌++◌, inl, inr, if◌then◌else◌, Bool-cases, bytes_eq}
use navi_os.Vfs.{Name, VfsPath, Location, InodeType, FsResult, ok, err, panic}
use navi_os.Vfs.Inode
use navi_os.Vfs.Inode.{Inode, RamInode, Entries, inode, content, children, link}
use navi_os.Vfs.RamFs
use navi_os.Vfs.RamFs.{RamFs, is_directory, reslove_path, insert_at}
use navi_os.Vfs.Resolve.{Found, at-snoc, reslove_path-Found}
use navi_os.Vfs.Content.{find-put, find-put_self, at-replace_at}

-- `path` is a directory; its entries are those of before with `node` under its name; and `node`
-- is found there.
pub record Inserted (fs : RamFs) (path : VfsPath) (node : Inode) (fs' : RamFs) : Type 0 where
  pub dir : Location
  pub resolved : reslove_path fs path ≡ ok dir
  pub own_name : Name
  pub kind : InodeType
  pub before : Entries
  pub after : Entries
  pub was : Inode.at dir fs.root_inode ≡ some (inode own_name kind (children before))
  pub is : Inode.at dir fs'.root_inode ≡ some (inode own_name kind (children after))
  pub entries :
      (other : Name)
      → Inode.find other after
        ≡ (if bytes_eq (Inode.name node) other then some node else Inode.find other before)
  pub found : Inode.at (dir ++ Inode.name node ∷ []) fs'.root_inode ≡ some node

abbrev pub Inserts : RamFs → VfsPath → Inode → FsResult RamFs → Type 0
Inserts fs path node (ok fs') = Inserted fs path node fs'
Inserts fs path node (err e) = Unit {0}
Inserts fs path node panic = ⊥

insert-Inserted :
    (fs : RamFs) (path : VfsPath) (node : Inode) (dir : Location) (n : Name) (t : InodeType)
    (tree : Entries)
    → reslove_path fs path ≡ ok dir
    → Inode.at dir fs.root_inode ≡ some (inode n t (children tree))
    → Inserted fs path node (record {
      root_inode =
          Inode.replace_at dir (children (Inode.put (Inode.name node) node tree)) fs.root_inode;
    })
insert-Inserted fs path node dir n t tree e h =
    let new : Entries = Inode.put (Inode.name node) node tree in
    let replaced = at-replace_at dir (children new) fs.root_inode n t (children tree) h in
    record {
      dir = dir;
      resolved = e;
      own_name = n;
      kind = t;
      before = tree;
      after = new;
      was = h;
      is = replaced;
      entries = λ other. find-put (Inode.name node) other node tree;
      found =
          at-snoc dir (Inode.name node) n t (Inode.replace_at dir (children new) fs.root_inode) node
            new replaced (find-put_self (Inode.name node) node tree);
    }

insert_resolved-Inserts :
    (fs : RamFs) (path : VfsPath) (node : Inode) (r : FsResult Location)
    → reslove_path fs path ≡ r
    → Found fs.root_inode r
    → Inserts fs path node (insert_at fs path node)
unfolding insert_at
insert_resolved-Inserts fs path node (ok dir) e (inode n t (children tree), h) =
    elim (Bool-cases (is_directory t)) [
      | inl d ↦ rw (e, insert_at, h, d) (insert-Inserted fs path node dir n t tree e h)
      | inr d ↦ rw (e, insert_at, h, d) tt
    ]
insert_resolved-Inserts fs path node (ok dir) e (inode n t (content bytes), h) =
    elim (Bool-cases (is_directory t)) [
      | inl d ↦ rw (e, insert_at, h, d) tt
      | inr d ↦ rw (e, insert_at, h, d) tt
    ]
insert_resolved-Inserts fs path node (ok dir) e (inode n t link, h) =
    elim (Bool-cases (is_directory t)) [
      | inl d ↦ rw (e, insert_at, h, d) tt
      | inr d ↦ rw (e, insert_at, h, d) tt
    ]
insert_resolved-Inserts fs path node (err x) e found = rw (e, insert_at) tt
insert_resolved-Inserts fs path node panic e found = absurd found

insert_at-Inserts :
    (fs : RamFs) (path : VfsPath) (node : Inode) → Inserts fs path node (insert_at fs path node)
insert_at-Inserts fs path node =
    insert_resolved-Inserts fs path node (reslove_path fs path) refl (reslove_path-Found fs path)

-- `create` never panics. When it succeeds, the path is a directory, which now has an empty file
-- under the name and its other entries as before. `createdir` does the same with an empty directory.
pub create-Inserts :
    (fs : RamFs) (path : VfsPath) (name : Name)
    → Inserts fs path (Inode.new_file name []) (RamFs.create fs path name)
      × Inserts fs path (Inode.new_dir name) (RamFs.createdir fs path name)
unfolding RamFs.create RamFs.createdir
create-Inserts fs path name = (
  insert_at-Inserts fs path (Inode.new_file name []),
  insert_at-Inserts fs path (Inode.new_dir name),
)
