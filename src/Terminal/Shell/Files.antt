-- ===== src/Terminal/Shell/Files.antt =====
-- The commands of kernel/src/terminal/mod.rs on files and directories.
use navi_os.Base.{
  ℕ, ◌==◌, Bool, false, Option, none, some, List, [], ◌∷◌, ◌++◌, replicate, if◌then◌else◌, Outcome,
  returns, panics, ◌>>=◌,
}
use Prim.Native.String.{String}
use navi_os.Vfs.{VfsPath, Name, FsError, FsResult, ok, err, panic, FileDescriptor, split_path}
use navi_os.Vfs
use navi_os.Vfs.Inode
use navi_os.Vfs.Inode.{Inode}
use navi_os.Vfs.Mounts
use navi_os.Vfs.Mounts.{Vfs, driver}
use navi_os.Terminal.Shell.{
  Shell, Command, Event, text, error, Texts, line, says, usage, codes, get_path,
}

-- `pop`, and `join("/")` on what is left.
abbrev pub last_part : List Name → Option Name
last_part [] = none
last_part (part ∷ []) = some part
last_part (part ∷ next ∷ parts) = last_part (next ∷ parts)

abbrev pub all_but_last : List Name → List Name
all_but_last [] = []
all_but_last (part ∷ []) = []
all_but_last (part ∷ next ∷ parts) = part ∷ all_but_last (next ∷ parts)

abbrev pub join : List Name → VfsPath
join [] = []
join (part ∷ []) = part
join (part ∷ next ∷ parts) = part ++ (b'/' ∷ join (next ∷ parts))

-- What `mkdir` and `touch` do with the result of the file system.
abbrev pub made : Shell → Name → VfsPath → FsResult Vfs → Outcome (Shell × List Event)
made s name path (ok vfs) = returns (record s { vfs = vfs }, [])
made s name path (err e) = says s (
    text (codes "failed touching `")
    ∷ text name
    ∷ text (codes "` in ")
    ∷ text path
    ∷ text (codes ", error: ")
    ∷ error e
    ∷ [])
made s name path panic = panics

abbrev pub make_at :
    (VfsPath → Name → FsResult Vfs) → Shell → VfsPath → Outcome (Shell × List Event)
make_at create s path =
    let parts = split_path path in
    let parent = join (all_but_last parts) in
    elim (last_part parts) [ none ↦ panics | some name ↦ made s name parent (create parent name) ]

unfoldable pub mkdir : Command
unfolding get_path split_path
mkdir s (name ∷ arg ∷ []) = make_at (Mounts.createdir s.vfs) s (get_path s arg)
mkdir s args = usage s args ": expected just the new dir path"

unfoldable pub touch : Command
unfolding get_path split_path
touch s (name ∷ arg ∷ []) = make_at (Mounts.create s.vfs) s (get_path s arg)
touch s args = usage s args ": expected just the new file path"

abbrev pub expect {ℓ} : {A : Type ℓ} → FsResult A → Outcome A
expect (ok a) = returns a
expect (err e) = panics
expect panic = panics

-- The inode that a descriptor points to, its name and its size.
abbrev pub node_of : Vfs → FileDescriptor → FsResult Inode
node_of vfs fd =
    Vfs.◌>>=◌ (Vfs.unwrap (driver fd.mountpoint vfs.drivers))
      (λ fs. Vfs.unwrap (Inode.at fd.node fs.root_inode))

abbrev pub fd_size : Vfs → FileDescriptor → FsResult ℕ
fd_size vfs fd = Vfs.◌>>=◌ (node_of vfs fd) (λ node. Inode.size (Inode.ops node))

unfoldable pub file_lines : Vfs → List FileDescriptor → Outcome (List Event)
file_lines vfs [] = returns []
file_lines vfs (file ∷ files) = expect (node_of vfs file) >>= λ node.
    file_lines vfs files >>= λ lines. returns (line (text (Inode.name node) ∷ []) ∷ lines)

unfoldable pub ls : Command
unfolding file_lines
ls s (name ∷ []) = expect (Mounts.open_file s.vfs s.current_dir) >>= λ dir.
    expect (Mounts.readdir s.vfs dir) >>= λ files.
    file_lines s.vfs files >>= λ lines. returns (s, lines)
ls s args = usage s args ": expected 0 args"

abbrev pub ends_with : ℕ → List ℕ → Bool
ends_with c [] = false
ends_with c (d ∷ []) = d == c
ends_with c (d ∷ e ∷ ds) = ends_with c (e ∷ ds)

abbrev pub with_slash : VfsPath → VfsPath
with_slash path = if ends_with b'/' path then path else path ++ b'/' ∷ []

abbrev pub moved : Shell → Name → VfsPath → FsResult (Unit {0}) → Outcome (Shell × List Event)
moved s name path (ok u) = returns (record s { current_dir = with_slash path }, [])
moved s name path (err e) = says s (text name ∷ text (codes ": path error: ") ∷ error e ∷ [])
moved s name path panic = panics

unfoldable pub cd : Command
unfolding get_path
cd s (name ∷ arg ∷ []) =
    let path = get_path s arg in moved s name path (Mounts.verify_path_dir s.vfs path)
cd s args = usage s args ": expected only the target directory."

-- The message of a file that could not be opened or read.
abbrev pub failed : Shell → Name → String → FsError → Outcome (Shell × List Event)
failed s name message e = says s (text name ∷ text (codes message) ∷ error e ∷ [])

abbrev pub shown :
    Shell → Texts → Name → FsResult (ℕ × FileDescriptor × List ℕ) → Outcome (Shell × List Event)
shown s texts name (ok (count, fd, bytes)) = says s (text (texts.from_utf8_unchecked bytes) ∷ [])
shown s texts name (err e) = failed s name ": failed to read file error: " e
shown s texts name panic = panics

abbrev pub cat_opened :
    Shell → Texts → Name → FsResult FileDescriptor → Outcome (Shell × List Event)
cat_opened s texts name (ok opened) = expect (fd_size s.vfs opened) >>= λ size.
    shown s texts name (Mounts.read s.vfs opened (replicate size 0))
cat_opened s texts name (err e) = failed s name ": failed to open file error: " e
cat_opened s texts name panic = panics

unfoldable pub cat : Texts → Command
unfolding get_path
cat texts s (name ∷ arg ∷ []) = cat_opened s texts name (Mounts.open_file s.vfs (get_path s arg))
cat texts s args = usage s args ": expected only the target file"

abbrev pub written : Shell → Name → FsResult (Vfs × FileDescriptor) → Outcome (Shell × List Event)
written s name (ok (vfs, fd)) = returns (record s { vfs = vfs }, [])
written s name (err e) = failed s name ": failed to read file error: " e
written s name panic = panics

abbrev pub write_opened :
    Shell → Name → List ℕ → FsResult FileDescriptor → Outcome (Shell × List Event)
write_opened s name bytes (ok opened) = written s name (Mounts.write s.vfs opened bytes)
write_opened s name bytes (err e) = failed s name ": failed to open file error: " e
write_opened s name bytes panic = panics

unfoldable pub write : Texts → Command
unfolding get_path
write texts s (name ∷ arg ∷ data_text ∷ []) =
    write_opened s name (texts.as_bytes data_text) (Mounts.open_file s.vfs (get_path s arg))
write texts s args = usage s args ": expected the file path then the textual data"
