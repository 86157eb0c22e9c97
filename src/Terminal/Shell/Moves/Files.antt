-- ===== src/Terminal/Shell/Moves/Files.antt =====
-- What the commands on files and directories do to the current directory.
use navi_os.Base.{
  ℕ, ◌==◌, ◌≡◌, refl, sym, ◌∙◌, true, false, Bool-cases, inl, inr, List, [], ◌∷◌, ◌++◌,
}
use navi_os.Vfs.{VfsPath, Name, FsResult, ok, err, panic, FileDescriptor, is_separator, split_path}
use navi_os.Vfs.Mounts
use navi_os.Vfs.Mounts.{Vfs, verify_path_dir}
use navi_os.Terminal.Shell.{Shell, Texts, has_drive, get_path}
use navi_os.Terminal.Shell.Files.{
  made, make_at, mkdir, touch, expect, file_lines, ls, moved, cd, fd_size, shown, cat_opened, cat,
  written, write_opened, write, last_part,
}
use navi_os.Terminal.Shell.Moves.{InDir, After, After-bind, After-option}

made-After :
    (s : Shell) (name : Name) (path : VfsPath) (r : FsResult Vfs) → After s (made s name path r)
made-After s name path (ok vfs) = inl refl
made-After s name path (err e) = inl refl
made-After s name path panic = tt

make_at-After :
    (create : VfsPath → Name → FsResult Vfs) (s : Shell) (path : VfsPath)
    → After s (make_at create s path)
make_at-After create s path =
    After-option s (last_part (split_path path)) _ _ tt (λ name. made-After s name _ _)

pub mkdir-After : (s : Shell) (args : List (List ℕ)) → After s (mkdir s args)
unfolding mkdir
mkdir-After s [] = tt
mkdir-After s (name ∷ []) = inl refl
mkdir-After s (name ∷ arg ∷ []) = make_at-After (Mounts.createdir s.vfs) s (get_path s arg)
mkdir-After s (name ∷ arg ∷ more ∷ args) = inl refl

pub touch-After : (s : Shell) (args : List (List ℕ)) → After s (touch s args)
unfolding touch
touch-After s [] = tt
touch-After s (name ∷ []) = inl refl
touch-After s (name ∷ arg ∷ []) = make_at-After (Mounts.create s.vfs) s (get_path s arg)
touch-After s (name ∷ arg ∷ more ∷ args) = inl refl

pub ls-After : (s : Shell) (args : List (List ℕ)) → After s (ls s args)
unfolding ls
ls-After s [] = tt
ls-After s (name ∷ []) = After-bind s (expect (Mounts.open_file s.vfs s.current_dir)) _ (λ dir.
    After-bind s (expect (Mounts.readdir s.vfs dir)) _
      (λ files. After-bind s (file_lines s.vfs files) _ (λ lines. inl refl)))
ls-After s (name ∷ arg ∷ args) = inl refl

shown-After :
    (s : Shell) (texts : Texts) (name : Name) (r : FsResult (ℕ × FileDescriptor × List ℕ))
    → After s (shown s texts name r)
shown-After s texts name (ok (count, fd, bytes)) = inl refl
shown-After s texts name (err e) = inl refl
shown-After s texts name panic = tt

cat_opened-After :
    (s : Shell) (texts : Texts) (name : Name) (r : FsResult FileDescriptor)
    → After s (cat_opened s texts name r)
cat_opened-After s texts name (ok opened) =
    After-bind s (expect (fd_size s.vfs opened)) _ (λ size. shown-After s texts name _)
cat_opened-After s texts name (err e) = inl refl
cat_opened-After s texts name panic = tt

pub cat-After : (texts : Texts) (s : Shell) (args : List (List ℕ)) → After s (cat texts s args)
unfolding cat
cat-After texts s [] = tt
cat-After texts s (name ∷ []) = inl refl
cat-After texts s (name ∷ arg ∷ []) = cat_opened-After s texts name _
cat-After texts s (name ∷ arg ∷ more ∷ args) = inl refl

written-After :
    (s : Shell) (name : Name) (r : FsResult (Vfs × FileDescriptor)) → After s (written s name r)
written-After s name (ok (vfs, fd)) = inl refl
written-After s name (err e) = inl refl
written-After s name panic = tt

write_opened-After :
    (s : Shell) (name : Name) (bytes : List ℕ) (r : FsResult FileDescriptor)
    → After s (write_opened s name bytes r)
write_opened-After s name bytes (ok opened) = written-After s name _
write_opened-After s name bytes (err e) = inl refl
write_opened-After s name bytes panic = tt

pub write-After : (texts : Texts) (s : Shell) (args : List (List ℕ)) → After s (write texts s args)
unfolding write
write-After texts s [] = tt
write-After texts s (name ∷ []) = inl refl
write-After texts s (name ∷ arg ∷ []) = inl refl
write-After texts s (name ∷ arg ∷ data_text ∷ []) = write_opened-After s name _ _
write-After texts s (name ∷ arg ∷ data_text ∷ more ∷ args) = inl refl

-- `has_drive` holds of what starts with a path that has a drive.
pub has_drive-append :
    (path more : VfsPath) → has_drive path ≡ true → has_drive (path ++ more) ≡ true
unfolding has_drive
has_drive-append [] more h = cc
has_drive-append (c ∷ cs) more h = elim (Bool-cases (is_separator c)) [
  | inl s ↦ let no : false ≡ true = sym (rw s refl) ∙ h in cc
  | inr s ↦ elim (Bool-cases (c == b':')) [
    | inl e ↦ rw (s, e) refl
    | inr e ↦ rw (s, e) (has_drive-append cs more (sym (rw (s, e) refl) ∙ h))
  ]
]

get_path-has_drive :
    (s : Shell) (path : VfsPath) → InDir s.current_dir → has_drive (get_path s path) ≡ true
unfolding get_path
get_path-has_drive s path d = elim (Bool-cases (has_drive path)) [
  | inl h ↦ rw h h
  | inr h ↦ rw h (has_drive-append s.current_dir path d.drive)
]

moved-After :
    (s : Shell) (name : Name) (path : VfsPath) (r : FsResult (Unit {0}))
    → has_drive path ≡ true
    → verify_path_dir s.vfs path ≡ r
    → After s (moved s name path r)
moved-After s name path (ok tt) h e = inr record {
  path = path;
  named = h;
  verified = e;
  dir = refl;
  same_vfs = refl;
  same_scheduler = refl;
}
moved-After s name path (err x) h e = inl refl
moved-After s name path panic h e = tt

pub cd-After : (s : Shell) (args : List (List ℕ)) → InDir s.current_dir → After s (cd s args)
unfolding cd
cd-After s [] d = tt
cd-After s (name ∷ []) d = inl refl
cd-After s (name ∷ arg ∷ []) d =
    moved-After s name (get_path s arg) _ (get_path-has_drive s arg d) refl
cd-After s (name ∷ arg ∷ more ∷ args) d = inl refl
