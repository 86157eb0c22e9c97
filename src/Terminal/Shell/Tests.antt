-- ===== src/Terminal/Shell/Tests.antt =====
-- Lines of the shell in a small file system.
use navi_os.Base.{◌≡◌, refl, [], ◌∷◌, false, some, returns, panics}
use navi_os.Vfs.{VfsPath, directory}
use navi_os.Vfs.Inode.{inode, children, nil, entry}
use navi_os.Vfs.RamFs.{RamFs}
use navi_os.Vfs.Mounts
use navi_os.Terminal.Shell.{Shell, Texts, codes, line, text, has_drive}
use navi_os.Terminal.Shell.Dispatch.{Answers, split_words, process_command}
use navi_os.Terminal.Shell.Words.{Splits, split_words-Splits}
use navi_os.Terminal.Shell.Moves.{InDir}
use navi_os.Terminal.Shell.Moves.Line.{Leaves, process_command-Leaves}

-- Texts of plain characters.
abbrev plain : Texts
plain = record {
  as_bytes = λ cs. cs;
  from_utf8 = λ bytes. some bytes;
  from_utf8_unchecked = λ bytes. bytes;
  to_uppercase = λ cs. cs;
  parse_u64 = λ cs. some 0;
}

abbrev answers : Answers
answers = record { texts = plain; confirm = []; info = [] }

-- `/d`
abbrev tree : RamFs
tree = record {
  root_inode =
      inode [] directory
        (children (entry (b'd' ∷ []) (inode (b'd' ∷ []) directory (children nil)) nil));
}

abbrev in_dir : VfsPath → Shell
in_dir path = record {
  current_dir = path;
  vfs = record { drivers = (codes "ram", tree) ∷ [] };
  scheduler = record { processes = []; current_process = 0; next_pid = 0 };
}

abbrev root : Shell
root = in_dir (codes "ram:/")

-- `cd d`
moved_down : process_command answers root (codes "cd d") ≡ returns (in_dir (codes "ram:/d/"), [])
unfolding process_command Mounts.verify_path_dir
moved_down = refl

listed :
    process_command answers root (codes "ls") ≡ returns (root, line (text (codes "d") ∷ []) ∷ [])
unfolding process_command Mounts.open_file Mounts.readdir
listed = refl

strings : (split_words false (codes "echo \"a b\"")).0 ≡ codes "echo" ∷ codes "\"a b\"" ∷ []
unfolding split_words
strings = refl

-- `cd d\`, and `ls` behind it.
moved_backslash :
    process_command answers root (codes "cd d\\") ≡ returns (in_dir (codes "ram:/d\\/"), [])
unfolding process_command Mounts.verify_path_dir
moved_backslash = refl

panicked : process_command answers (in_dir (codes "ram:/d\\/")) (codes "ls") ≡ panics
unfolding process_command Mounts.open_file
panicked = refl

root-InDir : InDir root.current_dir
unfolding has_drive
root-InDir = record { drive = refl; slash = refl }

split_words-Splits_example : Splits (codes "cd d") (split_words false (codes "cd d"))
split_words-Splits_example = split_words-Splits (codes "cd d") refl

process_command-Leaves_example : Leaves root (in_dir (codes "ram:/d/"))
process_command-Leaves_example =
    process_command-Leaves answers root (in_dir (codes "ram:/d/")) (codes "cd d") [] root-InDir
      moved_down
