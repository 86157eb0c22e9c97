-- ===== src/Terminal/Shell.antt =====
-- kernel/src/terminal/mod.rs: the commands of the shell. A text is the list of its characters. What a
-- command prints is kept as the pieces of each call of `print!`, before they are formatted; what it
-- reads is an argument. The conversions of texts by the standard library are those of a `Texts`.
pub mod Files
pub mod Dispatch
pub mod Words
pub mod Moves
pub mod Tests
use Prim.Native.Char.{code}
use Prim.Native.String.{String}
use Prim.Native.String
use navi_os.Base.{
  ℕ, suc, ◌==◌, ◌||◌, ◌&&◌, Bool, true, false, not, Option, none, some, List, [], ◌∷◌, ◌++◌, map,
  length, replicate, if◌then◌else◌, bytes_eq, Outcome, returns, panics, ◌>>=◌,
}
use navi_os.Threading
use navi_os.Threading.{Scheduler, Process, trim_trailing_zeros}
use navi_os.Vfs
use navi_os.Vfs.{VfsPath, Name, FsError, FsResult, FileDescriptor, is_separator, split_path}
use navi_os.Vfs.Inode
use navi_os.Vfs.Mounts
use navi_os.Vfs.Mounts.{Vfs}

abbrev pub codes : String → List ℕ
codes String.[] = []
codes (String.◌∷◌ c s) = code c ∷ codes s

-- `as_bytes`, `from_utf8`, `from_utf8_unchecked`, `to_uppercase` and `parse::<u64>`.
pub record Texts : Type 0 where
  pub as_bytes : List ℕ → List ℕ
  pub from_utf8 : List ℕ → Option (List ℕ)
  pub from_utf8_unchecked : List ℕ → List ℕ
  pub to_uppercase : List ℕ → List ℕ
  pub parse_u64 : List ℕ → Option ℕ

pub data Piece : Type 0 where
  text : List ℕ → Piece
  number : ℕ → Piece
  error : FsError → Piece

-- What a command does outside of the kernel's tables.
pub data Event : Type 0 where
  prints : List Piece → Event
  clears shuts_down reboots : Event

pub record Shell : Type 0 where
  pub current_dir : VfsPath
  pub vfs : Vfs
  pub scheduler : Scheduler

abbrev pub Command : Type 0
Command = Shell → List (List ℕ) → Outcome (Shell × List Event)

abbrev pub line : List Piece → Event
line pieces = prints (pieces ++ text (b'\n' ∷ []) ∷ [])

abbrev pub says : Shell → List Piece → Outcome (Shell × List Event)
says s pieces = returns (s, line pieces ∷ [])

-- The message of a command with the wrong number of arguments, behind the command's name.
abbrev pub usage : Shell → List (List ℕ) → String → Outcome (Shell × List Event)
usage s [] message = panics
usage s (name ∷ args) message = says s (text name ∷ text (codes message) ∷ [])

unfoldable pub echo : Command
echo s (name ∷ arg ∷ []) = says s (text arg ∷ [])
echo s _ = says s (text (codes "echo: expected 1 arg") ∷ [])

-- The text of `help` is left out: it is one constant.
unfoldable pub help : List ℕ → Command
help info s (name ∷ []) = says s (text info ∷ [])
help info s args = usage s args ": expected 0 args"

-- `answer` is the line that is read.
unfoldable pub clear : Texts → List ℕ → Command
clear texts answer s (name ∷ []) =
    let asked = prints (text (codes "you sure? y\\N: ") ∷ []) in
    if bytes_eq (texts.to_uppercase answer) (b'Y' ∷ [])
    then returns (s, asked ∷ clears ∷ [])
    else returns (s, asked ∷ [])
clear texts answer s args = usage s args ": expected 0 args"

unfoldable pub reboot_cmd : Command
reboot_cmd s (name ∷ []) = returns (s, reboots ∷ [])
reboot_cmd s args = usage s args ": expected 0 args"

unfoldable pub shutdown_cmd : Command
shutdown_cmd s (name ∷ []) = returns (s, shuts_down ∷ [])
shutdown_cmd s args = usage s args ": expected 0 args"

-- The lines of the processes. A name that is no text is a panic.
unfoldable pub process_lines : Texts → List Process → Outcome (List Event)
process_lines texts [] = returns []
process_lines texts (p ∷ ps) = elim (texts.from_utf8 (trim_trailing_zeros p.name)) [
  | none ↦ panics
  | some name ↦ process_lines texts ps >>= λ lines.
      returns (line (text name ∷ text (codes ":  ") ∷ number p.pid ∷ []) ∷ lines)
]

unfoldable pub plist : Texts → Command
unfolding process_lines
plist texts s (name ∷ []) =
    let processes = s.scheduler.processes in
    process_lines texts processes >>= λ lines. returns (
      s,
      line (number (length processes) ∷ text (codes " process(s) is currently running:") ∷ [])
          ∷ line (text (codes "name:  pid") ∷ [])
          ∷ lines,
    )
plist texts s args = usage s args ": expected 0 args"

abbrev threat : ℕ → List Event
threat pid =
    if pid == 0
    then line (
        text (
          codes
            "it looks like you are trying to kill us sadly this doesn't work duo to a bug which will never be fixed\nwe will try to do that anyways you monster!")
        ∷ [])
      ∷ []
    else []

abbrev killed : Shell → List Event → Option Scheduler → Event → Outcome (Shell × List Event)
killed s before none message = returns (s, before ++ message ∷ [])
killed s before (some scheduler) message = returns (record s { scheduler = scheduler }, before)

unfoldable pub pkill : Texts → Command
pkill texts s (name ∷ arg ∷ []) = elim (texts.parse_u64 arg) [
  | none ↦ says s (text (codes "couldn't parse pid make sure it is a vaild number...") ∷ [])
  | some pid ↦ killed s (threat pid) (Threading.pkill s.scheduler pid) (
      line (text (codes "couldn't find a process with pid `") ∷ number pid ∷ text (codes "`") ∷ []))
]
pkill texts s args = usage s args ": expected the pid"

unfoldable pub pkillall : Texts → Command
pkillall texts s (name ∷ arg ∷ []) =
    killed s [] (Threading.pkillall s.scheduler (texts.as_bytes arg))
      (line (text (codes "couldn't find a process with name `") ∷ text arg ∷ text (codes "`") ∷ []))
pkillall texts s args = usage s args ": expected the process name"

-- Whether a `:` comes before the first separator.
unfoldable pub has_drive : VfsPath → Bool
has_drive [] = false
has_drive (c ∷ cs) = if is_separator c then false else if c == b':' then true else has_drive cs

unfoldable pub get_path : Shell → VfsPath → VfsPath
unfolding has_drive
get_path s path = if has_drive path then path else s.current_dir ++ path
