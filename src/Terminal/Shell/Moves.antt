-- ===== src/Terminal/Shell/Moves.antt =====
-- What the commands of the shell do to the current directory: the commands on screens and processes.
pub mod Files
pub mod Line
use navi_os.Base.{
  ℕ, suc, ◌==◌, ==_iff, ◌&&◌, ◌≡◌, ◌⊎◌, refl, sym, ◌∙◌, ap, arith, Bool, true, false, not,
  Bool-cases, Option-cases, inl, inr, Option, none, some, List, [], ◌∷◌, ◌++◌, if◌then◌else◌,
  replicate, bytes_eq, Outcome, returns, panics, ◌>>=◌,
}
use Prim.Native.String.{String}
use navi_os.Threading
use navi_os.Threading.{Scheduler, Process, trim_trailing_zeros}
use navi_os.Vfs.{
  VfsPath, Name, FsError, FsResult, ok, err, panic, FileDescriptor, is_separator, split_path,
}
use navi_os.Vfs.Mounts
use navi_os.Vfs.Mounts.{Vfs, verify_path_dir}
use navi_os.Terminal.Shell
use navi_os.Terminal.Shell.{
  Shell, Event, Command, Texts, line, text, number, codes, says, usage, echo, help, clear,
  reboot_cmd, shutdown_cmd, process_lines, plist, killed, threat, pkill, pkillall, has_drive,
  get_path,
}
use navi_os.Terminal.Shell.Files.{
  made, make_at, mkdir, touch, expect, node_of, file_lines, ls, ends_with, with_slash, moved, cd,
  fd_size, shown, cat_opened, cat, written, write_opened, write, all_but_last, last_part, join,
}
use navi_os.Terminal.Shell.Dispatch.{Answers, run, names, split_words, process_command, first_word}

-- A path that a shell can be in: it names its drive and ends in a slash.
pub record InDir (path : VfsPath) : Type 0 where
  pub drive : has_drive path ≡ true
  pub slash : ends_with b'/' path ≡ true

-- The shell has moved to a directory that the file systems have, and nothing else has changed.
pub record Moves (s t : Shell) : Type 0 where
  pub path : VfsPath
  pub named : has_drive path ≡ true
  pub verified : verify_path_dir s.vfs path ≡ ok tt
  pub dir : t.current_dir ≡ with_slash path
  pub same_vfs : t.vfs ≡ s.vfs
  pub same_scheduler : t.scheduler ≡ s.scheduler

abbrev pub Goes : Shell → Shell → Type 0
Goes s t = (t.current_dir ≡ s.current_dir) ⊎ Moves s t

abbrev pub After : Shell → Outcome (Shell × List Event) → Type 0
After s panics = Unit
After s (returns (t, events)) = Goes s t

pub After-bind {ℓ} :
    {A : Type ℓ} (s : Shell) (m : Outcome A) (f : A → Outcome (Shell × List Event))
    → ((a : A) → After s (f a))
    → After s (m >>= f)
After-bind s (returns a) f h = h a
After-bind s panics f h = tt

pub After-option {ℓ} :
    {A : Type ℓ} (s : Shell) (m : Option A) (x : Outcome (Shell × List Event))
    (f : A → Outcome (Shell × List Event))
    → After s x
    → ((a : A) → After s (f a))
    → After s (elim m [ none ↦ x | some a ↦ f a ])
After-option s none x f p h = p
After-option s (some a) x f p h = h a

pub usage-After :
    (s : Shell) (args : List (List ℕ)) (message : String) → After s (usage s args message)
usage-After s [] message = tt
usage-After s (name ∷ args) message = inl refl

pub echo-After : (s : Shell) (args : List (List ℕ)) → After s (echo s args)
unfolding echo
echo-After s [] = inl refl
echo-After s (name ∷ []) = inl refl
echo-After s (name ∷ arg ∷ []) = inl refl
echo-After s (name ∷ arg ∷ more ∷ args) = inl refl

pub help-After : (info : List ℕ) (s : Shell) (args : List (List ℕ)) → After s (help info s args)
unfolding help
help-After info s [] = tt
help-After info s (name ∷ []) = inl refl
help-After info s (name ∷ arg ∷ args) = inl refl

pub clear-After :
    (texts : Texts) (answer : List ℕ) (s : Shell) (args : List (List ℕ))
    → After s (clear texts answer s args)
unfolding clear
clear-After texts answer s [] = tt
clear-After texts answer s (name ∷ []) =
    elim (Bool-cases (bytes_eq (texts.to_uppercase answer) (b'Y' ∷ []))) [
      | inl y ↦ rw y (inl refl)
      | inr n ↦ rw n (inl refl)
    ]
clear-After texts answer s (name ∷ arg ∷ args) = inl refl

pub reboot_cmd-After : (s : Shell) (args : List (List ℕ)) → After s (reboot_cmd s args)
unfolding reboot_cmd
reboot_cmd-After s [] = tt
reboot_cmd-After s (name ∷ []) = inl refl
reboot_cmd-After s (name ∷ arg ∷ args) = inl refl

pub shutdown_cmd-After : (s : Shell) (args : List (List ℕ)) → After s (shutdown_cmd s args)
unfolding shutdown_cmd
shutdown_cmd-After s [] = tt
shutdown_cmd-After s (name ∷ []) = inl refl
shutdown_cmd-After s (name ∷ arg ∷ args) = inl refl

pub plist-After : (texts : Texts) (s : Shell) (args : List (List ℕ)) → After s (plist texts s args)
unfolding plist
plist-After texts s [] = tt
plist-After texts s (name ∷ []) =
    After-bind s (process_lines texts s.scheduler.processes) _ (λ lines. inl refl)
plist-After texts s (name ∷ arg ∷ args) = inl refl

killed-After :
    (s : Shell) (before : List Event) (r : Option Scheduler) (message : Event)
    → After s (killed s before r message)
killed-After s before none message = inl refl
killed-After s before (some scheduler) message = inl refl

pub pkill-After : (texts : Texts) (s : Shell) (args : List (List ℕ)) → After s (pkill texts s args)
unfolding pkill
pkill-After texts s [] = tt
pkill-After texts s (name ∷ []) = inl refl
pkill-After texts s (name ∷ arg ∷ []) =
    After-option s (texts.parse_u64 arg) _ _ (inl refl)
      (λ pid. killed-After s (threat pid) (Threading.pkill s.scheduler pid) _)
pkill-After texts s (name ∷ arg ∷ more ∷ args) = inl refl

pub pkillall-After :
    (texts : Texts) (s : Shell) (args : List (List ℕ)) → After s (pkillall texts s args)
unfolding pkillall
pkillall-After texts s [] = tt
pkillall-After texts s (name ∷ []) = inl refl
pkillall-After texts s (name ∷ arg ∷ []) =
    killed-After s [] (Threading.pkillall s.scheduler (texts.as_bytes arg)) _
pkillall-After texts s (name ∷ arg ∷ more ∷ args) = inl refl
