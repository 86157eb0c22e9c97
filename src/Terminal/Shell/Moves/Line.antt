-- ===== src/Terminal/Shell/Moves/Line.antt =====
-- What a line of the shell does to the current directory.
use navi_os.Base.{
  ℕ, ◌≡◌, refl, sym, subst, ==_refl, Bool, true, false, Bool-cases, inl, inr, List, [], ◌∷◌, ◌++◌,
  if◌then◌else◌, Outcome, returns,
}
use navi_os.Vfs.{VfsPath}
use navi_os.Terminal.Shell.{Shell, Event, text, codes, says, has_drive}
use navi_os.Terminal.Shell.Files.{ends_with, with_slash}
use navi_os.Terminal.Shell.Dispatch.{Answers, run, names, split_words, process_command, first_word}
use navi_os.Terminal.Shell.Moves.{
  InDir, Goes, After, echo-After, help-After, clear-After, reboot_cmd-After, shutdown_cmd-After,
  plist-After, pkill-After, pkillall-After,
}
use navi_os.Terminal.Shell.Moves.Files.{
  mkdir-After, touch-After, ls-After, cat-After, write-After, cd-After, has_drive-append,
}

After-if :
    (s : Shell) (b : Bool) (x y : Outcome (Shell × List Event))
    → After s x
    → After s y
    → After s (if b then x else y)
After-if s true x y p q = p
After-if s false x y p q = q

run-After :
    (a : Answers) (word : List ℕ) (s : Shell) (args : List (List ℕ))
    → InDir s.current_dir
    → After s (run a word s args)
unfolding run
run-After a word s args d =
    let others : After s (says s (text (codes "unknown command ") ∷ text word ∷ [])) = inl refl in
    After-if s (names word "echo") _ _ (echo-After s args) (
      After-if s (names word "?") _ _ (help-After a.info s args) (
        After-if s (names word "help") _ _ (help-After a.info s args) (
          After-if s (names word "clear") _ _ (clear-After a.texts a.confirm s args) (
            After-if s (names word "reboot") _ _ (reboot_cmd-After s args) (
              After-if s (names word "shutdown") _ _ (shutdown_cmd-After s args) (
                After-if s (names word "plist") _ _ (plist-After a.texts s args) (
                  After-if s (names word "pkill") _ _ (pkill-After a.texts s args) (
                    After-if s (names word "pkillall") _ _ (pkillall-After a.texts s args) (
                      After-if s (names word "ls") _ _ (ls-After s args) (
                        After-if s (names word "touch") _ _ (touch-After s args) (
                          After-if s (names word "mkdir") _ _ (mkdir-After s args) (
                            After-if s (names word "cd") _ _ (cd-After s args d) (
                              After-if s (names word "cat") _ _ (cat-After a.texts s args) (
                                After-if s (names word "write") _ _ (write-After a.texts s args)
                                  (After-if s (names word "") _ _ (inl refl) others)))))))))))))))

process_command-After :
    (a : Answers) (s : Shell) (command : List ℕ)
    → InDir s.current_dir
    → After s (process_command a s command)
unfolding process_command
process_command-After a s command d =
    After-if s ((split_words false command).1) _ _ (inl refl)
      (words-After ((split_words false command).0))
  where
    words-After : (words : List (List ℕ)) → After s (first_word a s words)
    words-After [] = tt
    words-After (word ∷ words) = run-After a word s (word ∷ words) d

ends_with-append : (c d : ℕ) (cs : List ℕ) → ends_with d (cs ++ d ∷ []) ≡ true
ends_with-append c d [] = ==_refl d
ends_with-append c d (e ∷ []) = ==_refl d
ends_with-append c d (e ∷ f ∷ cs) = ends_with-append c d (f ∷ cs)

with_slash-InDir : (path : VfsPath) → has_drive path ≡ true → InDir (with_slash path)
with_slash-InDir path h = elim (Bool-cases (ends_with b'/' path)) [
  | inl e ↦ rw e record { drive = h; slash = e }
  | inr e ↦ rw e record { drive = has_drive-append path _ h; slash = ends_with-append 0 b'/' path }
]

-- What a line of the shell leaves behind.
pub record Leaves (s t : Shell) : Type 0 where
  pub in_dir : InDir t.current_dir
  pub goes : Goes s t

Goes-Leaves : (s t : Shell) → InDir s.current_dir → Goes s t → Leaves s t
Goes-Leaves s t d (inl e) = record { in_dir = subst InDir (sym e) d; goes = inl e }
Goes-Leaves s t d (inr m) = record {
  in_dir = subst InDir (sym m.dir) (with_slash-InDir m.path m.named);
  goes = inr m;
}

-- In a shell whose current directory names its drive and ends in a slash, every line that does not
-- panic leaves a current directory of that form. It is the old one, or the line has changed nothing
-- else, and the new one is a path that the file systems verify as a directory, up to the slash.
pub process_command-Leaves :
    (a : Answers) (s t : Shell) (command : List ℕ) (events : List Event)
    → InDir s.current_dir
    → process_command a s command ≡ returns (t, events)
    → Leaves s t
process_command-Leaves a s t command events d e =
    Goes-Leaves s t d (subst (After s) e (process_command-After a s command d))
