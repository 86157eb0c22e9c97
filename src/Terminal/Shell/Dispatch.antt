-- ===== src/Terminal/Shell/Dispatch.antt =====
-- `process_command` of kernel/src/terminal/mod.rs: the words of a line, and the command that they name.
use Prim.Native.String.{String}
use navi_os.Base.{
  ℕ, ◌==◌, ◌&&◌, Bool, true, false, not, List, [], ◌∷◌, if◌then◌else◌, bytes_eq, Outcome, returns,
  panics,
}
use navi_os.Terminal.Shell.{
  Shell, Command, Event, Texts, text, says, codes, echo, help, clear, reboot_cmd, shutdown_cmd,
  plist, pkill, pkillall,
}
use navi_os.Terminal.Shell.Files.{ls, touch, mkdir, cd, cat, write}

-- Whether a string is open behind the character `c`.
abbrev pub quoted : Bool → ℕ → Bool
quoted open_string c =
    if open_string && c == b'"' then false else if c == b'"' then true else open_string

abbrev pub onto_word : ℕ → List (List ℕ) → List (List ℕ)
onto_word c [] = (c ∷ []) ∷ []
onto_word c (word ∷ words) = (c ∷ word) ∷ words

-- The words between the spaces outside of strings, and whether a string is open at the end.
unfoldable pub split_words : Bool → List ℕ → List (List ℕ) × Bool
split_words open_string [] = ([] ∷ [], open_string)
split_words open_string (c ∷ cs) =
    let now = quoted open_string c in
    let rest = split_words now cs in
    if c == 32 && not now then ([] ∷ rest.0, rest.1) else (onto_word c rest.0, rest.1)

-- What the commands take beside their words: the line that `clear` reads, and the text of `help`.
pub record Answers : Type 0 where
  pub texts : Texts
  pub confirm : List ℕ
  pub info : List ℕ

abbrev pub names : List ℕ → String → Bool
names word command = bytes_eq word (codes command)

unfoldable pub run : Answers → List ℕ → Command
unfolding echo help clear reboot_cmd shutdown_cmd plist pkill pkillall ls touch mkdir cd cat write
run a word s words =
    if names word "echo"
    then echo s words
    else if names word "?"
    then help a.info s words
    else if names word "help"
    then help a.info s words
    else if names word "clear"
    then clear a.texts a.confirm s words
    else if names word "reboot"
    then reboot_cmd s words
    else if names word "shutdown"
    then shutdown_cmd s words
    else if names word "plist"
    then plist a.texts s words
    else if names word "pkill"
    then pkill a.texts s words
    else if names word "pkillall"
    then pkillall a.texts s words
    else if names word "ls"
    then ls s words
    else if names word "touch"
    then touch s words
    else if names word "mkdir"
    then mkdir s words
    else if names word "cd"
    then cd s words
    else if names word "cat"
    then cat a.texts s words
    else if names word "write"
    then write a.texts s words
    else if names word ""
    then returns (s, [])
    else says s (text (codes "unknown command ") ∷ text word ∷ [])

abbrev pub first_word : Answers → Shell → List (List ℕ) → Outcome (Shell × List Event)
first_word a s [] = panics
first_word a s (word ∷ words) = run a word s (word ∷ words)

unfoldable pub process_command : Answers → Shell → List ℕ → Outcome (Shell × List Event)
unfolding split_words run
process_command a s command =
    let split = split_words false command in
    if split.1
    then says s (text (codes "unterminated string \" expected") ∷ [])
    else first_word a s (split.0)
