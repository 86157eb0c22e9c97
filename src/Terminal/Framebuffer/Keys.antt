-- ===== src/Terminal/Framebuffer/Keys.antt =====
-- The input and the output of `Terminal` of kernel/src/terminal/framebuffer.rs: characters, keys, and
-- texts with escapes.
use navi_os.Base.{
  ℕ, suc, ◌==◌, Bool, true, false, not, ◌&&◌, Option, none, some, List, [], ◌∷◌, ◌++◌, length, take,
  replicate, bit_or, if◌then◌else◌, Outcome, returns, panics, ◌>>=◌,
}
use navi_os.Drivers.Keyboard.{Key}
use navi_os.Drivers.Keyboard.Codes.{page_up, page_down, key_c}
use navi_os.Drivers.Keyboard.KeyFlags
use navi_os.Drivers.Keymapper.{map_key}
use navi_os.Drivers.Keymapper.Defaults.{default_mapping}
use navi_os.Terminal.Navitts
use navi_os.Terminal.Navitts.{
  Run, NaviTtes, Sequences, none_left, follow, navi_es, navi_ess, plain_slice, owned_slice,
}
use navi_os.Terminal.Navitts.Escapes.{Attributes, default_attributes, from_list, parse_str}
use navi_os.Terminal.Framebuffer.{
  Terminal, TerminalMode, init_mode, stdout, stdin, Color, Rasters, raster, draw_viewport,
  scroll_up, scroll_down, newline, draw_char, remove_char,
}

-- `String::pop`
abbrev pub pop : List ℕ → List ℕ × Option ℕ
pop [] = ([], none)
pop (c ∷ []) = ([], some c)
pop (c ∷ d ∷ cs) = let popped = pop (d ∷ cs) in (c ∷ popped.0, popped.1)

-- Takes back the backspace itself, and the character before it.
unfoldable pub backspace : Rasters → Terminal → Outcome Terminal
unfolding remove_char
backspace rasters t =
    let popped = pop ((pop t.stdin_buffer).0) in
    let next = record t { stdin_buffer = popped.0 } in
    elim (popped.1) [ none ↦ returns next | some c ↦ remove_char rasters next c ]

unfoldable pub putc : Rasters → Terminal → ℕ → Color → Outcome Terminal
unfolding newline backspace draw_char raster
putc rasters t c color =
    if c == b'\n'
    then newline t
    else if c == 8
    then backspace rasters t
    else raster rasters c >>= λ glyph. draw_char t glyph color

abbrev pub input_color : Color
input_color = (170, 200, 30)

abbrev pub is_stdin : TerminalMode → Bool
is_stdin stdin = true
is_stdin init_mode = false
is_stdin stdout = false

abbrev pub is_empty : List ℕ → Bool
is_empty [] = true
is_empty (c ∷ cs) = false

-- The underscore behind the input is taken away, and put back.
unfoldable pub stdin_putc : Rasters → Terminal → ℕ → Outcome Terminal
unfolding remove_char putc draw_viewport
stdin_putc rasters t c = do
  bare ←
      (if is_stdin t.mode && not (is_empty t.stdin_buffer)
        then remove_char rasters t b'_'
        else returns t)
  put ← putc rasters (record bare { stdin_buffer = bare.stdin_buffer ++ c ∷ [] }) c (255, 255, 255)
  marked ←
      (if is_stdin put.mode && not (c == b'\n') && not (is_empty put.stdin_buffer)
        then putc rasters put b'_' input_color
        else returns put)
  draw_viewport marked

unfoldable pub put_all : Rasters → Terminal → List ℕ → Color → Outcome Terminal
unfolding putc
put_all rasters t [] color = returns t
put_all rasters t (c ∷ cs) color = putc rasters t c color >>= λ next. put_all rasters next cs color

unfoldable pub write_slice : Rasters → Terminal → List ℕ → Attributes → Outcome Terminal
unfolding put_all draw_viewport
write_slice rasters t str attributes = do
  put ←
      put_all rasters (record t { mode = stdout; stdout_buffer = t.stdout_buffer ++ str }) str
        attributes.fg
  drawn ← draw_viewport put
  returns (record drawn { mode = t.mode })

unfoldable mutual
  unfolding write_slice from_list

  pub write_es : Rasters → Terminal → NaviTtes → Attributes → Outcome Terminal
  write_es rasters t (plain_slice s) attributes = write_slice rasters t s attributes
  write_es rasters t (owned_slice s) attributes = write_slice rasters t s attributes
  write_es rasters t (navi_ess seqs) attributes = write_ess rasters t seqs attributes
  write_es rasters t (navi_es attrs seq) attributes =
      write_es rasters t seq (from_list attrs attributes)

  pub write_ess : Rasters → Terminal → Sequences → Attributes → Outcome Terminal
  write_ess rasters t none_left attributes = returns t
  write_ess rasters t (follow seq seqs) attributes =
      write_es rasters t seq attributes >>= λ next. write_ess rasters next seqs attributes

abbrev pub to_run {ℓ} : {A : Type ℓ} → Outcome A → Run A
to_run (returns a) = Run.ok a
to_run panics = Run.panic

-- `WRITE_COLOR` is the colour of the default attributes. The fuel is that of `parse_str`.
unfoldable pub write : Rasters → ℕ → Terminal → List ℕ → Run Terminal
unfolding parse_str write_es
write rasters fuel t str =
    Navitts.◌>>=◌ (parse_str fuel str)
      (λ parsed. to_run (write_es rasters t parsed default_attributes))

-- `clearing` and a line break, which `clear` prints first
abbrev pub clearing : List ℕ
clearing = b'c' ∷ b'l' ∷ b'e' ∷ b'a' ∷ b'r' ∷ b'i' ∷ b'n' ∷ b'g' ∷ b'\n' ∷ []

abbrev pub cleared_mode : TerminalMode → TerminalMode
cleared_mode init_mode = stdin
cleared_mode stdout = stdout
cleared_mode stdin = stdin

-- `clear` behind its print.
unfoldable pub reset : Terminal → Outcome Terminal
unfolding draw_viewport
reset t = draw_viewport (record t {
  viewport_start = 0;
  viewport = replicate (length (take (length t.buffer) t.viewport)) 0;
  x_pos = 0;
  y_pos = 0;
  stdin_buffer = [];
  stdout_buffer = [];
  mode = cleared_mode t.mode;
})

unfoldable pub clear : Rasters → Terminal → Run Terminal
unfolding write reset
clear rasters t =
    Navitts.◌>>=◌ (write rasters (suc (length clearing)) t clearing)
      (λ printed. to_run (reset printed))

-- What a key does by itself.
unfoldable pub control : Rasters → Terminal → Key → Run Terminal
unfolding scroll_down scroll_up clear
control rasters t key = elim (key.code) [
  | page_down ↦ to_run (scroll_down t false)
  | page_up ↦ to_run (scroll_up t)
  | key_c ↦ if key.flags == bit_or KeyFlags.ctrl KeyFlags.shift then clear rasters t else Run.ok t
  | _ ↦ Run.ok t
]

-- What its character does.
unfoldable pub type_key : Rasters → Terminal → Key → Outcome Terminal
unfolding stdin_putc map_key default_mapping
type_key rasters t key = elim (is_stdin t.mode) [
  | false ↦ returns t
  | true ↦ default_mapping >>= λ mapping. map_key mapping key >>= λ mapped.
      (if mapped == 0 then returns t else stdin_putc rasters t mapped)
]

unfoldable pub on_key_pressed : Rasters → Terminal → Key → Run Terminal
unfolding control type_key
on_key_pressed rasters t key =
    Navitts.◌>>=◌ (control rasters t key) (λ next. to_run (type_key rasters next key))
