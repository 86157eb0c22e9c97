-- ===== src/Terminal/Framebuffer/Tests.antt =====
-- Runs of the terminal on a small frame buffer: two pixels to a row, and glyphs of one column.
use navi_os.Base.{
  ℕ, ◌≤◌, ◌≡◌, refl, List, [], ◌∷◌, replicate, absent-All, false, subst, some, arith, returns,
  panics,
}
use mathlib.Core.Option.{some-injective}
use navi_os.Terminal.Navitts.{Run}
use navi_os.Terminal.Navitts.Escapes.{default_attributes}
use navi_os.Terminal.Framebuffer.{
  Terminal, stdin, FrameBufferInfo, rgb, Glyph, Rasters, init, set_pixel, scroll_up, scroll_down,
}
use navi_os.Terminal.Framebuffer.Keys.{write_slice, clear, cleared_mode}
use navi_os.Terminal.Framebuffer.Screen.{IsScreen}
use navi_os.Terminal.Framebuffer.Draw.{IsGlyph, IsFont}
use navi_os.Terminal.Framebuffer.Put.{Writes, write_slice-Writes}
use navi_os.Terminal.Framebuffer.Clear.{IsBlank, init-IsScreen, clear-IsBlank}
use navi_os.Terminal.Framebuffer.Pages.{scroll_down-scroll_up}

abbrev small : FrameBufferInfo
small = record { stride = 2; bytes_per_pixel = 4; pixel_format = rgb }

abbrev bar : Glyph
bar = record { width = 1; rows = replicate 20 (255 ∷ []) }

abbrev bars : Rasters
bars = record { get_raster = λ c weight. some bar }

bar-IsGlyph : IsGlyph 1 bar
bar-IsGlyph = record { width = refl; height = refl; columns = omega arith }

bars-IsFont : IsFont 1 bars
bars-IsFont = record {
  null = (bar, refl);
  shape = λ c weight g e. subst (IsGlyph 1) (some-injective bar g e) bar-IsGlyph;
}

abbrev start : Terminal
start = init (replicate 320 7) small

start-IsScreen : IsScreen 1 start
start-IsScreen =
    init-IsScreen 1 2 (replicate 320 7) small refl (omega arith) (omega arith) (omega arith)
      (omega arith) (omega arith)

-- A red pixel at (1, 0), at half intensity.
pixel_run :
    (set_pixel (record start { viewport = replicate 8 9 }) 1 0 128 (255, 0, 0))
    ≡ returns (record start { viewport = 9 ∷ 9 ∷ 9 ∷ 9 ∷ 127 ∷ 0 ∷ 0 ∷ 0 ∷ [] })
unfolding set_pixel init
pixel_run = refl

abbrev text : List ℕ
text = b'a' ∷ b'b' ∷ b'c' ∷ b'\n' ∷ b'd' ∷ []

start_column : start.x_pos ≤ start.info.stride
unfolding init
start_column = omega arith

write_slice-Writes_example : Writes 1 bars start text default_attributes
write_slice-Writes_example =
    write_slice-Writes 1 bars start text default_attributes bars-IsFont start-IsScreen start_column
      (absent-All 8 text refl)

clear-IsBlank_example :
    (next : Terminal) × IsBlank 1 next
    × (next.mode ≡ cleared_mode start.mode)
    × (clear bars start ≡ Run.ok next)
clear-IsBlank_example = clear-IsBlank 1 bars start bars-IsFont start-IsScreen

-- Three lines, of which the last two are on the screen.
abbrev paged : Terminal
paged = record {
  buffer = replicate 320 5;
  viewport = replicate 480 5;
  viewport_start = 160;
  mode = stdin;
  stdin_buffer = [];
  stdout_buffer = [];
  current_dir = [];
  info = small;
  x_pos = 0;
  y_pos = 40;
  panicked = false;
}

paged-IsScreen : IsScreen 1 paged
paged-IsScreen = record {
  height = 2;
  count = 3;
  first = 1;
  row = 2;
  buffer_len = refl;
  viewport_len = refl;
  start = refl;
  y = refl;
  shown = omega arith;
  bounded = omega arith;
  inside = omega arith;
  wide = omega arith;
  some_width = omega arith;
  pixel = omega arith;
  pixel_bound = omega arith;
}

scroll_down-scroll_up_example :
    (up : Terminal) × (scroll_up paged ≡ returns up) × (scroll_down up false ≡ returns paged)
scroll_down-scroll_up_example = scroll_down-scroll_up 1 paged paged-IsScreen refl (omega arith)

-- The cursor's coordinates are multiplied: after two characters in the last line of this viewport, the
-- product is past the end of the buffer.
overrun : write_slice bars paged (b'a' ∷ b'b' ∷ b'c' ∷ b'd' ∷ []) default_attributes ≡ panics
unfolding write_slice
overrun = refl
