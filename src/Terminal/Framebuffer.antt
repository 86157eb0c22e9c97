-- ===== src/Terminal/Framebuffer.antt =====
-- kernel/src/terminal/framebuffer.rs: the terminal on a frame buffer. The buffer and the viewport are
-- lists of bytes, a text is the list of its characters. The glyphs are those of a `Rasters`.
pub mod Keys
pub mod Screen
pub mod Draw
pub mod Scroll
pub mod Pages
pub mod Put
pub mod Clear
pub mod Tests
use navi_os.Base.{
  ℕ, suc, ◌+◌, ◌-◌, ◌*◌, ◌/◌, ◌%◌, Bool, true, false, not, ◌&&◌, Option, none, some, List, [], ◌∷◌,
  ◌++◌, length, take, drop, replicate, ltb, leb, ◌==◌, if◌then◌else◌, Outcome, returns, panics,
  ◌>>=◌, unwrap,
}
use navi_os.Memory.{align_down}

pub data TerminalMode : Type 0 where
  init_mode stdout stdin : TerminalMode

pub data PixelFormat : Type 0 where
  rgb bgr : PixelFormat

pub record FrameBufferInfo : Type 0 where
  pub stride : ℕ
  pub bytes_per_pixel : ℕ
  pub pixel_format : PixelFormat

pub record Terminal : Type 0 where
  pub buffer : List ℕ
  pub viewport : List ℕ
  pub viewport_start : ℕ
  pub mode : TerminalMode
  pub stdin_buffer : List ℕ
  pub stdout_buffer : List ℕ
  pub current_dir : List ℕ
  pub info : FrameBufferInfo
  pub x_pos : ℕ
  pub y_pos : ℕ
  pub panicked : Bool

abbrev pub Color : Type 0
Color = ℕ × ℕ × ℕ

-- `RASTER_HEIGHT`
abbrev pub raster_height : ℕ
raster_height = 20

-- The glyphs of `noto_sans_mono_bitmap` at the raster's height.
pub record Glyph : Type 0 where
  pub width : ℕ
  pub rows : List (List ℕ)

pub data FontWeight : Type 0 where
  regular bold : FontWeight

pub record Rasters : Type 0 where
  pub get_raster : ℕ → FontWeight → Option Glyph

abbrev or_null : Glyph → Option Glyph → Glyph
or_null null none = null
or_null null (some glyph) = glyph

unfoldable pub raster : Rasters → ℕ → Outcome Glyph
raster rasters c = do
  null ← unwrap (rasters.get_raster b'N' regular)
  returns (or_null null (rasters.get_raster c bold))

unfoldable pub init : List ℕ → FrameBufferInfo → Terminal
init buffer info = record {
  buffer = replicate (length buffer) 0;
  viewport = replicate (length buffer) 0;
  viewport_start = 0;
  mode = init_mode;
  stdin_buffer = [];
  stdout_buffer = [];
  current_dir = b'r' ∷ b'a' ∷ b'm' ∷ b':' ∷ b'/' ∷ [];
  info = info;
  x_pos = 0;
  y_pos = 0;
  panicked = false;
}

-- A subtraction that must not overflow.
abbrev pub checked_sub : ℕ → ℕ → Outcome ℕ
checked_sub a b = if ltb a b then panics else returns (a - b)

unfoldable pub draw_viewport : Terminal → Outcome Terminal
draw_viewport t =
    let current_byte = t.x_pos * t.y_pos * t.info.bytes_per_pixel in
    let start = t.viewport_start + current_byte in
    let len = length t.buffer in
    if leb current_byte len && leb (len + start - current_byte) (length t.viewport)
    then returns (record t {
      buffer = take current_byte t.buffer ++ take (len - current_byte) (drop start t.viewport);
    })
    else panics

abbrev pub get_byte_offset : FrameBufferInfo → ℕ → ℕ → ℕ
get_byte_offset info x y = (y * info.stride + x) * info.bytes_per_pixel

abbrev pub scroll_amount : FrameBufferInfo → ℕ
scroll_amount info = info.stride * info.bytes_per_pixel * raster_height

-- The terminal at its origin, drawn, with the cursor at the position that follows.
unfoldable pub draw_at_origin : Terminal → ℕ → Outcome Terminal
unfolding draw_viewport
draw_at_origin t y = draw_viewport (record t { x_pos = 0; y_pos = 0 }) >>= λ drawn.
    returns (record drawn { x_pos = t.x_pos; y_pos = y })

unfoldable pub scroll_up : Terminal → Outcome Terminal
unfolding draw_at_origin
scroll_up t =
    if leb (scroll_amount t.info) t.viewport_start
    then draw_at_origin (record t { viewport_start = t.viewport_start - scroll_amount t.info })
        t.y_pos
    else returns t

-- Room for a line: the viewport grows, or its first line goes.
unfoldable pub make_space : Terminal → Outcome Terminal
unfolding draw_at_origin
make_space t =
    let scroll = scroll_amount t.info in
    let len = length t.viewport in
    if leb (len + scroll) (length t.buffer * 4)
    then draw_at_origin
        (record t {
          viewport = t.viewport ++ replicate scroll 0;
          viewport_start = t.viewport_start + scroll;
        })
        t.y_pos
    else if ltb len scroll
    then panics
    else checked_sub t.y_pos raster_height >>= λ y.
        draw_at_origin (record t { viewport = drop scroll t.viewport ++ replicate scroll 0 }) y

-- `scroll_down(false)` and `scroll_down(true)`
unfoldable pub scroll_down : Terminal → Bool → Outcome Terminal
unfolding draw_at_origin make_space
scroll_down t true = make_space t
scroll_down t false =
    let scroll = scroll_amount t.info in
    if leb (t.viewport_start + scroll + length t.buffer) (length t.viewport)
    then draw_at_origin (record t { viewport_start = t.viewport_start + scroll }) t.y_pos
    else returns t

unfoldable pub newline : Terminal → Outcome Terminal
unfolding scroll_down
newline t =
    let next = record t { y_pos = t.y_pos + raster_height; x_pos = 0 } in
    if leb (next.viewport_start + length next.buffer)
      (next.y_pos * next.info.stride * next.info.bytes_per_pixel)
    then scroll_down next true
    else returns next

-- A product of two bytes fits in 32 bits.
abbrev pub channel : ℕ → ℕ → ℕ
channel intens part = intens * part / 256 % 256

abbrev pub color_bytes : PixelFormat → ℕ → Color → List ℕ
color_bytes rgb intens (r, g, b) = channel intens r ∷ channel intens g ∷ channel intens b ∷ 0 ∷ []
color_bytes bgr intens (r, g, b) = channel intens b ∷ channel intens g ∷ channel intens r ∷ 0 ∷ []

unfoldable pub set_pixel : Terminal → ℕ → ℕ → ℕ → Color → Outcome Terminal
set_pixel t x y intens color =
    let off = get_byte_offset t.info x y in
    let bytes_per_pixel = t.info.bytes_per_pixel in
    let bytes = color_bytes t.info.pixel_format intens color in
    if leb (off + bytes_per_pixel) (length t.viewport) && leb bytes_per_pixel (length bytes)
    then returns (record t {
      viewport =
          take off t.viewport
          ++ take bytes_per_pixel bytes
          ++ drop (off + bytes_per_pixel) t.viewport;
    })
    else panics

-- The two loops over a glyph's pixels, from the one at `x` and `y` on.
unfoldable pub draw_cols : Terminal → ℕ → ℕ → (ℕ → ℕ) → Color → List ℕ → Outcome Terminal
unfolding set_pixel
draw_cols t x y intens color [] = returns t
draw_cols t x y intens color (byte ∷ bytes) =
    set_pixel t x y (intens byte) color >>= λ next. draw_cols next (suc x) y intens color bytes

unfoldable pub draw_rows : Terminal → ℕ → ℕ → (ℕ → ℕ) → Color → List (List ℕ) → Outcome Terminal
unfolding draw_cols
draw_rows t x y intens color [] = returns t
draw_rows t x y intens color (row ∷ rows) =
    draw_cols t x y intens color row >>= λ next. draw_rows next x (suc y) intens color rows

-- The pixels of the glyph at the cursor, which then moves on.
unfoldable pub draw_glyph : Terminal → Glyph → Color → Outcome Terminal
unfolding draw_rows
draw_glyph t glyph color = draw_rows t t.x_pos t.y_pos (λ byte. byte) color glyph.rows >>= λ drawn.
    returns (record drawn { x_pos = drawn.x_pos + glyph.width })

unfoldable pub draw_char : Terminal → Glyph → Color → Outcome Terminal
unfolding newline draw_glyph
draw_char t glyph color = do
  there ← (if ltb t.info.stride (t.x_pos + glyph.width) then newline t else returns t)
  draw_glyph there glyph color

-- The cursor one glyph back, at the end of the line before where it stands at the start of one.
unfoldable pub step_back : Terminal → ℕ → Outcome Terminal
unfolding align_down
step_back t width =
    if leb width t.x_pos
    then returns (record t { x_pos = t.x_pos - width })
    else checked_sub t.y_pos raster_height >>= λ y.
        checked_sub (align_down t.info.stride width) width >>= λ x.
        returns (record t { x_pos = x; y_pos = y })

unfoldable pub remove_char : Rasters → Terminal → ℕ → Outcome Terminal
unfolding raster step_back draw_rows
remove_char rasters t c = do
  glyph ← raster rasters c
  back ← step_back t glyph.width
  draw_rows back back.x_pos back.y_pos (λ byte. 0) (0, 0, 0) glyph.rows
