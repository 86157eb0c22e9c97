-- ===== src/Terminal/Framebuffer/Screen.antt =====
-- The geometry of the terminal: the buffer and the viewport are whole lines, and the cursor stands in
-- the viewport. Copying the viewport to the buffer.
use navi_os.Base.{
  ℕ, ◌+◌, ◌*◌, ◌-◌, ◌≤◌, ◌<◌, ◌≡◌, refl, ◌∙◌, arith, leb, true, false, List, ◌++◌, length, take,
  drop, length-append, length-take, length-drop, returns, panics,
}
use navi_os.Terminal.Framebuffer.{
  Terminal, TerminalMode, raster_height, scroll_amount, draw_viewport, draw_at_origin,
}

-- A terminal that has room for `w` pixels: `height` lines in the buffer, `count` in the viewport, of
-- which the one at `first` is the first on the screen. The cursor is in the line `row`.
pub record IsScreen (w : ℕ) (t : Terminal) : Type 0 where
  pub height : ℕ
  pub count : ℕ
  pub first : ℕ
  pub row : ℕ
  pub buffer_len : length t.buffer ≡ height * scroll_amount t.info
  pub viewport_len : length t.viewport ≡ count * scroll_amount t.info
  pub start : t.viewport_start ≡ first * scroll_amount t.info
  pub y : t.y_pos ≡ row * raster_height
  pub shown : first + height ≤ count
  pub bounded : count ≤ height * 4
  pub inside : row < count
  pub wide : w ≤ t.info.stride
  pub some_width : 0 < w
  pub pixel : 0 < t.info.bytes_per_pixel
  pub pixel_bound : t.info.bytes_per_pixel ≤ 4

-- The geometry is about how many bytes there are, the info, the start and the cursor's line.
pub IsScreen-keep :
    (w : ℕ) (t : Terminal)
    → IsScreen w t
    → (buffer viewport : List ℕ) (x : ℕ) (mode : TerminalMode) (input output : List ℕ)
    → length buffer ≡ length t.buffer
    → length viewport ≡ length t.viewport
    → IsScreen w (record t {
      buffer = buffer;
      viewport = viewport;
      x_pos = x;
      mode = mode;
      stdin_buffer = input;
      stdout_buffer = output;
    })
IsScreen-keep w t s buffer viewport x mode input output same len = record {
  height = s.height;
  count = s.count;
  first = s.first;
  row = s.row;
  buffer_len = same ∙ s.buffer_len;
  viewport_len = len ∙ s.viewport_len;
  start = s.start;
  y = s.y;
  shown = s.shown;
  bounded = s.bounded;
  inside = s.inside;
  wide = s.wide;
  some_width = s.some_width;
  pixel = s.pixel;
  pixel_bound = s.pixel_bound;
}

-- The terminal with the bytes that it shows changed.
abbrev pub shows : Terminal → List ℕ → Terminal
shows t bytes = record t { buffer = bytes }

length-copy :
    (n start : ℕ) (xs ys : List ℕ)
    → n ≤ length xs
    → start + length xs ≤ length ys + n
    → length (take n xs ++ take (length xs - n) (drop start ys)) ≡ length xs
length-copy n start xs ys h k =
    length-append (take n xs) (take (length xs - n) (drop start ys))
    ∙ omega
        (arith, length-take n xs, length-take (length xs - n) (drop start ys), length-drop start ys)

-- The copy writes as many bytes as there are.
pub draw_viewport-eq :
    (t : Terminal)
    → t.x_pos * t.y_pos * t.info.bytes_per_pixel ≤ length t.buffer
    → t.viewport_start + length t.buffer ≤ length t.viewport
    → (bytes : List ℕ) × (length bytes ≡ length t.buffer)
      × (draw_viewport t ≡ returns (shows t bytes))
unfolding draw_viewport
draw_viewport-eq t h k =
    let n : ℕ = t.x_pos * t.y_pos * t.info.bytes_per_pixel in
    let start : ℕ = t.viewport_start + n in
    let lower : leb n (length t.buffer) ≡ true = ground arith in
    let upper : leb (length t.buffer + start - n) (length t.viewport) ≡ true = ground arith in
    (
      take n t.buffer ++ take (length t.buffer - n) (drop start t.viewport),
      length-copy n start t.buffer t.viewport h (omega arith),
      rw (draw_viewport, lower, upper) refl,
    )

pub draw_viewport-panics :
    (t : Terminal)
    → length t.buffer < t.x_pos * t.y_pos * t.info.bytes_per_pixel
    → draw_viewport t ≡ panics
unfolding draw_viewport
draw_viewport-panics t h =
    let over : leb (t.x_pos * t.y_pos * t.info.bytes_per_pixel) (length t.buffer) ≡ false =
      ground arith in
    rw (draw_viewport, over) refl

pub draw_at_origin-eq :
    (t : Terminal) (y : ℕ)
    → t.viewport_start + length t.buffer ≤ length t.viewport
    → (bytes : List ℕ) × (length bytes ≡ length t.buffer)
      × (draw_at_origin t y ≡ returns (record t { buffer = bytes; y_pos = y }))
unfolding draw_at_origin
draw_at_origin-eq t y h =
    let (bytes, len, e) = draw_viewport-eq (record t { x_pos = 0; y_pos = 0 }) (omega arith) h in
    (bytes, len, rw e refl)
