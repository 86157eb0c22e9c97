-- ===== src/Terminal/Framebuffer/Clear.antt =====
-- `init` and `clear` of kernel/src/terminal/framebuffer.rs.

use navi_os.Base.{
  ℕ, absent-All, ◌*◌, ◌≤◌, ◌<◌, ◌≡◌, ◌≢◌, refl, sym, ◌∙◌, ap, arith, List, [], ◌∷◌, ◌++◌, length,
  take, replicate, All, length-take, length-replicate, returns,
}
use navi_os.Terminal.Navitts.{Run}
use navi_os.Terminal.Navitts.Escapes.{default_attributes}
use navi_os.Terminal.Framebuffer.{
  Terminal, FrameBufferInfo, stdout, Color, Rasters, scroll_amount, init,
}
use navi_os.Terminal.Framebuffer.Keys.{
  putc, put_all, write_slice, write_es, write, clear, reset, cleared_mode,
}
use navi_os.Terminal.Framebuffer.Screen.{IsScreen, IsScreen-keep, draw_viewport-eq}
use navi_os.Terminal.Framebuffer.Scroll.{Moves, newline-Moves, shown_bytes}
use navi_os.Terminal.Framebuffer.Draw.{IsFont}
use navi_os.Terminal.Framebuffer.Put.{putc-Moves}

-- On a buffer of whole lines, `init` makes a terminal of whole lines.
pub init-IsScreen :
    (w lines : ℕ) (buffer : List ℕ) (info : FrameBufferInfo)
    → length buffer ≡ lines * scroll_amount info
    → 0 < lines
    → w ≤ info.stride
    → 0 < w
    → 0 < info.bytes_per_pixel
    → info.bytes_per_pixel ≤ 4
    → IsScreen w (init buffer info)
unfolding init
init-IsScreen w lines buffer info len some fits wide pixel bound =
    let same = length-replicate {A = ℕ} (length buffer) 0 in
    record {
      height = lines;
      count = lines;
      first = 0;
      row = 0;
      buffer_len = same ∙ len;
      viewport_len = same ∙ len;
      start = omega arith;
      y = refl;
      shown = omega arith;
      bounded = omega arith;
      inside = some;
      wide = fits;
      some_width = wide;
      pixel = pixel;
      pixel_bound = bound;
    }

-- A text with a line break behind it leaves the cursor at the start of a line.
put_line :
    (w : ℕ) (rasters : Rasters) (t : Terminal) (str : List ℕ) (color : Color)
    → IsFont w rasters
    → IsScreen w t
    → All (λ c. c ≢ 8) str
    → Moves w t 0 (put_all rasters t (str ++ b'\n' ∷ []) color)
unfolding put_all putc
put_line w rasters t [] color f s a =
    let m = newline-Moves w t s in
    record {
      next = m.next;
      returned = rw (put_all, putc, m.returned) refl;
      screen = m.screen;
      same_info = m.same_info;
      at = m.at;
    }
put_line w rasters t (c ∷ cs) color f s a =
    let m = putc-Moves w rasters t c color f s a.0 in
    let n = put_line w rasters m.next cs color f m.screen a.1 in
    record {
      next = n.next;
      returned = rw (put_all, m.returned) n.returned;
      screen = n.screen;
      same_info = n.same_info ∙ m.same_info;
      at = n.at;
    }

-- Printing a line.
print_line :
    (w : ℕ) (rasters : Rasters) (t : Terminal) (str : List ℕ)
    → IsFont w rasters
    → IsScreen w t
    → All (λ c. c ≢ 8) str
    → (next : Terminal) × IsScreen w next
      × (next.mode ≡ t.mode)
      × (write_slice rasters t (str ++ b'\n' ∷ []) default_attributes ≡ returns next)
unfolding write_slice
print_line w rasters t str f s a =
    let output = t.stdout_buffer ++ (str ++ b'\n' ∷ []) in
    let m =
      put_line w rasters (record t { mode = stdout; stdout_buffer = output }) str
        (default_attributes.fg) f
        (IsScreen-keep w t s t.buffer t.viewport t.x_pos stdout t.stdin_buffer output refl refl)
        a in
    let put = m.next in
    let origin : put.x_pos * put.y_pos * put.info.bytes_per_pixel ≡ 0 =
      ap (λ x. x * put.y_pos * put.info.bytes_per_pixel) m.at ∙ omega arith in
    let (bytes, len, e) =
      draw_viewport-eq put (omega (arith, origin)) (shown_bytes w put m.screen) in
    (
      record put { buffer = bytes; mode = t.mode },
      IsScreen-keep w put m.screen bytes put.viewport put.x_pos t.mode put.stdin_buffer
          put.stdout_buffer len refl,
      refl,
      rw (write_slice, m.returned, e) refl,
    )

-- A terminal of whole lines with nothing on it.
pub record IsBlank (w : ℕ) (t : Terminal) : Type 0 where
  pub screen : IsScreen w t
  pub blank : t.viewport ≡ replicate (length t.buffer) 0
  pub start : t.viewport_start ≡ 0
  pub x : t.x_pos ≡ 0
  pub y : t.y_pos ≡ 0
  pub no_input : t.stdin_buffer ≡ []
  pub no_output : t.stdout_buffer ≡ []

reset-IsBlank :
    (w : ℕ) (t : Terminal)
    → IsScreen w t
    → (next : Terminal) × IsBlank w next
      × (next.mode ≡ cleared_mode t.mode)
      × (reset t ≡ returns next)
unfolding reset
reset-IsBlank w t s =
    let zeros : List ℕ = replicate (length (take (length t.buffer) t.viewport)) 0 in
    let cut : length (take (length t.buffer) t.viewport) ≡ length t.buffer =
      length-take (length t.buffer) t.viewport ∙ omega (arith, shown_bytes w t s) in
    let len : length zeros ≡ length t.buffer =
      length-replicate {A = ℕ} (length (take (length t.buffer) t.viewport)) 0 ∙ cut in
    let home : Terminal = record t {
      viewport_start = 0;
      viewport = zeros;
      x_pos = 0;
      y_pos = 0;
      stdin_buffer = [];
      stdout_buffer = [];
      mode = cleared_mode t.mode;
    } in
    let (bytes, same, e) = draw_viewport-eq home (omega arith) (omega (arith, len)) in
    (
      record home { buffer = bytes },
      record {
        screen = record {
          height = s.height;
          count = s.height;
          first = 0;
          row = 0;
          buffer_len = same ∙ s.buffer_len;
          viewport_len = len ∙ s.buffer_len;
          start = omega arith;
          y = refl;
          shown = omega arith;
          bounded = omega arith;
          inside = omega (arith, s.inside, s.bounded);
          wide = s.wide;
          some_width = s.some_width;
          pixel = s.pixel;
          pixel_bound = s.pixel_bound;
        };
        blank = ap (λ n. replicate {A = ℕ} n 0) (cut ∙ sym same);
        start = refl;
        x = refl;
        y = refl;
        no_input = refl;
        no_output = refl;
      },
      refl,
      e,
    )

-- `clear` never panics on a terminal of whole lines whose glyphs fit in a line, also with its print.
-- Then the viewport is as long as the buffer and blank, the cursor is at the origin, both texts are
-- empty, and a terminal that was in its first mode takes input.
pub clear-IsBlank :
    (w : ℕ) (rasters : Rasters) (t : Terminal)
    → IsFont w rasters
    → IsScreen w t
    → (next : Terminal) × IsBlank w next
      × (next.mode ≡ cleared_mode t.mode)
      × (clear rasters t ≡ Run.ok next)
unfolding clear write write_es
clear-IsBlank w rasters t f s =
    let word : List ℕ = b'c' ∷ b'l' ∷ b'e' ∷ b'a' ∷ b'r' ∷ b'i' ∷ b'n' ∷ b'g' ∷ [] in
    let (printed, screen, mode, e) = print_line w rasters t word f s (absent-All 8 word refl) in
    let (next, blank, cleared, r) = reset-IsBlank w printed screen in
    (next, blank, cleared ∙ ap cleared_mode mode, rw (clear, write, e, r) refl)
