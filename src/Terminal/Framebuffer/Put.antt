-- ===== src/Terminal/Framebuffer/Put.antt =====
-- Texts on the screen: what `putc` and `write_slice` keep, and where the copy to the buffer fails.
use navi_os.Base.{
  ℕ, ◌+◌, ap, ltb, if◌then◌else◌, ◌*◌, ◌≤◌, ◌<◌, ◌≡◌, ◌≢◌, ◌⊎◌, refl, ◌∙◌, arith, leb, false, ◌==◌,
  Bool-cases, inl, inr, List, [], ◌∷◌, ◌++◌, length, All, returns, panics,
}
use navi_os.Terminal.Framebuffer.{Terminal, FrameBufferInfo, stdout, Color, Rasters}
use navi_os.Terminal.Framebuffer.Keys.{putc, put_all, write_slice}
use navi_os.Terminal.Framebuffer.Screen.{
  IsScreen, IsScreen-keep, draw_viewport-eq, draw_viewport-panics,
}
use navi_os.Terminal.Framebuffer.Scroll.{Moves, newline-Moves, shown_bytes}
use navi_os.Terminal.Framebuffer.Draw.{IsFont, raster-IsGlyph, behind_glyph, draw_char-Moves}
use navi_os.Terminal.Navitts.Escapes.{Attributes}

-- The column of the cursor behind a character, and behind a text, from the width of the glyphs and of
-- the lines alone.
abbrev pub column_behind : ℕ → ℕ → ℕ → ℕ → ℕ
column_behind w stride x c = if c == b'\n' then 0 else behind_glyph w stride x

abbrev pub columns_behind : ℕ → ℕ → ℕ → List ℕ → ℕ
columns_behind w stride x [] = x
columns_behind w stride x (c ∷ cs) = columns_behind w stride (column_behind w stride x c) cs

-- Any character but the backspace.
pub putc-Moves :
    (w : ℕ) (rasters : Rasters) (t : Terminal) (c : ℕ) (color : Color)
    → IsFont w rasters
    → IsScreen w t
    → c ≢ 8
    → Moves w t (column_behind w t.info.stride t.x_pos c) (putc rasters t c color)
unfolding putc
putc-Moves w rasters t c color f s h = elim (Bool-cases (c == b'\n')) [
  | inl line ↦ rw line (newline-Moves w t s)
  | inr other ↦
      let not_back : (c == 8) ≡ false = ground (arith, h) in
      let (g, e, i) = raster-IsGlyph w rasters c f in
      rw (other, putc, not_back, e) (draw_char-Moves w t g color s i)
]

pub put_all-Moves :
    (w : ℕ) (rasters : Rasters) (t : Terminal) (str : List ℕ) (color : Color)
    → IsFont w rasters
    → IsScreen w t
    → All (λ c. c ≢ 8) str
    → Moves w t (columns_behind w t.info.stride t.x_pos str) (put_all rasters t str color)
unfolding put_all
put_all-Moves w rasters t [] color f s a = record {
  next = t;
  returned = refl;
  screen = s;
  same_info = refl;
  at = refl;
}
put_all-Moves w rasters t (c ∷ cs) color f s a =
    let m = putc-Moves w rasters t c color f s a.0 in
    let n = put_all-Moves w rasters m.next cs color f m.screen a.1 in
    record {
      next = n.next;
      returned = rw (put_all, m.returned) n.returned;
      screen = n.screen;
      same_info = n.same_info ∙ m.same_info;
      at =
          n.at
          ∙ ap (λ (info : FrameBufferInfo). columns_behind w info.stride m.next.x_pos cs)
              m.same_info
          ∙ ap (λ x. columns_behind w t.info.stride x cs) m.at;
    }

-- A cursor that begins in its line stays in a line.
column_behind-le :
    (w stride x c : ℕ) → w ≤ stride → x ≤ stride → column_behind w stride x c ≤ stride
column_behind-le w stride x c wide h = elim (Bool-cases (c == b'\n')) [
  | inl line ↦ rw line (omega arith)
  | inr other ↦ elim (Bool-cases (ltb stride (x + w))) [
    | inl over ↦ rw (other, over) wide
    | inr fits ↦ rw (other, fits) (ground arith)
  ]
]

columns_behind-le :
    (w stride x : ℕ) (str : List ℕ)
    → w ≤ stride
    → x ≤ stride
    → columns_behind w stride x str ≤ stride
columns_behind-le w stride x [] wide h = h
columns_behind-le w stride x (c ∷ cs) wide h =
    columns_behind-le w stride (column_behind w stride x c) cs wide
      (column_behind-le w stride x c wide h)

-- What `write_slice` does with a text: its characters are put, and then the buffer is written, which
-- changes nothing else, and which fails if the product of the cursor's coordinates is past its end.
pub record Writes (w : ℕ) (rasters : Rasters) (t : Terminal) (str : List ℕ)
    (attributes : Attributes) : Type 0 where
  pub put : Terminal
  pub all_put :
      put_all rasters
        (record t { mode = stdout; stdout_buffer = t.stdout_buffer ++ str })
        str
        attributes.fg
      ≡ returns put
  pub screen : IsScreen w put
  pub same_info : put.info ≡ t.info
  pub column : put.x_pos ≡ columns_behind w t.info.stride t.x_pos str
  pub in_line : put.x_pos ≤ put.info.stride
  pub written :
      ((put.x_pos * put.y_pos * put.info.bytes_per_pixel ≤ length put.buffer)
        × (bytes : List ℕ) × (length bytes ≡ length put.buffer)
        × (write_slice rasters t str attributes
            ≡ returns (record put { buffer = bytes; mode = t.mode })))
      ⊎ ((length put.buffer < put.x_pos * put.y_pos * put.info.bytes_per_pixel)
          × (write_slice rasters t str attributes ≡ panics))

-- A text without a backspace, on a terminal of whole lines whose glyphs fit in a line and whose cursor
-- is in its line: putting its characters never panics and keeps the viewport of whole lines, at most
-- four times the buffer, with the cursor in one of them. Its column is no more than the stride, and it
-- is the one that follows from the widths: each glyph moves it by its width, or, where the glyph does
-- not fit, to that width in the next line, and each line break moves it to 0. `write_slice` then returns
-- if and only if the product of the cursor's coordinates is not past the end of the buffer, and
-- otherwise it panics; it changes nothing more than the bytes of the buffer.
pub write_slice-Writes :
    (w : ℕ) (rasters : Rasters) (t : Terminal) (str : List ℕ) (attributes : Attributes)
    → IsFont w rasters
    → IsScreen w t
    → t.x_pos ≤ t.info.stride
    → All (λ c. c ≢ 8) str
    → Writes w rasters t str attributes
unfolding write_slice
write_slice-Writes w rasters t str attributes f s h a =
    let output = t.stdout_buffer ++ str in
    let m =
      put_all-Moves w rasters (record t { mode = stdout; stdout_buffer = output }) str attributes.fg
        f (IsScreen-keep w t s t.buffer t.viewport t.x_pos stdout t.stdin_buffer output refl refl)
        a in
    let put = m.next in
    let le = columns_behind-le w t.info.stride t.x_pos str s.wide h in
    let stride : put.info.stride ≡ t.info.stride =
      ap (λ (info : FrameBufferInfo). info.stride) m.same_info in
    record {
      put = put;
      all_put = m.returned;
      screen = m.screen;
      same_info = m.same_info;
      column = m.at;
      in_line = omega (arith, le, m.at, stride);
      written =
          elim (Bool-cases
            (leb (put.x_pos * put.y_pos * put.info.bytes_per_pixel) (length put.buffer))) [
              | inl fits ↦
                  let (bytes, len, e) =
                    draw_viewport-eq put (ground arith) (shown_bytes w put m.screen) in
                  inl (ground arith, bytes, len, rw (write_slice, m.returned, e) refl)
              | inr over ↦ inr (
                ground arith,
                rw (write_slice, m.returned, draw_viewport-panics put (ground arith)) refl,
              )
            ];
    }
