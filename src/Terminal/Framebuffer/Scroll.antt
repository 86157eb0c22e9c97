-- ===== src/Terminal/Framebuffer/Scroll.antt =====
-- Scrolling and new lines keep the geometry.
use native.Mathlib.Nat.{mul-pos, mul-le-mul_right, le_of_mul-le-mul_right, lt_of_mul-lt-mul_right}
use navi_os.Base.{
  ℕ, suc, ◌+◌, ◌*◌, ◌-◌, ◌≤◌, ◌<◌, ◌≡◌, refl, ◌∙◌, ap, arith, ltb, leb, true, false, Bool-cases,
  inl, inr, ◌++◌, length, drop, replicate, length-append, length-drop, length-replicate, Outcome,
  returns,
}
use navi_os.Terminal.Framebuffer.{
  Terminal, raster_height, scroll_amount, make_space, scroll_down, newline,
}
use navi_os.Terminal.Framebuffer.Screen.{IsScreen, draw_at_origin-eq}

-- A call that returns: the geometry is kept, and the cursor is at `x`.
pub record Moves (w : ℕ) (t : Terminal) (x : ℕ) (r : Outcome Terminal) : Type 0 where
  pub next : Terminal
  pub returned : r ≡ returns next
  pub screen : IsScreen w next
  pub same_info : next.info ≡ t.info
  pub at : next.x_pos ≡ x

pub Moves-of :
    {w : ℕ} {t : Terminal} {x : ℕ} {r r' : Outcome Terminal}
    → r ≡ r'
    → Moves w t x r'
    → Moves w t x r
Moves-of e m = record {
  next = m.next;
  returned = e ∙ m.returned;
  screen = m.screen;
  same_info = m.same_info;
  at = m.at;
}

pub line_pos : (w : ℕ) (t : Terminal) → IsScreen w t → 0 < scroll_amount t.info
line_pos w t s = mul-pos (mul-pos (omega (arith, s.some_width, s.wide)) s.pixel) (omega arith)

-- The bytes on the screen are bytes of the viewport.
pub shown_bytes :
    (w : ℕ) (t : Terminal) → IsScreen w t → t.viewport_start + length t.buffer ≤ length t.viewport
shown_bytes w t s =
    omega (
      arith,
      s.start,
      s.buffer_len,
      s.viewport_len,
      mul-le-mul_right (scroll_amount t.info) s.shown,
    )

module _ (w : ℕ) (t : Terminal) (s : IsScreen w t) where
  abbrev line : ℕ
  line = scroll_amount t.info

  abbrev below : Terminal
  below = record t { y_pos = t.y_pos + raster_height; x_pos = 0 }

  grown : length t.viewport + line ≤ length t.buffer * 4 → Moves w t 0 (make_space below)
  unfolding make_space
  grown h =
      let enough : leb (length t.viewport + line) (length t.buffer * 4) ≡ true = ground arith in
      let viewport = t.viewport ++ replicate line 0 in
      let len : length viewport ≡ length t.viewport + line =
        length-append t.viewport (replicate line 0)
        ∙ ap (λ n. length t.viewport + n) (length-replicate line 0) in
      let (bytes, same, e) =
        draw_at_origin-eq
          (record below { viewport = viewport; viewport_start = t.viewport_start + line })
          (t.y_pos + raster_height) (omega (arith, len, shown_bytes w t s)) in
      record {
        next = record below {
          viewport = viewport;
          viewport_start = t.viewport_start + line;
          buffer = bytes;
        };
        returned = rw (make_space, enough) e;
        screen = record {
          height = s.height;
          count = suc s.count;
          first = suc s.first;
          row = suc s.row;
          buffer_len = same ∙ s.buffer_len;
          viewport_len = omega (arith, len, s.viewport_len);
          start = omega (arith, s.start);
          y = omega (arith, s.y);
          shown = omega (arith, s.shown);
          bounded =
              le_of_mul-le-mul_right {k = line} (omega (arith, h, s.viewport_len, s.buffer_len))
                (line_pos w t s);
          inside = omega (arith, s.inside);
          wide = s.wide;
          some_width = s.some_width;
          pixel = s.pixel;
          pixel_bound = s.pixel_bound;
        };
        same_info = refl;
        at = refl;
      }

  shifted :
      leb (length t.viewport + line) (length t.buffer * 4) ≡ false → Moves w t 0 (make_space below)
  unfolding make_space
  shifted full =
      let one : line ≤ length t.viewport = omega (
        arith,
        s.viewport_len,
        mul-le-mul_right {m = 1} {n = s.count} line (omega (arith, s.inside)),
      ) in
      let room : ltb (length t.viewport) line ≡ false = ground arith in
      let back : ltb (t.y_pos + raster_height) raster_height ≡ false = ground arith in
      let viewport = drop line t.viewport ++ replicate line 0 in
      let len : length viewport ≡ length t.viewport =
        length-append (drop line t.viewport) (replicate line 0)
        ∙ omega (arith, length-drop line t.viewport, length-replicate {A = ℕ} line 0) in
      let (bytes, same, e) =
        draw_at_origin-eq (record below { viewport = viewport })
          (t.y_pos + raster_height - raster_height) (omega (arith, len, shown_bytes w t s)) in
      record {
        next = record below {
          viewport = viewport;
          buffer = bytes;
          y_pos = t.y_pos + raster_height - raster_height;
        };
        returned = rw (make_space, full, room, back) e;
        screen = record {
          height = s.height;
          count = s.count;
          first = s.first;
          row = s.row;
          buffer_len = same ∙ s.buffer_len;
          viewport_len = len ∙ s.viewport_len;
          start = s.start;
          y = omega (arith, s.y);
          shown = s.shown;
          bounded = s.bounded;
          inside = s.inside;
          wide = s.wide;
          some_width = s.some_width;
          pixel = s.pixel;
          pixel_bound = s.pixel_bound;
        };
        same_info = refl;
        at = refl;
      }

  -- The cursor's next line is one of the viewport, while it begins on the screen.
  kept :
      (t.y_pos + raster_height) * t.info.stride * t.info.bytes_per_pixel
        < t.viewport_start + length t.buffer
      → Moves w t 0 (returns below)
  kept h =
      let at_row : (t.y_pos + raster_height) * t.info.stride * t.info.bytes_per_pixel
          ≡ suc s.row * line =
        ap (λ y. (y + raster_height) * t.info.stride * t.info.bytes_per_pixel) s.y ∙ omega arith in
      record {
        next = below;
        returned = refl;
        screen = record {
          height = s.height;
          count = s.count;
          first = s.first;
          row = suc s.row;
          buffer_len = s.buffer_len;
          viewport_len = s.viewport_len;
          start = s.start;
          y = omega (arith, s.y);
          shown = s.shown;
          bounded = s.bounded;
          inside =
              lt_of_mul-lt-mul_right line
                (omega (arith, h, at_row, s.start, s.buffer_len, mul-le-mul_right line s.shown));
          wide = s.wide;
          some_width = s.some_width;
          pixel = s.pixel;
          pixel_bound = s.pixel_bound;
        };
        same_info = refl;
        at = refl;
      }

  pub newline-Moves : Moves w t 0 (newline t)
  unfolding newline scroll_down
  newline-Moves =
      elim (Bool-cases (
        leb (t.viewport_start + length t.buffer)
          ((t.y_pos + raster_height) * t.info.stride * t.info.bytes_per_pixel))) [
            | inr on_screen ↦ Moves-of (rw (newline, on_screen) refl) (kept (ground arith))
            | inl off_screen ↦
                elim (Bool-cases (leb (length t.viewport + line) (length t.buffer * 4))) [
                  | inl h ↦ Moves-of (rw (newline, off_screen) refl) (grown (ground arith))
                  | inr h ↦ Moves-of (rw (newline, off_screen) refl) (shifted h)
                ]
          ]
