-- ===== src/Terminal/Framebuffer/Draw.antt =====
-- Drawing a glyph: its pixels lie in the viewport.
use native.Mathlib.Nat.{mul-le-mul_right}
use navi_os.Base.{
  ℕ, suc, ◌+◌, ◌*◌, ◌≤◌, ◌≡◌, refl, ◌∙◌, ap, arith, ltb, leb, true, Bool-cases, inl, inr, List, [],
  ◌∷◌, ◌++◌, length, take, drop, All, length-append, length-take, length-drop, some, Option-cases,
  Outcome, returns, if◌then◌else◌,
}
use navi_os.Terminal.Framebuffer.{
  Terminal, PixelFormat, rgb, bgr, Color, color_bytes, raster_height, scroll_amount,
  get_byte_offset, set_pixel, draw_cols, draw_rows, draw_glyph, draw_char, Glyph, FontWeight,
  regular, bold, Rasters, raster,
}
use navi_os.Terminal.Framebuffer.Screen.{IsScreen, IsScreen-keep}
use navi_os.Terminal.Framebuffer.Scroll.{Moves, Moves-of, newline-Moves}

-- A terminal with other bytes in its viewport, as many as before.
pub record Paints (t : Terminal) (r : Outcome Terminal) : Type 0 where
  pub viewport : List ℕ
  pub len : length viewport ≡ length t.viewport
  pub returned : r ≡ returns (record t { viewport = viewport })

length-color_bytes :
    (f : PixelFormat) (intens : ℕ) (c : Color) → length (color_bytes f intens c) ≡ 4
length-color_bytes rgb intens c = refl
length-color_bytes bgr intens c = refl

set_pixel-Paints :
    (t : Terminal) (x y intens : ℕ) (color : Color)
    → t.info.bytes_per_pixel ≤ 4
    → get_byte_offset t.info x y + t.info.bytes_per_pixel ≤ length t.viewport
    → Paints t (set_pixel t x y intens color)
unfolding set_pixel
set_pixel-Paints t x y intens color small h =
    let off = get_byte_offset t.info x y in
    let bpp = t.info.bytes_per_pixel in
    let bytes = color_bytes t.info.pixel_format intens color in
    let four = length-color_bytes t.info.pixel_format intens color in
    let inside : leb (off + bpp) (length t.viewport) ≡ true = ground arith in
    let enough : leb bpp (length bytes) ≡ true = ground (arith, four) in
    record {
      viewport = take off t.viewport ++ take bpp bytes ++ drop (off + bpp) t.viewport;
      len =
          length-append (take off t.viewport ++ take bpp bytes) (drop (off + bpp) t.viewport)
          ∙ omega (
            arith,
            length-append (take off t.viewport) (take bpp bytes),
            length-take off t.viewport,
            length-take bpp bytes,
            length-drop (off + bpp) t.viewport,
            four,
          );
      returned = rw (set_pixel, inside, enough) refl;
    }

draw_cols-Paints :
    (t : Terminal) (x y : ℕ) (intens : ℕ → ℕ) (color : Color) (row : List ℕ)
    → t.info.bytes_per_pixel ≤ 4
    → (y * t.info.stride + x + length row) * t.info.bytes_per_pixel ≤ length t.viewport
    → Paints t (draw_cols t x y intens color row)
unfolding draw_cols
draw_cols-Paints t x y intens color [] small h = record {
  viewport = t.viewport;
  len = refl;
  returned = refl;
}
draw_cols-Paints t x y intens color (byte ∷ bytes) small h =
    let p = set_pixel-Paints t x y (intens byte) color small (omega (arith, h)) in
    let q =
      draw_cols-Paints (record t { viewport = p.viewport }) (suc x) y intens color bytes small
        (omega (arith, h, p.len)) in
    record {
      viewport = q.viewport;
      len = q.len ∙ p.len;
      returned = rw (draw_cols, p.returned) q.returned;
    }

pub draw_rows-Paints :
    (t : Terminal) (x y w : ℕ) (intens : ℕ → ℕ) (color : Color) (rows : List (List ℕ))
    → t.info.bytes_per_pixel ≤ 4
    → x + w ≤ t.info.stride
    → All (λ row. length row ≡ w) rows
    → (y + length rows) * t.info.stride * t.info.bytes_per_pixel ≤ length t.viewport
    → Paints t (draw_rows t x y intens color rows)
unfolding draw_rows
draw_rows-Paints t x y w intens color [] small fits a h = record {
  viewport = t.viewport;
  len = refl;
  returned = refl;
}
draw_rows-Paints t x y w intens color (row ∷ rows) small fits a h =
    let end : y * t.info.stride + x + length row ≤ suc y * t.info.stride =
      omega (arith, a.0, fits) in
    let p =
      draw_cols-Paints t x y intens color row small
        (omega (arith, h, mul-le-mul_right t.info.bytes_per_pixel end)) in
    let q =
      draw_rows-Paints (record t { viewport = p.viewport }) x (suc y) w intens color rows small fits
        a.1 (omega (arith, h, p.len)) in
    record {
      viewport = q.viewport;
      len = q.len ∙ p.len;
      returned = rw (draw_rows, p.returned) q.returned;
    }

-- A glyph of `w` columns, and a font of them.
pub record IsGlyph (w : ℕ) (g : Glyph) : Type 0 where
  pub width : g.width ≡ w
  pub height : length g.rows ≡ raster_height
  pub columns : All (λ row. length row ≡ w) g.rows

pub record IsFont (w : ℕ) (rasters : Rasters) : Type 0 where
  pub null : (g : Glyph) × (rasters.get_raster b'N' regular ≡ some g)
  pub shape :
      (c : ℕ) (weight : FontWeight) (g : Glyph) → rasters.get_raster c weight ≡ some g → IsGlyph w g

pub raster-IsGlyph :
    (w : ℕ) (rasters : Rasters) (c : ℕ)
    → IsFont w rasters
    → (g : Glyph) × (raster rasters c ≡ returns g) × IsGlyph w g
unfolding raster
raster-IsGlyph w rasters c f =
    let (null, e) = f.null in
    elim (Option-cases (rasters.get_raster c bold)) [
      | inl missing ↦ (null, rw (raster, e, missing) refl, f.shape b'N' regular null e)
      | inr (g, h) ↦ (g, rw (raster, e, h) refl, f.shape c bold g h)
    ]

draw_glyph-Moves :
    (w : ℕ) (t : Terminal) (g : Glyph) (color : Color)
    → IsScreen w t
    → IsGlyph w g
    → t.x_pos + w ≤ t.info.stride
    → Moves w t (t.x_pos + g.width) (draw_glyph t g color)
unfolding draw_glyph
draw_glyph-Moves w t g color s i h =
    let line = scroll_amount t.info in
    let at_row : (t.y_pos + length g.rows) * t.info.stride * t.info.bytes_per_pixel
        ≡ suc s.row * line =
      ap (λ y. (y + length g.rows) * t.info.stride * t.info.bytes_per_pixel) s.y
      ∙ ap (λ n. (s.row * raster_height + n) * t.info.stride * t.info.bytes_per_pixel) i.height
      ∙ omega arith in
    let p =
      draw_rows-Paints t t.x_pos t.y_pos w (λ byte. byte) color g.rows s.pixel_bound h i.columns
        (omega (arith, at_row, s.viewport_len, mul-le-mul_right line s.inside)) in
    record {
      next = record t { viewport = p.viewport; x_pos = t.x_pos + g.width };
      returned = rw (draw_glyph, p.returned) refl;
      screen =
          IsScreen-keep w t s t.buffer p.viewport (t.x_pos + g.width) t.mode t.stdin_buffer
            t.stdout_buffer refl p.len;
      same_info = refl;
      at = refl;
    }

-- Where the cursor is behind a glyph of `w` pixels in a line of `stride` of them.
abbrev pub behind_glyph : ℕ → ℕ → ℕ → ℕ
behind_glyph w stride x = if ltb stride (x + w) then w else x + w

Moves-to :
    {w : ℕ} {t : Terminal} {x y : ℕ} {r : Outcome Terminal} → Moves w t x r → x ≡ y → Moves w t y r
Moves-to m e = record {
  next = m.next;
  returned = m.returned;
  screen = m.screen;
  same_info = m.same_info;
  at = m.at ∙ e;
}

-- A glyph that does not fit in the line goes to the next.
pub draw_char-Moves :
    (w : ℕ) (t : Terminal) (g : Glyph) (color : Color)
    → IsScreen w t
    → IsGlyph w g
    → Moves w t (behind_glyph w t.info.stride t.x_pos) (draw_char t g color)
unfolding draw_char
draw_char-Moves w t g color s i = elim (Bool-cases (ltb t.info.stride (t.x_pos + g.width))) [
  | inr fits ↦
      Moves-to
        (Moves-of (rw (draw_char, fits) refl)
          (draw_glyph-Moves w t g color s i (ground (arith, i.width, fits))))
        (ground (arith, i.width, fits))
  | inl over ↦
      let m = newline-Moves w t s in
      let d = draw_glyph-Moves w m.next g color m.screen i (omega (arith, m.at, m.screen.wide)) in
      record {
        next = d.next;
        returned = rw (draw_char, over, m.returned) d.returned;
        screen = d.screen;
        same_info = d.same_info ∙ m.same_info;
        at = d.at ∙ ground (arith, i.width, over, m.at);
      }
]
