-- ===== src/Terminal/Framebuffer/Pages.antt =====
-- Page up and page down.
use native.Mathlib.Nat.{mul-le-mul_right, le_of_mul-le-mul_right}
use navi_os.Base.{
  ℕ, suc, ◌+◌, ◌*◌, ◌-◌, ◌≤◌, ◌≡◌, refl, sym, ◌∙◌, ap, arith, leb, true, false, Bool-cases, inl,
  inr, List, length, subst, drop, take, length-take, length-drop, returns,
}
use navi_os.Terminal.Framebuffer.{
  Terminal, scroll_amount, draw_viewport, draw_at_origin, scroll_down, scroll_up,
}
use navi_os.Terminal.Framebuffer.Screen.{IsScreen}
use navi_os.Terminal.Framebuffer.Scroll.{Moves, Moves-of, line_pos, shown_bytes}

-- The bytes that the viewport has for the screen from `start` on, and a terminal that shows them.
abbrev pub visible : Terminal → ℕ → List ℕ
visible t start = take (length t.buffer) (drop start t.viewport)

abbrev pub from_start : Terminal → ℕ → Terminal
from_start t start = record t { viewport_start = start; buffer = visible t start }

draw_at_origin-visible :
    (t : Terminal) (start : ℕ)
    → start + length t.buffer ≤ length t.viewport
    → draw_at_origin (record t { viewport_start = start }) t.y_pos ≡ returns (from_start t start)
unfolding draw_at_origin draw_viewport
draw_at_origin-visible t start h =
    let none : 0 * t.info.bytes_per_pixel ≡ 0 = omega arith in
    let lower : leb 0 (length t.buffer) ≡ true = ground arith in
    let upper : leb (length t.buffer + (start + 0) - 0) (length t.viewport) ≡ true = ground arith in
    let same_len : length t.buffer - 0 ≡ length t.buffer = omega arith in
    let same_start : start + 0 ≡ start = omega arith in
    rw (none, lower, upper, same_len, same_start) refl

length-visible :
    (t : Terminal) (start : ℕ)
    → start + length t.buffer ≤ length t.viewport
    → length (visible t start) ≡ length t.buffer
length-visible t start h =
    length-take (length t.buffer) (drop start t.viewport)
    ∙ omega (arith, length-drop start t.viewport)

scroll_up-eq :
    (w : ℕ) (t : Terminal)
    → IsScreen w t
    → scroll_amount t.info ≤ t.viewport_start
    → scroll_up t ≡ returns (from_start t (t.viewport_start - scroll_amount t.info))
unfolding scroll_up
scroll_up-eq w t s h =
    let room : leb (scroll_amount t.info) t.viewport_start ≡ true = ground arith in
    rw (scroll_up, room)
      (draw_at_origin-visible t (t.viewport_start - scroll_amount t.info)
        (omega (arith, shown_bytes w t s)))

scroll_down-eq :
    (t : Terminal)
    → t.viewport_start + scroll_amount t.info + length t.buffer ≤ length t.viewport
    → scroll_down t false ≡ returns (from_start t (t.viewport_start + scroll_amount t.info))
unfolding scroll_down
scroll_down-eq t h =
    let room : leb (t.viewport_start + scroll_amount t.info + length t.buffer) (length t.viewport)
        ≡ true =
      ground arith in
    rw (scroll_down, room) (draw_at_origin-visible t (t.viewport_start + scroll_amount t.info) h)

-- On a terminal of whole lines that shows its viewport and is not at the viewport's first line, page
-- up returns a terminal on which page down returns the terminal as it was.
pub scroll_down-scroll_up :
    (w : ℕ) (t : Terminal)
    → IsScreen w t
    → t.buffer ≡ visible t t.viewport_start
    → scroll_amount t.info ≤ t.viewport_start
    → (up : Terminal) × (scroll_up t ≡ returns up) × (scroll_down up false ≡ returns t)
scroll_down-scroll_up w t s drawn h =
    let line : ℕ = scroll_amount t.info in
    let before : ℕ = t.viewport_start - line in
    let up : Terminal = from_start t before in
    let len = length-visible t before (omega (arith, shown_bytes w t s)) in
    let back : before + line ≡ t.viewport_start = omega arith in
    (
      up,
      scroll_up-eq w t s h,
      scroll_down-eq up (omega (arith, len, back, shown_bytes w t s))
          ∙ ap
              (λ n. returns (record t {
                viewport_start = before + line;
                buffer = take n (drop (before + line) t.viewport);
              }))
              len
          ∙ ap (λ start. returns (from_start t start)) back
          ∙ ap (λ bytes. returns (record t { buffer = bytes })) (sym drawn),
    )

module _ (w : ℕ) (t : Terminal) (s : IsScreen w t) where
  abbrev line : ℕ
  line = scroll_amount t.info

  from_start-IsScreen :
      (first : ℕ) (bytes : List ℕ)
      → length bytes ≡ length t.buffer
      → first + s.height ≤ s.count
      → IsScreen w (record t { viewport_start = first * line; buffer = bytes })
  from_start-IsScreen first bytes same h = record {
    height = s.height;
    count = s.count;
    first = first;
    row = s.row;
    buffer_len = same ∙ s.buffer_len;
    viewport_len = s.viewport_len;
    start = refl;
    y = s.y;
    shown = h;
    bounded = s.bounded;
    inside = s.inside;
    wide = s.wide;
    some_width = s.some_width;
    pixel = s.pixel;
    pixel_bound = s.pixel_bound;
  }

  -- To show the viewport from another of its lines on.
  moved :
      (start first : ℕ)
      → start ≡ first * line
      → first + s.height ≤ s.count
      → Moves w t t.x_pos (returns (from_start t start))
  moved start first at h =
      let fits = mul-le-mul_right line h in
      let len = length-visible t start (omega (arith, at, fits, s.buffer_len, s.viewport_len)) in
      record {
        next = from_start t start;
        returned = refl;
        screen =
            subst (λ a. IsScreen w (record t { viewport_start = a; buffer = visible t start }))
              (sym at) (from_start-IsScreen first (visible t start) len h);
        same_info = refl;
        at = refl;
      }

  pub scroll_up-Moves : Moves w t t.x_pos (scroll_up t)
  unfolding scroll_up
  scroll_up-Moves = elim (Bool-cases (leb line t.viewport_start)) [
    | inr top ↦
        Moves-of (rw (scroll_up, top) refl)
          (record { next = t; returned = refl; screen = s; same_info = refl; at = refl })
    | inl below_top ↦
        let before = s.first - 1 in
        let some_first : 1 ≤ s.first =
          le_of_mul-le-mul_right {k = line} (ground (arith, s.start, below_top)) (line_pos w t s) in
        let whole : suc before ≡ s.first = omega arith in
        let back : before * line + line ≡ s.first * line =
          omega (arith, ap (λ n. n * line) whole) in
        Moves-of (scroll_up-eq w t s (ground arith)) (
          moved (t.viewport_start - line) before (omega (arith, s.start, back))
            (omega (arith, s.shown)))
  ]

  pub scroll_down-Moves : Moves w t t.x_pos (scroll_down t false)
  unfolding scroll_down
  scroll_down-Moves =
      elim (Bool-cases (leb (t.viewport_start + line + length t.buffer) (length t.viewport))) [
        | inr bottom ↦
            Moves-of (rw (scroll_down, bottom) refl)
              (record { next = t; returned = refl; screen = s; same_info = refl; at = refl })
        | inl above ↦
            let room : suc s.first + s.height ≤ s.count =
              le_of_mul-le-mul_right {k = line}
                (ground (arith, above, s.start, s.buffer_len, s.viewport_len)) (line_pos w t s) in
            Moves-of (scroll_down-eq t (ground arith))
              (moved (t.viewport_start + line) (suc s.first) (omega (arith, s.start)) room)
      ]
