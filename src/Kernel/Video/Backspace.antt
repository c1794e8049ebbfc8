-- ===== src/Kernel/Video/Backspace.antt =====
-- `scrBackspace` at the top left of the screen.
use tp_so.Base.{ℕ, zero, suc, ◌+◌, ◌-◌, ◌*◌, ◌%◌, ◌^◌, ◌≤◌, ◌<◌, ◌≡◌, refl, lt→ltb, arith}
use tp_so.Kernel.Bytes.{Bytes}
use tp_so.Kernel.Video.{
  Screen, black, get_ptr_to_pixel, put_color, draw_row, blacken_rows, scr_backspace, char_width,
  char_height, bytes_per_pixel,
}
use tp_so.Kernel.Video.Frame.{frame_end}
use tp_so.Kernel.Video.Pen.{Ready}

black-keeps : (m : Bytes) (pos a : ℕ) → m a ≡ 0 → put_color m pos black a ≡ 0
black-keeps m pos a h = ground arith

draw_row-keeps : (m : Bytes) (ptr n a : ℕ) → m a ≡ 0 → draw_row m ptr n black a ≡ 0
unfolding draw_row
draw_row-keeps m ptr zero a h = h
draw_row-keeps m ptr (suc n) a h =
    draw_row-keeps (put_color m ptr black) (ptr + 3) n a (black-keeps m ptr a h)

draw_row-first : (m : Bytes) (ptr n : ℕ) → draw_row m ptr (suc n) black ptr ≡ 0
unfolding draw_row
draw_row-first m ptr n = draw_row-keeps (put_color m ptr black) (ptr + 3) n ptr (ground arith)

blacken_rows-keeps :
    (s : Screen) (h rows : ℕ) (m : Bytes) (a : ℕ) → m a ≡ 0 → blacken_rows s h rows m a ≡ 0
unfolding blacken_rows
blacken_rows-keeps s h zero m a k = k
blacken_rows-keeps s h (suc rows) m a k =
    blacken_rows-keeps s (h + 1) rows _ a (draw_row-keeps m _ _ a k)

blacken_rows-first :
    (s : Screen) (n rows ptr w : ℕ) (m : Bytes)
    → n ≡ suc rows
    → get_ptr_to_pixel s s.pen_x ((s.pen_y + 0) % 2 ^ 16) ≡ ptr
    → char_width * s.font_size ≡ suc w
    → blacken_rows s 0 n m ptr ≡ 0
unfolding blacken_rows
blacken_rows-first s n rows ptr w m k e f =
    rw (k, e, f) (blacken_rows-keeps s 1 rows _ ptr (draw_row-first m ptr w))

-- The first byte that is stored.
abbrev pub wrapped : Screen → ℕ
wrapped s =
    s.framebuffer
    + bytes_per_pixel * ((s.width - char_width) + (s.pen_y + (2 ^ 16 - char_height)) * s.width)

-- In the smallest font, where there is room for a character at the pen, but none to its left and above,
-- `scrBackspace` stores a zero behind the frame buffer, if the screen has at most 65520 rows.
pub scr_backspace_leaves :
    (s : Screen)
    → Ready s
    → s.pen_x < char_width
    → s.pen_y < char_height
    → s.height ≤ 2 ^ 16 - char_height
    → (frame_end s ≤ wrapped s) × ((scr_backspace s).memory (wrapped s) ≡ 0)
unfolding scr_backspace
scr_backspace_leaves s r left top small =
    let w = char_width * s.font_size in
    let h = char_height * s.font_size in
    let s1 : Screen = record s {
      pen_x = (s.width + 2 ^ 16 - w) % 2 ^ 16;
      pen_y = (s.pen_y + 2 ^ 16 - h) % 2 ^ 16;
    } in
    let x : s1.pen_x ≡ s.width - char_width = omega (arith, r.smallest, r.width_16, r.room_right) in
    let y : (s1.pen_y + 0) % 2 ^ 16 ≡ s.pen_y + (2 ^ 16 - char_height) =
      omega (arith, r.smallest, top) in
    let rows : s.height * s.width ≤ (s.pen_y + (2 ^ 16 - char_height)) * s.width =
      grind (arith, small) in
    (
      grind (arith, rows),
      rw (lt→ltb s.pen_x w (omega (arith, r.smallest, left))) (
          blacken_rows-first s1 h 15 (wrapped s) 8 s.memory (omega (arith, r.smallest))
            (rw (x, y) refl) (omega (arith, r.smallest))),
    )
