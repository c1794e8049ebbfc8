-- ===== src/Kernel/Video/Text.antt =====
-- Kernel/drivers/video.c: what `scrPrintChar` and `scrPrint` draw.
use Prim.Native.Nat.{bit_and}
use tp_so.Base.{
  ℕ, zero, suc, ◌+◌, ◌-◌, ◌*◌, ◌%◌, ◌^◌, Bool, not, ◌&&◌, List, [], ◌∷◌, ltb, leb, ◌==◌,
  if◌then◌else◌,
}
use tp_so.Kernel.Bytes.{Bytes}
use tp_so.Kernel.Video.{
  Color, Screen, char_width, char_height, first_char, last_char, bytes_per_pixel, get_ptr_to_pixel,
  put_color, scr_set_pen_color, scr_print_newline, scr_backspace,
}

-- The loops of `scrPrintChar` over one bit of the font, `n` times as wide.
unfoldable pub draw_bit : Bool → Color → ℕ → ℕ → ℕ → Bytes → Bytes
draw_bit set color pos w zero m = m
draw_bit set color pos w (suc n) m =
    draw_bit set color pos (w + 1) n
      (if set then put_color m (pos + bytes_per_pixel * w) color else m)

-- The loop over the ninth bit counts up twice where the bit is set.
unfoldable pub draw_last_bit : Bool → Color → ℕ → ℕ → ℕ → Bytes → Bytes
draw_last_bit set color pos w zero m = m
draw_last_bit set color pos w (suc n) m =
    draw_last_bit set color pos (if set then w + 2 else w + 1) n
      (if set then put_color m (pos + bytes_per_pixel * w) color else m)

abbrev pub has_bit : ℕ → ℕ → Bool
has_bit byte mask = not (bit_and byte mask == 0)

unfoldable pub draw_bits : ℕ → List ℕ → Color → ℕ → ℕ → ℕ → Bytes → Bytes
draw_bits byte [] color pos w n m = m
draw_bits byte (mask ∷ masks) color pos w n m =
    draw_bits byte masks color pos (w + n) n (draw_bit (has_bit byte mask) color pos w n m)

abbrev pub masks : List ℕ
masks = 0b1 ∷ 0b10 ∷ 0b100 ∷ 0b1000 ∷ 0b10000 ∷ 0b100000 ∷ 0b1000000 ∷ 0b10000000 ∷ []

-- A line of pixels: two bytes of the font.
unfoldable pub draw_pixel_line : ℕ → ℕ → Screen → ℕ → Bytes → Bytes
draw_pixel_line left right s pos m =
    let n = s.font_size in
    draw_last_bit (has_bit right 0b1) s.pen_color pos (8 * n) n
      (draw_bits left masks s.pen_color pos 0 n m)

-- The end of `scrPrintChar`: the pen is moved on.
unfoldable pub advance : Screen → Screen
advance s =
    let s1 = record s { pen_x = (s.pen_x + char_width * s.font_size) % 2 ^ 16 } in
    if ltb s.width (s1.pen_x + char_width * s.font_size) then scr_print_newline s1 else s1

-- `font` of include/font.h: 32 bytes for each character.
module _ (font : ℕ → ℕ) where
  -- The loops of `scrPrintChar` over the copies of a line of pixels, one above the other, and over the
  -- lines of a character, with the number of rounds that are left.
  unfoldable pub draw_copies : Screen → ℕ → ℕ → ℕ → ℕ → Bytes → Bytes
  draw_copies s at h j zero m = m
  draw_copies s at h j (suc rows) m =
      let y = (s.pen_y + h + h * (s.font_size - 1) + 2 ^ 16 - j) % 2 ^ 16 in
      draw_copies s at h (j + 1) rows
        (draw_pixel_line (font at) (font (at + 1)) s (get_ptr_to_pixel s s.pen_x y) m)

  unfoldable pub draw_lines : Screen → ℕ → ℕ → ℕ → Bytes → Bytes
  draw_lines s at h zero m = m
  draw_lines s at h (suc lines) m =
      draw_lines s (at + 2) (h + 1) lines (draw_copies s at h 0 s.font_size m)

  -- What `scrPrintChar` draws.
  unfoldable pub draw_char : Screen → ℕ → Screen
  draw_char s c =
      if leb first_char c && leb c last_char
      then record s { memory = draw_lines s (32 * (c - first_char)) 0 char_height s.memory }
      else s

  -- `scrPrintChar`, for a character other than a newline, a backspace and a tabulator.
  abbrev pub print_drawn : Screen → ℕ → Screen
  print_drawn s c = advance (draw_char s c)

  -- `scrPrintChar`
  unfoldable pub scr_print_char : Screen → ℕ → Screen
  scr_print_char s c =
      if c == b'\n'
      then scr_print_newline s
      else if c == 8
      then scr_backspace s
      else if c == b'\t'
      then print_drawn (print_drawn (print_drawn s b' ') b' ') b' '
      else print_drawn s c

  -- `scrPrint`, of the bytes in front of the zero byte
  unfoldable pub scr_print : Screen → List ℕ → Screen
  scr_print s [] = s
  scr_print s (c ∷ cs) = scr_print (scr_print_char s c) cs

  -- `scrPrintStringWithColor`
  pub scr_print_string_with_color : Screen → List ℕ → Color → Screen
  scr_print_string_with_color s str color =
      scr_set_pen_color (scr_print (scr_set_pen_color s color) str) s.pen_color

  -- `scrPrintCharWithColor`
  pub scr_print_char_with_color : Screen → ℕ → Color → Screen
  scr_print_char_with_color s c color =
      scr_set_pen_color (scr_print_char (scr_set_pen_color s color) c) s.pen_color
