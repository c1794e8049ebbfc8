-- ===== src/Kernel/Video.antt =====
-- Kernel/drivers/video.c: the screen in graphics mode, as bytes of memory from `framebuffer` on, and the
-- pen that writes on it. `scrDrawLine` works with floating point numbers.
pub mod Text
pub mod Frame
pub mod Scroll
pub mod Pen
pub mod Print
pub mod Rect
pub mod Backspace
use Prim.Native.Nat.{bit_and}
use tp_so.Base.{
  ℕ, zero, suc, ◌+◌, ◌-◌, ◌*◌, ◌%◌, ◌^◌, Bool, true, false, not, ◌&&◌, ◌||◌, List, [], ◌∷◌, ltb,
  leb, ◌==◌, if◌then◌else◌,
}
use tp_so.Kernel.{update}
use tp_so.Kernel.Bytes.{Bytes, memset, memcpy}

-- `CHAR_WIDTH`, `CHAR_HEIGHT`, `FIRST_CHAR`, `LAST_CHAR`, `bytesPerPixel`
abbrev pub char_width : ℕ
char_width = 9

abbrev pub char_height : ℕ
char_height = 16

abbrev pub first_char : ℕ
first_char = 33

abbrev pub last_char : ℕ
last_char = 126

abbrev pub bytes_per_pixel : ℕ
bytes_per_pixel = 3

-- `Color`
pub record Color : Type 0 where
  pub b : ℕ
  pub g : ℕ
  pub r : ℕ

abbrev pub black : Color
black = record { b = 0; g = 0; r = 0 }

-- What the driver keeps, and of `screenData` the fields that it reads.
pub record Screen : Type 0 where
  pub width : ℕ
  pub height : ℕ
  pub framebuffer : ℕ
  pub memory : Bytes
  pub pen_x : ℕ
  pub pen_y : ℕ
  pub pen_color : Color
  pub font_size : ℕ

-- `getPtrToPixel`
abbrev pub get_ptr_to_pixel : Screen → ℕ → ℕ → ℕ
get_ptr_to_pixel s x y = s.framebuffer + bytes_per_pixel * (x + y * s.width)

-- `*pos = color`
abbrev pub put_color : Bytes → ℕ → Color → Bytes
put_color m pos color = update (update (update m pos color.b) (pos + 1) color.g) (pos + 2) color.r

-- The loop of `scrClear`
pub clear_bytes : Bytes → ℕ → ℕ → Bytes
clear_bytes m pos zero = m
clear_bytes m pos (suc length) = clear_bytes (update m pos 0) (pos + 1) length

-- `scrClear`
pub scr_clear : Screen → Screen
scr_clear s =
    let length = (bytes_per_pixel * s.width * s.height) % 2 ^ 32 in
    record s { memory = clear_bytes s.memory s.framebuffer length; pen_x = 0; pen_y = 0 }

-- `scrSetPixel`
pub scr_set_pixel : Screen → ℕ → ℕ → Color → Screen
scr_set_pixel s x y color =
    if leb s.width x || leb s.height y
    then s
    else record s { memory = put_color s.memory (get_ptr_to_pixel s x y) color }

-- The loops of `scrDrawRect`: a row of `width` pixels from `ptr` on, and `height` rows, `adv` pixels apart.
pub draw_row : Bytes → ℕ → ℕ → Color → Bytes
draw_row m ptr zero color = m
draw_row m ptr (suc width) color =
    draw_row (put_color m ptr color) (ptr + bytes_per_pixel) width color

pub draw_rows : Bytes → ℕ → ℕ → ℕ → ℕ → Color → Bytes
draw_rows m ptr width adv zero color = m
draw_rows m ptr width adv (suc height) color =
    draw_rows (draw_row m ptr width color) (ptr + bytes_per_pixel * width + bytes_per_pixel * adv)
      width adv height color

-- `scrDrawRect`
pub scr_draw_rect : Screen → ℕ → ℕ → ℕ → ℕ → Color → Screen
scr_draw_rect s x y width height color =
    let max_width = s.width - x in
    let max_height = s.height - y in
    let w = (if ltb max_width width then max_width else width) in
    let h = (if ltb max_height height then max_height else height) in
    if leb s.width x || leb s.height y
    then s
    else record s { memory = draw_rows s.memory (get_ptr_to_pixel s x y) w (s.width - w) h color }

-- `scrSetPenPosition`
pub scr_set_pen_position : Screen → ℕ → ℕ → Screen
scr_set_pen_position s x y =
    let max_x = (s.width + 2 ^ 16 - char_width * s.font_size) % 2 ^ 16 in
    let max_y = (s.height + 2 ^ 16 - char_height * s.font_size) % 2 ^ 16 in
    record s {
      pen_x = (if ltb x max_x then x else max_x);
      pen_y = (if ltb y max_y then y else max_y);
    }

-- `scrSetPenColor`
abbrev pub scr_set_pen_color : Screen → Color → Screen
scr_set_pen_color s color = record s { pen_color = color }

-- The screen moves up by a line of characters, and the last line is cleared.
pub scroll : Screen → Screen
scroll s =
    let line = char_height * s.font_size in
    let rest = (s.height + 2 ^ 64 - line) % 2 ^ 64 in
    let length = (bytes_per_pixel * (s.width * rest)) % 2 ^ 64 in
    let moved =
      memcpy s.memory s.framebuffer (s.framebuffer + bytes_per_pixel * (line * s.width)) length in
    record s {
      memory =
          memset moved ((s.framebuffer + length) % 2 ^ 64) 0
            (bytes_per_pixel * s.width * char_height * s.font_size);
    }

-- `scrPrintNewline`
pub scr_print_newline : Screen → Screen
scr_print_newline s =
    let s1 = record s { pen_x = 0 } in
    if leb (s.pen_y + 2 * char_height * s.font_size) s.height
    then record s1 { pen_y = (s.pen_y + char_height * s.font_size) % 2 ^ 16 }
    else scroll s1

-- The loops of `scrBackspace`, with the number of rounds that are left.
pub blacken_rows : Screen → ℕ → ℕ → Bytes → Bytes
blacken_rows s h zero m = m
blacken_rows s h (suc rows) m = blacken_rows s (h + 1) rows (
    draw_row m (get_ptr_to_pixel s s.pen_x ((s.pen_y + h) % 2 ^ 16)) (char_width * s.font_size)
      black)

-- `scrBackspace`; its first test compares an unsigned number with 0 and never holds.
pub scr_backspace : Screen → Screen
scr_backspace s =
    let w = char_width * s.font_size in
    let h = char_height * s.font_size in
    let s1 =
      (if ltb s.pen_x w
        then record s {
          pen_x = (s.width + 2 ^ 16 - w) % 2 ^ 16;
          pen_y = (s.pen_y + 2 ^ 16 - h) % 2 ^ 16;
        }
        else record s { pen_x = s.pen_x - w }) in
    record s1 { memory = blacken_rows s1 0 h s1.memory }

-- What `scrPrint` returns.
abbrev pub pen_position : Screen → ℕ
pen_position s = s.pen_x + s.pen_y * 2 ^ 16

-- `scrChangeFont`
pub scr_change_font : Screen → ℕ → Screen
scr_change_font s new_size =
    if ltb 0 new_size && ltb new_size 6 then record s { font_size = new_size } else s
