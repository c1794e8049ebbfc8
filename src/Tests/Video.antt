-- ===== src/Tests/Video.antt =====
-- Runs of the driver of the screen, on 20 times 40 pixels.
use tp_so.Base.{ℕ, ◌+◌, ◌%◌, ◌≤◌, ◌<◌, ◌≡◌, refl, [], ◌∷◌, arith, if◌then◌else◌, leb, ltb, ◌&&◌}
use tp_so.Kernel.Video.{Color, Screen, scr_draw_rect, scroll, scr_backspace}
use tp_so.Kernel.Video.Text.{scr_print}
use tp_so.Kernel.Video.Frame.{Within, frame_end}
use tp_so.Kernel.Video.Rect.{pixel, scr_draw_rect_lem}
use tp_so.Kernel.Video.Scroll.{scroll_moves, last_line, line_bytes}
use tp_so.Kernel.Video.Pen.{Draws, Ready}
use tp_so.Kernel.Video.Print.{NoBackspace, scr_print-Draws}
use tp_so.Kernel.Video.Backspace.{wrapped, scr_backspace_leaves}

abbrev blue : Color
blue = record { b = 255; g = 0; r = 0 }

abbrev screen : Screen
screen = record {
  width = 20;
  height = 40;
  framebuffer = 0x10000;
  memory = λ a. a % 256;
  pen_x = 5;
  pen_y = 10;
  pen_color = blue;
  font_size = 1;
}

screen-Ready : Ready screen
screen-Ready = record {
  smallest = refl;
  room_right = omega arith;
  room_below = omega arith;
  width_16 = omega arith;
  height_16 = omega arith;
  frame_32 = omega arith;
}

abbrev slanted : ℕ → ℕ
slanted a = a % 256

scr_draw_rect_lem_example :
    ((px py : ℕ)
      → px < screen.width
      → py < screen.height
      → pixel (scr_draw_rect screen 15 3 10 2 blue) px py ≡ (
          if leb 15 px && ltb px (15 + 10) && leb 3 py && ltb py (3 + 2)
          then blue
          else pixel screen px py))
    × Within screen.framebuffer
        (frame_end screen)
        screen.memory
        (scr_draw_rect screen 15 3 10 2 blue).memory
scr_draw_rect_lem_example = scr_draw_rect_lem screen 15 3 10 2 blue

scroll_moves_example : (scroll screen).memory 0x10000 ≡ (
    if leb 0x10000 0x10000 && ltb 0x10000 (last_line screen)
    then (0x10000 + line_bytes screen) % 256
    else if leb (last_line screen) 0x10000 && ltb 0x10000 (frame_end screen)
    then 0
    else 0x10000 % 256)
scroll_moves_example =
    scroll_moves screen (omega arith) (omega arith) (omega arith) (omega arith) 0x10000

scr_print-Draws_example :
    Draws screen (scr_print slanted screen (b'a' ∷ b'\t' ∷ b'b' ∷ []))
    × Ready (scr_print slanted screen (b'a' ∷ b'\t' ∷ b'b' ∷ []))
unfolding NoBackspace
scr_print-Draws_example =
    scr_print-Draws slanted screen (b'a' ∷ b'\t' ∷ b'b' ∷ []) screen-Ready (omega arith)

scr_backspace_leaves_example :
    (frame_end screen ≤ wrapped screen) × ((scr_backspace screen).memory (wrapped screen) ≡ 0)
scr_backspace_leaves_example =
    scr_backspace_leaves screen screen-Ready (omega arith) (omega arith) (omega arith)
