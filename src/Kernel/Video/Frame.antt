-- ===== src/Kernel/Video/Frame.antt =====
-- Which bytes the functions of the driver store to.
use tp_so.Base.{
  ℕ, zero, suc, ◌+◌, ◌*◌, ◌≤◌, ◌<◌, ◌≡◌, ◌⊎◌, refl, ◌∙◌, Bool, true, false, List, [], ◌∷◌, length,
  if◌then◌else◌, arith,
}
use tp_so.Kernel.Bytes.{Bytes}
use tp_so.Kernel.Video.{Color, Screen, put_color, draw_row, bytes_per_pixel}
use tp_so.Kernel.Video.Text.{draw_bit, draw_last_bit, draw_bits, masks, has_bit, draw_pixel_line}

-- The bytes outside of the bounds are the same.
abbrev pub Within : ℕ → ℕ → Bytes → Bytes → Type 0
Within lo hi m m1 = (a : ℕ) → (a < lo) ⊎ (hi ≤ a) → m1 a ≡ m a

-- The byte behind the screen.
abbrev pub frame_end : Screen → ℕ
frame_end s = s.framebuffer + bytes_per_pixel * (s.width * s.height)

-- Pixels of a row that is on the screen are in the frame buffer.
pub row-below : (x y n w h : ℕ) → x + n ≤ w → y < h → (x + y * w) + n ≤ w * h
row-below x y n w h i j = let e : suc y * w ≤ h * w = grind arith in grind (arith, e)

module _ (lo hi : ℕ) where
  pub put_color-Within :
      (m : Bytes) (pos : ℕ) (color : Color)
      → lo ≤ pos
      → pos + 3 ≤ hi
      → Within lo hi m (put_color m pos color)
  put_color-Within m pos color i j a h = ground arith

  pub draw_row-Within :
      (m : Bytes) (ptr n : ℕ) (color : Color)
      → lo ≤ ptr
      → ptr + 3 * n ≤ hi
      → Within lo hi m (draw_row m ptr n color)
  unfolding draw_row
  draw_row-Within m ptr zero color i j a h = refl
  draw_row-Within m ptr (suc n) color i j a h =
      draw_row-Within (put_color m ptr color) (ptr + 3) n color (omega arith) (omega arith) a h
      ∙ put_color-Within m ptr color i (omega arith) a h

  set-Within :
      (set : Bool) (m : Bytes) (pos : ℕ) (color : Color)
      → lo ≤ pos
      → pos + 3 ≤ hi
      → Within lo hi m (if set then put_color m pos color else m)
  set-Within true m pos color i j a h = put_color-Within m pos color i j a h
  set-Within false m pos color i j a h = refl

  draw_bit-Within :
      (set : Bool) (color : Color) (pos w n : ℕ) (m : Bytes)
      → lo ≤ pos
      → pos + 3 * (w + n) ≤ hi
      → Within lo hi m (draw_bit set color pos w n m)
  unfolding draw_bit
  draw_bit-Within set color pos w zero m i j a h = refl
  draw_bit-Within set color pos w (suc n) m i j a h =
      draw_bit-Within set color pos (w + 1) n _ i (omega arith) a h
      ∙ set-Within set m (pos + 3 * w) color (omega arith) (omega arith) a h

  draw_bits-Within :
      (byte : ℕ) (ms : List ℕ) (color : Color) (pos w n : ℕ) (m : Bytes)
      → lo ≤ pos
      → pos + 3 * (w + length ms * n) ≤ hi
      → Within lo hi m (draw_bits byte ms color pos w n m)
  unfolding draw_bits
  draw_bits-Within byte [] color pos w n m i j a h = refl
  draw_bits-Within byte (mask ∷ ms) color pos w n m i j a h =
      let e : suc (length ms) * n ≡ n + length ms * n = omega arith in
      draw_bits-Within byte ms color pos (w + n) n _ i (omega (arith, e, j)) a h
      ∙ draw_bit-Within (has_bit byte mask) color pos w n m i (omega (arith, e, j)) a h

  draw_last_bit-Within :
      (set : Bool) (color : Color) (pos w n : ℕ) (m : Bytes)
      → lo ≤ pos
      → pos + 3 * (w + 2 * n) ≤ hi + 3
      → Within lo hi m (draw_last_bit set color pos w n m)
  unfolding draw_last_bit
  draw_last_bit-Within set color pos w zero m i j a h = refl
  draw_last_bit-Within true color pos w (suc n) m i j a h =
      draw_last_bit-Within true color pos (w + 2) n _ i (omega arith) a h
      ∙ put_color-Within m (pos + 3 * w) color (omega arith) (omega arith) a h
  draw_last_bit-Within false color pos w (suc n) m i j a h =
      draw_last_bit-Within false color pos (w + 1) n _ i (omega arith) a h

  -- A line of pixels of a character is ten times as wide as a pixel of the font, less one pixel.
  pub draw_pixel_line-Within :
      (left right : ℕ) (s : Screen) (pos : ℕ) (m : Bytes)
      → 0 < s.font_size
      → lo ≤ pos
      → pos + 3 * (10 * s.font_size) ≤ hi + 3
      → Within lo hi m (draw_pixel_line left right s pos m)
  unfolding draw_pixel_line
  draw_pixel_line-Within left right s pos m some i j a h =
      draw_last_bit-Within (has_bit right 1) s.pen_color pos (8 * s.font_size) s.font_size _ i
        (omega arith) a h
      ∙ draw_bits-Within left masks s.pen_color pos 0 s.font_size m i (omega arith) a h
