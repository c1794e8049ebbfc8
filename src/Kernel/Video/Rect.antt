-- ===== src/Kernel/Video/Rect.antt =====
-- `scrDrawRect` colors the pixels of the rectangle that are on the screen, and no others.
use tp_so.Base.{
  ℕ, zero, suc, ◌+◌, ◌-◌, ◌*◌, ◌≤◌, ◌<◌, ◌≡◌, inl, inr, refl, ap, ◌∙◌, Bool, ◌&&◌, ◌||◌, true,
  false, ltb, leb, ◌==◌, if◌then◌else◌, arith, Bool-cases, dec_lt,
}
use tp_so.Kernel.Bytes.{Bytes}
use tp_so.Kernel.Video.Frame.{Within, frame_end, row-below, draw_row-Within}
use tp_so.Kernel.Video.{Color, Screen, put_color, draw_row, draw_rows, scr_draw_rect}

-- The color that stands at a pixel of the memory, counted from the first of the frame buffer.
abbrev pub color_at : Bytes → ℕ → ℕ → Color
color_at m fb i = record { b = m (fb + 3 * i); g = m (fb + 3 * i + 1); r = m (fb + 3 * i + 2) }

abbrev pub pixel : Screen → ℕ → ℕ → Color
pixel s x y = color_at s.memory s.framebuffer (x + y * s.width)

color-eq : (c d : Color) → c.b ≡ d.b → c.g ≡ d.g → c.r ≡ d.r → c ≡ d
color-eq c d e f g = λ i. record { b = e i; g = f i; r = g i }

put_color-color_at :
    (m : Bytes) (fb p i : ℕ) (c : Color)
    → color_at (put_color m (fb + 3 * p) c) fb i ≡ (if p == i then c else color_at m fb i)
put_color-color_at m fb p i c = elim (Bool-cases (p == i)) [
  | inl e ↦ rw e (
      color-eq (color_at (put_color m (fb + 3 * p) c) fb i) c (ground (arith, e))
        (ground (arith, e)) (ground (arith, e)))
  | inr e ↦ rw e (
      color-eq (color_at (put_color m (fb + 3 * p) c) fb i) (color_at m fb i) (ground (arith, e))
        (ground (arith, e)) (ground (arith, e)))
]

pick-next :
    (p n i : ℕ) (c d old : Color)
    → d ≡ (if p == i then c else old)
    → (if leb (p + 1) i && ltb i (p + 1 + n) then c else d)
      ≡ (if leb p i && ltb i (p + suc n) then c else old)
pick-next p n i c d old h = rw h (ground arith)

pick-row :
    (b : Bool) (y n py : ℕ) (c d old : Color)
    → d ≡ (if b && (y == py) then c else old)
    → (if b && leb (suc y) py && ltb py (suc y + n) then c else d)
      ≡ (if b && leb y py && ltb py (y + suc n) then c else old)
pick-row true y n py c d old h = rw h (ground arith)
pick-row false y n py c d old h = h

draw_row-color_at :
    (m : Bytes) (fb p n i : ℕ) (c : Color)
    → color_at (draw_row m (fb + 3 * p) n c) fb i
      ≡ (if leb p i && ltb i (p + n) then c else color_at m fb i)
unfolding draw_row
draw_row-color_at m fb p zero i c = ground arith
draw_row-color_at m fb p (suc n) i c =
    let next : fb + 3 * p + 3 ≡ fb + 3 * (p + 1) = omega arith in
    let m1 = put_color m (fb + 3 * p) c in
    let here = put_color-color_at m fb p i c in
    rw next (
      draw_row-color_at m1 fb (p + 1) n i c
      ∙ pick-next p n i c (color_at m1 fb i) (color_at m fb i) here)

-- A pixel of a row is one of those drawn in that row.
rows-apart : (y py W : ℕ) → y < py → y * W + W ≤ py * W
rows-apart y py W h = let e : suc y * W ≤ py * W = grind arith in grind (arith, e)

same-row :
    (x y w px py W : ℕ)
    → x + w ≤ W
    → px < W
    → (leb (x + y * W) (px + py * W) && ltb (px + py * W) (x + y * W + w))
      ≡ (leb x px && ltb px (x + w) && (y == py))
same-row x y w px py W h i = elim (dec_lt y py) [
  | yes j ↦ ground (arith, rows-apart y py W j)
  | no j ↦ elim (dec_lt py y) [
    | yes k ↦ ground (arith, rows-apart py y W k)
    | no k ↦ let e : y ≡ py = omega (arith, j, k) in rw e (ground arith)
  ]
]

-- The rows of the loop, the first of which is row `y`.
module _ (fb W x w adv : ℕ) (c : Color) (room : x + w ≤ W) (whole : w + adv ≡ W) where
  draw_rows-color_at :
      (m : Bytes) (y n px py : ℕ)
      → px < W
      → color_at (draw_rows m (fb + 3 * (x + y * W)) w adv n c) fb (px + py * W) ≡ (
          if leb x px && ltb px (x + w) && leb y py && ltb py (y + n)
          then c
          else color_at m fb (px + py * W))
  unfolding draw_rows
  draw_rows-color_at m y zero px py i = ground arith
  draw_rows-color_at m y (suc n) px py i =
      let next : fb + 3 * (x + y * W) + 3 * w + 3 * adv ≡ fb + 3 * (x + suc y * W) =
        grind (arith, whole) in
      let m1 = draw_row m (fb + 3 * (x + y * W)) w c in
      let here =
        draw_row-color_at m fb (x + y * W) w (px + py * W) c
        ∙ ap (λ (t : Bool). if t then c else color_at m fb (px + py * W))
            (same-row x y w px py W room i) in
      rw next (
        draw_rows-color_at m1 (suc y) n px py i
        ∙ pick-row (leb x px && ltb px (x + w)) y n py c (color_at m1 fb (px + py * W))
            (color_at m fb (px + py * W)) here)

  draw_rows-Within :
      (H : ℕ) (m : Bytes) (y n : ℕ)
      → y + n ≤ H
      → Within fb (fb + 3 * (W * H)) m (draw_rows m (fb + 3 * (x + y * W)) w adv n c)
  unfolding draw_rows
  draw_rows-Within H m y zero i a k = refl
  draw_rows-Within H m y (suc n) i a k =
      let next : fb + 3 * (x + y * W) + 3 * w + 3 * adv ≡ fb + 3 * (x + suc y * W) =
        grind (arith, whole) in
      rw next (
        draw_rows-Within H (draw_row m (fb + 3 * (x + y * W)) w c) (suc y) n (omega arith) a k
        ∙ draw_row-Within fb (fb + 3 * (W * H)) m (fb + 3 * (x + y * W)) w c (omega arith)
            (omega (arith, row-below x y w W H room (omega arith))) a k)

off-screen :
    (s : Screen) (x y w h px py : ℕ)
    → px < s.width
    → py < s.height
    → (leb s.width x || leb s.height y) ≡ true
    → (leb x px && ltb px (x + w) && leb y py && ltb py (y + h)) ≡ false
off-screen s x y w h px py i j e = ground (arith, i, j, e)

-- A rectangle that is cut off at the edges of the screen has the same pixels on it.
cut-rect :
    (x w W px y h H py : ℕ)
    → px < W
    → py < H
    → (leb x px
        && ltb px (x + (if ltb (W - x) w then W - x else w))
        && leb y py
        && ltb py (y + (if ltb (H - y) h then H - y else h)))
      ≡ (leb x px && ltb px (x + w) && leb y py && ltb py (y + h))
cut-rect x w W px y h H py i j = ground arith

-- `scrDrawRect` gives the color to each pixel of the screen that is in the rectangle, leaves the other
-- pixels of the screen as they are, and changes no byte outside of the frame buffer.
pub scr_draw_rect_lem :
    (s : Screen) (x y w h : ℕ) (c : Color)
    → ((px py : ℕ)
        → px < s.width
        → py < s.height
        → pixel (scr_draw_rect s x y w h c) px py
          ≡ (if leb x px && ltb px (x + w) && leb y py && ltb py (y + h) then c else pixel s px py))
      × Within s.framebuffer (frame_end s) s.memory (scr_draw_rect s x y w h c).memory
unfolding scr_draw_rect
scr_draw_rect_lem s x y w h c = elim (Bool-cases (leb s.width x || leb s.height y)) [
  | inl e ↦ rw e (λ px py i j. rw (off-screen s x y w h px py i j e) refl, λ a k. refl)
  | inr e ↦
      let w1 = (if ltb (s.width - x) w then s.width - x else w) in
      let h1 = (if ltb (s.height - y) h then s.height - y else h) in
      let room : x + w1 ≤ s.width = ground (arith, e) in
      let whole : w1 + (s.width - w1) ≡ s.width = omega (arith, room) in
      rw e (
        λ px py i j.
            draw_rows-color_at s.framebuffer s.width x w1 (s.width - w1) c room whole s.memory y h1
              px py i
            ∙ ap (λ (t : Bool). if t then c else pixel s px py)
                (cut-rect x w s.width px y h s.height py i j),
        draw_rows-Within s.framebuffer s.width x w1 (s.width - w1) c room whole s.height s.memory y
            h1 (ground (arith, e)),
      )
]
