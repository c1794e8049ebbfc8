-- ===== src/Kernel/Video/Scroll.antt =====
-- The scrolling of `scrPrintNewline`.
use tp_so.Base.{
  ℕ, ◌+◌, ◌-◌, ◌*◌, ◌%◌, ◌^◌, ◌≤◌, ◌<◌, ◌≡◌, refl, sym, ap, ◌&&◌, ltb, leb, if◌then◌else◌, arith,
}
use tp_so.Kernel.Bytes.{Bytes, memset, memcpy}
use tp_so.Kernel.Bytes.Copy.{memcpy-Copied, memset-Filled}
use tp_so.Kernel.Video.{Screen, scroll, char_height, bytes_per_pixel}
use tp_so.Kernel.Video.Frame.{frame_end}

-- A line of characters, in pixels, and where the last one of the screen begins.
abbrev pub line_height : Screen → ℕ
line_height s = char_height * s.font_size

abbrev pub line_bytes : Screen → ℕ
line_bytes s = bytes_per_pixel * (line_height s * s.width)

abbrev pub last_line : Screen → ℕ
last_line s = s.framebuffer + bytes_per_pixel * (s.width * (s.height - line_height s))

product-lt : (a b : ℕ) → a < 2 ^ 16 → b < 2 ^ 16 → a * b < 2 ^ 32
product-lt a b h i = let e : a * b ≤ a * 65535 = grind arith in omega (arith, e, h)

split-eq : (w h l : ℕ) → l ≤ h → w * h ≡ w * (h - l) + l * w
split-eq w h l i =
    let e : h ≡ (h - l) + l = omega (arith, i) in grind (arith, ap (λ (t : ℕ). w * t) e)

moved-from : (m : Bytes) (fb k a : ℕ) → fb ≤ a → m (fb + k + (a - fb)) ≡ m (a + k)
moved-from m fb k a h = let e : fb + k + (a - fb) ≡ a + k = omega (arith, h) in ap m e

-- A copy to the front and a fill behind it.
moved-filled :
    (m : Bytes) (fb k n : ℕ)
    → (a : ℕ)
    → memset (memcpy m fb (fb + k) n) (fb + n) 0 k a ≡ (
        if leb fb a && ltb a (fb + n)
        then m (a + k)
        else if leb (fb + n) a && ltb a (fb + n + k)
        then 0
        else m a)
moved-filled m fb k n a =
    let set = memset-Filled (memcpy m fb (fb + k) n) (fb + n) 0 k (omega arith) a in
    let copied = memcpy-Copied m fb (fb + k) n (omega arith) a in
    ground (arith, set, copied, moved-from m fb k a)

module _ (s : Screen) (wide : s.width < 2 ^ 16) (high : s.height < 2 ^ 16)
    (low : s.framebuffer < 2 ^ 32) (line : line_height s ≤ s.height) where
  rest-eq : (s.height + 2 ^ 64 - line_height s) % 2 ^ 64 ≡ s.height - line_height s
  rest-eq = omega (arith, high, line)

  length-eq :
      (bytes_per_pixel * (s.width * (s.height - line_height s))) % 2 ^ 64
      ≡ bytes_per_pixel * (s.width * (s.height - line_height s))
  length-eq =
      omega (arith, product-lt s.width (s.height - line_height s) wide (omega (arith, high)))

  start-eq :
      (s.framebuffer + bytes_per_pixel * (s.width * (s.height - line_height s))) % 2 ^ 64
      ≡ last_line s
  start-eq =
      omega (arith, low, product-lt s.width (s.height - line_height s) wide (omega (arith, high)))

  cleared-eq : bytes_per_pixel * s.width * char_height * s.font_size ≡ line_bytes s
  cleared-eq = grind arith

  pub end-eq : last_line s + line_bytes s ≡ frame_end s
  end-eq = let f = split-eq s.width s.height (line_height s) line in omega (arith, f)

  scroll-eq :
      (scroll s).memory
      ≡ memset
          (memcpy s.memory s.framebuffer
            (s.framebuffer + line_bytes s)
            (bytes_per_pixel * (s.width * (s.height - line_height s))))
          (last_line s)
          0
          (line_bytes s)
  unfolding scroll
  scroll-eq = rw (rest-eq, length-eq, start-eq, cleared-eq) refl

  -- Where the screen is at least as high as a line of characters, what is below the first line moves to
  -- the top, the last line is cleared, and no byte outside of the frame buffer is changed.
  pub scroll_moves :
      (a : ℕ)
      → (scroll s).memory a ≡ (
          if leb s.framebuffer a && ltb a (last_line s)
          then s.memory (a + line_bytes s)
          else if leb (last_line s) a && ltb a (frame_end s)
          then 0
          else s.memory a)
  scroll_moves a =
      rw (scroll-eq, sym end-eq)
        (moved-filled s.memory s.framebuffer (line_bytes s)
          (bytes_per_pixel * (s.width * (s.height - line_height s))) a)
