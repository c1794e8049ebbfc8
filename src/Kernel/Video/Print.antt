-- ===== src/Kernel/Video/Print.antt =====
-- What `scrPrint` draws is on the screen, in the smallest font.
use tp_so.Base.{
  ℕ, zero, suc, ◌+◌, ◌-◌, ◌*◌, ◌%◌, ◌^◌, ◌≤◌, ◌<◌, ◌≡◌, ◌≢◌, inl, inr, refl, ap, ◌∙◌, false, ◌&&◌,
  List, [], ◌∷◌, leb, ◌==◌, arith, Bool-cases,
}
use tp_so.Kernel.Bytes.{Bytes}
use tp_so.Kernel.Video.{Screen, get_ptr_to_pixel, char_width, char_height, first_char, last_char}
use tp_so.Kernel.Video.Text.{
  draw_copies, draw_lines, draw_char, print_drawn, scr_print_char, scr_print,
}
use tp_so.Kernel.Video.Frame.{Within, frame_end, row-below, draw_pixel_line-Within}
use tp_so.Kernel.Video.Pen.{Draws, Ready, Draws-refl, Draws-trans, Good, newline-Good, advance-Good}

module _ (font : ℕ → ℕ) (s : Screen) (r : Ready s) where
  line_at :
      (h : ℕ)
      → h < char_height
      → (s.pen_y + h + h * (s.font_size - 1) + 2 ^ 16 - 0) % 2 ^ 16 ≡ s.pen_y + h
  line_at h i =
      let z : h * (s.font_size - 1) ≡ 0 =
        let e : s.font_size - 1 ≡ 0 = omega (arith, r.smallest) in
        omega (arith, ap (λ (t : ℕ). h * t) e) in
      omega (arith, z, r.room_below, r.height_16)

  draw_copies-Within :
      (at h rows : ℕ) (m : Bytes)
      → rows ≡ 1
      → h < char_height
      → Within s.framebuffer (frame_end s) m (draw_copies font s at h 0 rows m)
  unfolding draw_copies
  draw_copies-Within at h zero m e i a k = absurd (omega arith)
  draw_copies-Within at h (suc (suc rows)) m e i a k = absurd (omega arith)
  draw_copies-Within at h (suc zero) m e i a k = rw (line_at h i) (
      draw_pixel_line-Within s.framebuffer (frame_end s) (font at) (font (at + 1)) s
        (get_ptr_to_pixel s s.pen_x (s.pen_y + h)) m (omega (arith, r.smallest)) (omega arith)
        (omega (
          arith,
          r.smallest,
          row-below s.pen_x (s.pen_y + h) char_width s.width s.height r.room_right
              (omega (arith, i, r.room_below)),
        ))
        a k)

  draw_lines-Within :
      (at h lines : ℕ) (m : Bytes)
      → h + lines ≤ char_height
      → Within s.framebuffer (frame_end s) m (draw_lines font s at h lines m)
  unfolding draw_lines
  draw_lines-Within at h zero m i a k = refl
  draw_lines-Within at h (suc lines) m i a k =
      draw_lines-Within (at + 2) (h + 1) lines _ (omega arith) a k
      ∙ draw_copies-Within at h s.font_size m r.smallest (omega arith) a k

  draw_char-Draws : (c : ℕ) → Draws s (draw_char font s c) × Ready (draw_char font s c)
  unfolding draw_char
  draw_char-Draws c = elim (Bool-cases (leb first_char c && leb c last_char)) [
    | inl e ↦ rw e (
      record {
        same_width = refl;
        same_height = refl;
        same_frame = refl;
        same_font = refl;
        same_color = refl;
        only = draw_lines-Within (32 * (c - first_char)) 0 char_height s.memory (omega arith);
      },
      record {
        smallest = r.smallest;
        room_right = r.room_right;
        room_below = r.room_below;
        width_16 = r.width_16;
        height_16 = r.height_16;
        frame_32 = r.frame_32;
      },
    )
    | inr e ↦ rw e (Draws-refl s, r)
  ]

print_drawn-Good : (font : ℕ → ℕ) (s : Screen) (c : ℕ) → Ready s → Good s (print_drawn font s c)
print_drawn-Good font s c r =
    let drawn = draw_char-Draws font s r c in
    let moved = advance-Good (draw_char font s c) drawn.1 in
    (Draws-trans s _ _ drawn.0 moved.0, moved.1)

-- No byte of the text is a backspace.
unfoldable pub NoBackspace : List ℕ → Type 0
NoBackspace [] = Unit
NoBackspace (c ∷ cs) = (c ≢ 8) × NoBackspace cs

module _ (font : ℕ → ℕ) where
  scr_print_char-Good : (s : Screen) (c : ℕ) → Ready s → c ≢ 8 → Good s (scr_print_char font s c)
  unfolding scr_print_char
  scr_print_char-Good s c r h = elim (Bool-cases (c == b'\n')) [
    | inl e ↦ rw e (newline-Good s r)
    | inr e ↦
        let other : (c == 8) ≡ false = ground (arith, h) in
        elim (Bool-cases (c == b'\t')) [
          | inl k ↦
              let p = print_drawn-Good font s b' ' r in
              let q = print_drawn-Good font _ b' ' p.1 in
              let t = print_drawn-Good font _ b' ' q.1 in
              rw (e, other, k) (Draws-trans s _ _ p.0 (Draws-trans _ _ _ q.0 t.0), t.1)
          | inr k ↦ rw (e, other, k) (print_drawn-Good font s c r)
        ]
  ]

  -- Where the font is the smallest and there is room for a character at the pen, `scrPrint` of a text
  -- without backspaces changes no byte outside of the frame buffer, neither the mode of the screen nor
  -- font nor color, and there is room for a character at the pen again.
  pub scr_print-Draws :
      (s : Screen) (text : List ℕ)
      → Ready s
      → NoBackspace text
      → Draws s (scr_print font s text) × Ready (scr_print font s text)
  unfolding scr_print NoBackspace
  scr_print-Draws s [] r h = (Draws-refl s, r)
  scr_print-Draws s (c ∷ cs) r h =
      let one = scr_print_char-Good s c r h.0 in
      let more = scr_print-Draws (scr_print_char font s c) cs one.1 h.1 in
      (Draws-trans s _ _ one.0 more.0, more.1)
