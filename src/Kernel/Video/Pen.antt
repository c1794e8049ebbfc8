-- ===== src/Kernel/Video/Pen.antt =====
-- The pen moves on, and the screen up, in the smallest font.
use tp_so.Base.{
  ℕ, ◌+◌, ◌*◌, ◌%◌, ◌^◌, ◌≤◌, ◌<◌, ◌≡◌, inl, inr, refl, ◌∙◌, ltb, leb, arith, Bool-cases, leb→le,
}
use tp_so.Kernel.Video.{Screen, scr_print_newline, scroll, char_width, char_height}
use tp_so.Kernel.Video.Text.{advance}
use tp_so.Kernel.Video.Scroll.{line_height, scroll_moves, end-eq}
use tp_so.Kernel.Video.Frame.{Within, frame_end}

-- The mode of the screen, the font and the pen's color are the same, and no byte outside of the frame
-- buffer is changed.
pub record Draws (s s1 : Screen) : Type 0 where
  pub same_width : s1.width ≡ s.width
  pub same_height : s1.height ≡ s.height
  pub same_frame : s1.framebuffer ≡ s.framebuffer
  pub same_font : s1.font_size ≡ s.font_size
  pub same_color : s1.pen_color ≡ s.pen_color
  pub only : Within s.framebuffer (frame_end s) s.memory s1.memory

-- There is room for a character at the pen, in the smallest font, and the sizes are those of their types.
pub record Ready (s : Screen) : Type 0 where
  pub smallest : s.font_size ≡ 1
  pub room_right : s.pen_x + char_width ≤ s.width
  pub room_below : s.pen_y + char_height ≤ s.height
  pub width_16 : s.width < 2 ^ 16
  pub height_16 : s.height < 2 ^ 16
  pub frame_32 : s.framebuffer < 2 ^ 32

pub Draws-refl : (s : Screen) → Draws s s
Draws-refl s = record {
  same_width = refl;
  same_height = refl;
  same_frame = refl;
  same_font = refl;
  same_color = refl;
  only = λ a h. refl;
}

pub Draws-trans : (s s1 s2 : Screen) → Draws s s1 → Draws s1 s2 → Draws s s2
Draws-trans s s1 s2 h k = record {
  same_width = k.same_width ∙ h.same_width;
  same_height = k.same_height ∙ h.same_height;
  same_frame = k.same_frame ∙ h.same_frame;
  same_font = k.same_font ∙ h.same_font;
  same_color = k.same_color ∙ h.same_color;
  only = λ a i. k.only a (rw (h.same_frame, h.same_width, h.same_height) i) ∙ h.only a i;
}

scroll-same :
    (s : Screen)
    → ((scroll s).width ≡ s.width)
      × ((scroll s).height ≡ s.height)
      × ((scroll s).framebuffer ≡ s.framebuffer)
      × ((scroll s).font_size ≡ s.font_size)
      × ((scroll s).pen_color ≡ s.pen_color)
      × ((scroll s).pen_x ≡ s.pen_x)
      × ((scroll s).pen_y ≡ s.pen_y)
unfolding scroll
scroll-same s = (refl, refl, refl, refl, refl, refl, refl)

scroll-Draws : (s : Screen) → Ready s → Draws s (scroll s)
scroll-Draws s r =
    let e = scroll-same s in
    let line : line_height s ≤ s.height = omega (arith, r.smallest, r.room_below) in
    record {
      same_width = e.0;
      same_height = e.1;
      same_frame = e.2;
      same_font = e.3;
      same_color = e.4;
      only = λ a h. ground (
        arith,
        scroll_moves s r.width_16 r.height_16 r.frame_32 line a,
        end-eq s r.width_16 r.height_16 r.frame_32 line,
        h,
      );
    }

scroll-Ready : (s : Screen) → Ready s → Ready (scroll s)
scroll-Ready s r =
    let e = scroll-same s in
    record {
      smallest = e.3 ∙ r.smallest;
      room_right = omega (arith, e.0, e.5, r.room_right);
      room_below = omega (arith, e.1, e.6, r.room_below);
      width_16 = omega (arith, e.0, r.width_16);
      height_16 = omega (arith, e.1, r.height_16);
      frame_32 = omega (arith, e.2, r.frame_32);
    }

-- A pen that is moved.
moved-Draws : (s : Screen) (x y : ℕ) → Draws s (record s { pen_x = x; pen_y = y })
moved-Draws s x y = record {
  same_width = refl;
  same_height = refl;
  same_frame = refl;
  same_font = refl;
  same_color = refl;
  only = λ a h. refl;
}

moved-Ready :
    (s : Screen) (x y : ℕ)
    → Ready s
    → x + char_width ≤ s.width
    → y + char_height ≤ s.height
    → Ready (record s { pen_x = x; pen_y = y })
moved-Ready s x y r i j = record {
  smallest = r.smallest;
  room_right = i;
  room_below = j;
  width_16 = r.width_16;
  height_16 = r.height_16;
  frame_32 = r.frame_32;
}

abbrev pub Good : Screen → Screen → Type 0
Good s s1 = Draws s s1 × Ready s1

pub newline-Good : (s : Screen) → Ready s → Good s (scr_print_newline s)
unfolding scr_print_newline
newline-Good s r = elim (Bool-cases (leb (s.pen_y + 2 * char_height * s.font_size) s.height)) [
  | inl e ↦
      let below : (s.pen_y + char_height * s.font_size) % 2 ^ 16 + char_height ≤ s.height =
        omega (arith, r.smallest, r.height_16, leb→le _ _ e) in
      rw e (
        moved-Draws s 0 ((s.pen_y + char_height * s.font_size) % 2 ^ 16),
        moved-Ready s 0 ((s.pen_y + char_height * s.font_size) % 2 ^ 16) r
            (omega (arith, r.room_right)) below,
      )
  | inr e ↦
      let s1 : Screen = record s { pen_x = 0 } in
      let r1 = moved-Ready s 0 s.pen_y r (omega (arith, r.room_right)) r.room_below in
      rw e (
        Draws-trans s s1 (scroll s1) (moved-Draws s 0 s.pen_y) (scroll-Draws s1 r1),
        scroll-Ready s1 r1,
      )
]

newline-pen :
    (s : Screen) (x : ℕ) → scr_print_newline (record s { pen_x = x }) ≡ scr_print_newline s
unfolding scr_print_newline
newline-pen s x = refl

pub advance-Good : (s : Screen) → Ready s → Good s (advance s)
unfolding advance
advance-Good s r =
    let x = (s.pen_x + char_width * s.font_size) % 2 ^ 16 in
    elim (Bool-cases (ltb s.width (x + char_width * s.font_size))) [
      | inl e ↦ rw (e, newline-pen s x) (newline-Good s r)
      | inr e ↦
          let room : x + char_width ≤ s.width = ground (arith, r.smallest, e) in
          rw e (moved-Draws s x s.pen_y, moved-Ready s x s.pen_y r room r.room_below)
    ]
