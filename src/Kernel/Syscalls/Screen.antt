-- ===== src/Kernel/Syscalls/Screen.antt =====
-- The handlers for the screen, the keyboard of games and the clock. What a handler stores through a
-- pointer of the caller stands in front of the value that it returns.
use tp_so.Base.{ℕ, ◌+◌, ◌%◌, ◌^◌, ◌&&◌, Option, some, none, List, ltb, if◌then◌else◌, [], ◌∷◌}
use tp_so.Kernel.Keyboard.{Keyboard, reset_buffer, game_read}
use tp_so.Kernel.Video.{Color, Screen, get_ptr_to_pixel, scr_clear, scr_change_font}
use tp_so.Kernel.Video.Text.{scr_print_char_with_color}

abbrev pub red : Color
red = record { b = 0; g = 0; r = 0xFF }

-- The loop of `arqSysWrite` over the bytes for the standard error output
pub write_errors : (ℕ → ℕ) → Screen → List ℕ → Screen
write_errors font s [] = s
write_errors font s (c ∷ cs) = write_errors font (scr_print_char_with_color font s c red) cs

-- `arqSysClear`
pub arq_sys_clear : Keyboard → Screen → Keyboard × Screen × ℕ
arq_sys_clear kb s = (reset_buffer kb, scr_clear s, 0)

-- `arqSysScreenHeight`, `arqSysScreenWidth`
pub arq_sys_screen_height : Screen → ℕ × ℕ
arq_sys_screen_height s = (s.height, 0)

pub arq_sys_screen_width : Screen → ℕ × ℕ
arq_sys_screen_width s = (s.width, 0)

abbrev pub key_byte : Option ℕ → ℕ
key_byte none = 255
key_byte (some key) = key

-- `arqSysGameRead`; -1 is stored as an unsigned byte.
pub arq_sys_game_read : Keyboard → ℕ × Keyboard × ℕ
arq_sys_game_read kb = let key = game_read kb in (key_byte key.0, key.1, 0)

-- `arqSysgetPtrToPixel`
pub arq_sys_get_ptr_to_pixel : Screen → ℕ → ℕ → Color × ℕ
arq_sys_get_ptr_to_pixel s x y =
    let at = get_ptr_to_pixel s (x % 2 ^ 16) (y % 2 ^ 16) in
    (record { b = s.memory at; g = s.memory (at + 1); r = s.memory (at + 2) }, 0)

-- `arqSysGetPenX`, `arqSysGetPenY`
pub arq_sys_get_pen_x : Screen → ℕ × ℕ
arq_sys_get_pen_x s = (s.pen_x, 0)

pub arq_sys_get_pen_y : Screen → ℕ × ℕ
arq_sys_get_pen_y s = (s.pen_y, 0)

-- `arqSysChangeFontSize`
pub arq_sys_change_font_size : Screen → ℕ → Screen × ℕ
arq_sys_change_font_size s new_size =
    (if ltb 0 new_size && ltb new_size 6 then scr_change_font s new_size else s, 0)
