-- ===== src/Kernel/Keyboard.antt =====
-- Kernel/drivers/keyboard.c: from the codes of keys to bytes in the standard input. Keys are uint8_t codes;
-- a static variable that is only toggled is a Boolean.
use tp_so.Base.{
  ℕ, zero, suc, ◌+◌, ◌-◌, ◌%◌, ◌^◌, Bool, true, false, not, ◌&&◌, ◌||◌, Option, none, some, List,
  [], ◌∷◌, ◌++◌, ltb, ◌==◌, if◌then◌else◌, get_or, replicate,
}
use tp_so.Base.Maybe.{◌>>=◌}
use tp_so.Ipc.Buffer.{null}
use tp_so.Kernel.{Kernel, exited}
use tp_so.Kernel.Process.{set_process_state}
use tp_so.Kernel.Pipes.{copy_to, set_buffer_references_ready}
pub mod Typing
pub mod Unused

-- The state of the driver: `lock`, `shiftKey`, `leftCntrl`, and the two arrays with their counters.
pub record Keyboard : Type 0 where
  pub lock : Bool
  pub shift_key : Bool
  pub left_cntrl : Bool
  pub k_buff : List ℕ
  pub s_buff : List ℕ
  pub write_position : ℕ
  pub read_position : ℕ
  pub key_count : ℕ

-- `BUFFER_DIM`, `R_SHIFT`, `L_SHIFT`, `L_CNTRL`, `C_CODE`, `D_CODE`
abbrev pub buffer_dim : ℕ
buffer_dim = 512

abbrev pub r_shift : ℕ
r_shift = 0x36

abbrev pub l_shift : ℕ
l_shift = 0x2A

abbrev pub l_cntrl : ℕ
l_cntrl = 0x1D

abbrev pub c_code : ℕ
c_code = 0x2E

abbrev pub d_code : ℕ
d_code = 0x20

-- The letters in the order of the tables, and what stands behind them in both columns: digits and signs,
-- then the space, enter, backspace, caps lock, tab and the arrows.
abbrev small : List ℕ
small =
    b'a' ∷ b'b' ∷ b'c' ∷ b'd' ∷ b'e' ∷ b'f' ∷ b'g' ∷ b'h' ∷ b'i' ∷ b'j' ∷ b'k' ∷ b'l' ∷ b'm' ∷ b'n'
    ∷ b'o' ∷ b'p' ∷ b'q' ∷ b'r' ∷ b's' ∷ b't' ∷ b'u' ∷ b'v' ∷ b'w' ∷ b'x' ∷ b'y' ∷ b'z' ∷ []

abbrev large : List ℕ
large =
    b'A' ∷ b'B' ∷ b'C' ∷ b'D' ∷ b'E' ∷ b'F' ∷ b'G' ∷ b'H' ∷ b'I' ∷ b'J' ∷ b'K' ∷ b'L' ∷ b'M' ∷ b'N'
    ∷ b'O' ∷ b'P' ∷ b'Q' ∷ b'R' ∷ b'S' ∷ b'T' ∷ b'U' ∷ b'V' ∷ b'W' ∷ b'X' ∷ b'Y' ∷ b'Z' ∷ []

abbrev specials : List ℕ
specials = b' ' ∷ 10 ∷ 8 ∷ b'c' ∷ 9 ∷ b'u' ∷ b'l' ∷ b'r' ∷ b'd' ∷ []

abbrev signs : List ℕ
signs =
    b'1' ∷ b'2' ∷ b'3' ∷ b'4' ∷ b'5' ∷ b'6' ∷ b'7' ∷ b'8' ∷ b'9' ∷ b'0' ∷ b'-' ∷ b'=' ∷ b'[' ∷ b']'
    ∷ b';' ∷ 39 ∷ b'`' ∷ 92 ∷ b',' ∷ b'.' ∷ b'/' ∷ []

abbrev shifted_signs : List ℕ
shifted_signs =
    b'!' ∷ b'@' ∷ b'#' ∷ b'$' ∷ b'%' ∷ b'^' ∷ b'&' ∷ b'*' ∷ b'(' ∷ b')' ∷ b'_' ∷ b'+' ∷ b'{' ∷ b'}'
    ∷ b':' ∷ 34 ∷ b'~' ∷ b'|' ∷ b'<' ∷ b'>' ∷ b'?' ∷ []

-- The column of `KEYS` and of `SHIFTED` for the state of `lock`.
pub keys : Bool → List ℕ
keys lock = (if lock then large else small) ++ (signs ++ specials)

pub shifted : Bool → List ℕ
shifted lock = (if lock then small else large) ++ (shifted_signs ++ specials)

-- `SCAN_CODES`
pub scan_codes : List ℕ
scan_codes =
    0x1E ∷ 0x30 ∷ 0x2E ∷ 0x20 ∷ 0x12 ∷ 0x21 ∷ 0x22 ∷ 0x23 ∷ 0x17 ∷ 0x24 ∷ 0x25 ∷ 0x26 ∷ 0x32 ∷ 0x31
    ∷ 0x18 ∷ 0x19 ∷ 0x10 ∷ 0x13 ∷ 0x1F ∷ 0x14 ∷ 0x16 ∷ 0x2F ∷ 0x11 ∷ 0x2D ∷ 0x15 ∷ 0x2C ∷ 0x02
    ∷ 0x03 ∷ 0x04 ∷ 0x05 ∷ 0x06 ∷ 0x07 ∷ 0x08 ∷ 0x09 ∷ 0x0A ∷ 0x0B ∷ 0x0C ∷ 0x0D ∷ 0x1A ∷ 0x1B
    ∷ 0x27 ∷ 0x28 ∷ 0x29 ∷ 0x2B ∷ 0x33 ∷ 0x34 ∷ 0x35 ∷ 0x39 ∷ 0x1C ∷ 0x0E ∷ 0x3A ∷ 0x0F ∷ 0x48
    ∷ 0x4B ∷ 0x4D ∷ 0x50 ∷ []

-- `isMapped`, from code `i` on; `none` is -1.
pub is_mapped_from : ℕ → List ℕ → ℕ → Option ℕ
is_mapped_from i [] key = none
is_mapped_from i (c ∷ cs) key =
    let rest = is_mapped_from (i + 1) cs key in if c == key then some i else rest

pub is_mapped : ℕ → Option ℕ
is_mapped key = is_mapped_from 0 scan_codes key

-- `shift`, `cntrl`, `capsLock`
abbrev pub shift : Keyboard → Keyboard
shift kb = record kb { shift_key = not kb.shift_key }

abbrev pub cntrl : Keyboard → Keyboard
cntrl kb = record kb { left_cntrl = not kb.left_cntrl }

abbrev pub caps_lock : Keyboard → Keyboard
caps_lock kb = record kb { lock = not kb.lock }

-- What `addKey` does besides: it returns, it ends the process in the foreground, or it calls `toBuff`.
pub data Action : Type 0 where
  ignore : Action
  interrupt : Action
  type_byte : ℕ → Action

-- `addKey` for a key with an index in the tables.
pub mapped_key : Keyboard → ℕ → ℕ → Keyboard × Action
mapped_key kb key idx =
    let item = get_or (if kb.shift_key then shifted kb.lock else keys kb.lock) idx 0 in
    if kb.left_cntrl && key == c_code
    then (kb, interrupt)
    else if kb.left_cntrl && key == d_code
    then (kb, type_byte 0)
    else if idx == 50
    then (caps_lock kb, ignore)
    else if item == 9 && kb.shift_key
    then (kb, ignore)
    else (kb, type_byte (if ltb 51 idx then 0xFF else item))

pub press : Keyboard → ℕ → Keyboard × Action
press kb key =
    if ltb 0x80 key
    then if key == r_shift + 0x80 || key == l_shift + 0x80
      then (shift kb, ignore)
      else if key == l_cntrl + 0x80
      then (cntrl kb, ignore)
      else (kb, ignore)
    else if key == r_shift || key == l_shift
    then (shift kb, ignore)
    else if key == l_cntrl
    then (cntrl kb, ignore)
    else elim (is_mapped key) [ none ↦ (kb, ignore) | some idx ↦ mapped_key kb key idx ]

-- `toBuff`: waiting processes are woken if the standard input was empty.
pub to_buff : Kernel → ℕ → ℕ → Option Kernel
to_buff k stdin c =
    let was_empty = (k.buffers stdin).buffer_dim == 0 in
    copy_to k stdin (c ∷ []) >>= λ k'.
    some (if was_empty then set_buffer_references_ready k' stdin else k')

-- The flag says that `_int20h` is called.
pub act : Kernel → ℕ → Action → Option (Bool × Kernel)
act k stdin ignore = some (false, k)
act k stdin interrupt =
    if k.foreground == null
    then some (false, k)
    else some (true, (set_process_state k k.foreground exited).0)
act k stdin (type_byte c) = (to_buff k stdin c >>= λ k'. some (false, k'))

-- `addKey`
pub add_key : Keyboard → Kernel → ℕ → ℕ → Option (Keyboard × Bool × Kernel)
add_key kb k stdin al_key =
    let pressed = press kb al_key in act k stdin pressed.1 >>= λ out. some (pressed.0, out.0, out.1)

-- `readKeyboardBuffer`, `gameRead`; `none` is -1.
abbrev pub taken : Keyboard → Keyboard
taken kb = record kb {
  key_count = kb.key_count - 1;
  read_position = (kb.read_position + 1) % 2 ^ 64;
}

pub read_keyboard_buffer : Keyboard → Option ℕ × Keyboard
read_keyboard_buffer kb =
    if ltb kb.key_count 1
    then (none, kb)
    else (some (get_or kb.k_buff (kb.read_position % buffer_dim) 0), taken kb)

pub game_read : Keyboard → Option ℕ × Keyboard
game_read kb =
    if ltb kb.key_count 1
    then (none, kb)
    else (some (get_or kb.s_buff (kb.read_position % buffer_dim) 0), taken kb)

-- `resetBuffer`
pub reset_buffer : Keyboard → Keyboard
reset_buffer kb = record kb {
  k_buff = replicate 512 0;
  s_buff = replicate 512 0;
  read_position = 0;
  write_position = 0;
  key_count = 0;
}

-- `getScanCode`, over the rows of the tables from row `i` on; `none` is -1.
pub get_scan_code_from : ℕ → List ℕ → ℕ → Option ℕ
get_scan_code_from i [] c = none
get_scan_code_from i (code ∷ codes) c =
    let rest = get_scan_code_from (i + 1) codes c in
    if get_or (keys false) i 0 == c
      || get_or (keys true) i 0 == c
      || get_or (shifted false) i 0 == c
      || get_or (shifted true) i 0 == c
    then some code
    else rest

pub get_scan_code : ℕ → Option ℕ
get_scan_code c = get_scan_code_from 0 scan_codes c
