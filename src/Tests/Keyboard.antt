-- ===== src/Tests/Keyboard.antt =====
-- Runs of the keyboard driver.
use tp_so.Base.{◌≡◌, refl, true, false, List, [], ◌∷◌, arith, get_or}
use tp_so.Base.Maybe.{Returns}
use tp_so.Ipc.Buffer.{read}
use tp_so.Kernel.{Kernel, running}
use tp_so.Kernel.Keyboard.{Keyboard, scan_codes, add_key}
use tp_so.Kernel.Keyboard.Typing.{Typed, add_key-letter}
use tp_so.Kernel.Keyboard.Unused.{KeyCall, pressed, reads, resets}
use tp_so.Tests.Data.{machine, empty_end, empty_end-IsValid}

-- Caps lock is on.
abbrev board : Keyboard
board = record {
  lock = true;
  shift_key = false;
  left_cntrl = false;
  k_buff = [];
  s_buff = [];
  write_position = 0;
  read_position = 0;
  key_count = 0;
}

abbrev waiting : Kernel
waiting = record (machine running) { buffers = λ a. empty_end read 0 }

add_key-letter_example :
    Returns
      (λ out. (out.0 ≡ board) × (out.1 ≡ false) × Typed waiting 0x700 b'Q' out.2)
      (add_key board waiting 0x700 (get_or scan_codes 16 0))
add_key-letter_example =
    add_key-letter board waiting 0x700 16 refl (omega arith) (λ e. omega arith)
      (empty_end-IsValid read 0) (omega arith) (omega arith)

abbrev calls : List KeyCall
calls = pressed 0x1E ∷ pressed 0x9E ∷ reads ∷ resets ∷ pressed 0x30 ∷ []
