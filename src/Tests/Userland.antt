-- ===== src/Tests/Userland.antt =====
-- Runs of the programs' library and of the shell.
use tp_so.Base.{
  ℕ, ◌+◌, ◌-◌, ◌≤◌, ◌<◌, ◌^◌, ◌≡◌, ◌⊎◌, refl, some, none, false, List, [], ◌∷◌, arith, length, take,
  min, replicate, map, elem,
}
use tp_so.Base.Maybe.{Returns}
use tp_so.Userland.Numbers.{
  uint_to_base, store_digits, swap_ends, digit_char, num_to_string, dec_to_hex, string_to_int,
}
use tp_so.Userland.Numbers.Value.{IsNumeral, uint_to_base-IsNumeral}
use tp_so.Userland.Numbers.Trip.{string_to_int-num_to_string}
use tp_so.Userland.Hex.{string_hex_to_num, is_hex, find_h, hex_digits, add_digits}
use tp_so.Userland.Hex.Trip.{string_hex_to_num-dec_to_hex}
use tp_so.Userland.Tokens.{strtok, later_tokens, add_token, words, split_words, strtok-words}
use tp_so.Userland.Copy.{string_copy, text_of, string_copy-bounds}
use tp_so.Userland.Shell.{Editor, read_chars, check_command, get_arguments}
use tp_so.Userland.Shell.Editing.{edit_all, read_chars-edit_all}
use tp_so.Userland.Shell.Commands.{index_of, first_word, check_command-index_of}
use tp_so.Userland.Shell.Arguments.{before_pipe, get_arguments-words}

writes_hex : uint_to_base 0x1F0 16 ≡ some (3, b'1' ∷ b'F' ∷ b'0' ∷ [])
unfolding uint_to_base store_digits swap_ends digit_char
writes_hex = refl

writes_minus : num_to_string (2 ^ 32 - 42) ≡ some (2, b'-' ∷ b'4' ∷ b'2' ∷ [])
unfolding num_to_string uint_to_base store_digits swap_ends digit_char
writes_minus = refl

uint_to_base-IsNumeral_example :
    Returns
      (λ out. IsNumeral 10 18446744073709551615 out.1 × (out.0 ≡ length out.1) × (out.0 ≤ 64))
      (uint_to_base 18446744073709551615 10)
uint_to_base-IsNumeral_example =
    uint_to_base-IsNumeral 18446744073709551615 10 (omega arith) (omega arith) (omega arith)

string_to_int-num_to_string_example :
    Returns (λ out. string_to_int out.1 ≡ 2 ^ 32 - 42) (num_to_string (2 ^ 32 - 42))
string_to_int-num_to_string_example = string_to_int-num_to_string (2 ^ 32 - 42) (omega arith)

string_hex_to_num-dec_to_hex_example :
    Returns (λ out. string_hex_to_num (b'0' ∷ (b'x' ∷ out.1)) ≡ some 0xC0FFEE) (dec_to_hex 0xC0FFEE)
string_hex_to_num-dec_to_hex_example = string_hex_to_num-dec_to_hex 0xC0FFEE (omega arith)

-- The first digit of 1Ah is dropped.
drops_digit : string_hex_to_num (b'1' ∷ b'A' ∷ b'h' ∷ []) ≡ some 10
unfolding string_hex_to_num is_hex find_h hex_digits add_digits
drops_digit = refl

-- "nice 7", with two spaces in front and one behind.
abbrev line : List ℕ
line = b' ' ∷ b' ' ∷ b'n' ∷ b'i' ∷ b'c' ∷ b'e' ∷ b' ' ∷ b'7' ∷ b' ' ∷ []

strtok-words_example :
    let first = strtok none (some line) (b' ' ∷ []) in
    add_token first.0 (later_tokens 9 first.1 (b' ' ∷ [])) ≡ some (words (b' ' ∷ []) line)
strtok-words_example = strtok-words 9 none line (b' ' ∷ []) (omega arith)

-- A text of three bytes and its end fill an array of four bytes, and the copy stores a fifth.
string_copy-bounds_example :
    ((min 3 4 + 2 ≤ 4)
      × Returns
          (λ d. (text_of d ≡ take 5 (b'a' ∷ b'b' ∷ b'c' ∷ [])) × (length d ≡ 4))
          (string_copy (0 ∷ 0 ∷ 0 ∷ 0 ∷ []) 4 (b'a' ∷ b'b' ∷ b'c' ∷ [])))
    ⊎ ((4 < min 3 4 + 2) × (string_copy (0 ∷ 0 ∷ 0 ∷ 0 ∷ []) 4 (b'a' ∷ b'b' ∷ b'c' ∷ []) ≡ none))
string_copy-bounds_example =
    string_copy-bounds (0 ∷ 0 ∷ 0 ∷ 0 ∷ []) 4 (b'a' ∷ b'b' ∷ b'c' ∷ []) (omega arith)

-- "ps" and "nice"
abbrev names : List (List ℕ)
names = (b'p' ∷ b's' ∷ []) ∷ (b'n' ∷ b'i' ∷ b'c' ∷ b'e' ∷ []) ∷ []

check_command-index_of_example :
    check_command names (b'n' ∷ b'i' ∷ b'c' ∷ b'e' ∷ b' ' ∷ b'7' ∷ [])
    ≡ index_of 0 (first_word (b'n' ∷ b'i' ∷ b'c' ∷ b'e' ∷ b' ' ∷ b'7' ∷ [])) names
check_command-index_of_example =
    check_command-index_of names (b'n' ∷ b'i' ∷ b'c' ∷ b'e' ∷ b' ' ∷ b'7' ∷ []) (omega arith)

get_arguments-words_example :
    Returns
      (λ out. map text_of out ≡ take 2 (before_pipe (words (b' ' ∷ []) line)))
      (get_arguments (replicate 250 0 ∷ replicate 250 0 ∷ []) none line)
unfolding words split_words elem
get_arguments-words_example =
    get_arguments-words (replicate 250 0 ∷ replicate 250 0 ∷ []) none line (refl, (refl, tt))
      (omega arith)

-- "lt", backspace, "s&", and the end of the line.
abbrev editor : Editor
editor = record { last_command = replicate 500 0; buffer_count = 0; is_background = false }

read_chars-edit_all_example :
    Returns
      (λ e. text_of e.last_command ≡ text_of (edit_all [] (b'l' ∷ b't' ∷ 8 ∷ b's' ∷ b'&' ∷ [])))
      (read_chars (b'l' ∷ b't' ∷ 8 ∷ b's' ∷ b'&' ∷ []) editor)
read_chars-edit_all_example =
    read_chars-edit_all (b'l' ∷ b't' ∷ 8 ∷ b's' ∷ b'&' ∷ []) editor refl (omega arith)
