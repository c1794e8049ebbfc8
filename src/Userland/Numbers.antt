-- ===== src/Userland/Numbers.antt =====
-- Userland/string.c and Userland/lib.c: numbers as text. A string is the list of its bytes before the
-- zero byte; an `int` is its bit pattern of 32 bits, whose arithmetic wraps.
use tp_so.Base.{
  ℕ, zero, suc, ◌+◌, ◌-◌, ◌*◌, ◌/◌, ◌%◌, ◌^◌, Bool, ◌&&◌, Option, none, some, List, [], ◌∷◌, ltb,
  leb, ◌==◌, if◌then◌else◌, length, get_or, set,
}
use tp_so.Base.Maybe.{◌>>=◌}
pub mod Digits
pub mod Value
pub mod Trip

-- A digit as `uintToBase` writes it.
unfoldable pub digit_char : ℕ → ℕ
digit_char remainder = if ltb remainder 10 then remainder + b'0' else remainder + b'A' - 10

-- The first loop of `uintToBase`, `rounds` at most: the characters as they are stored.
unfoldable pub store_digits : ℕ → ℕ → ℕ → Option (List ℕ)
store_digits zero value base = none
store_digits (suc rounds) value base =
    let rest = store_digits rounds (value / base) base in
    let c = digit_char (value % base) in
    if value / base == 0 then some (c ∷ []) else (rest >>= λ cs. some (c ∷ cs))

-- The second loop: the characters at the two ends change places.
unfoldable pub swap_ends : ℕ → List ℕ → ℕ → ℕ → Option (List ℕ)
swap_ends zero buffer p1 p2 = if ltb p1 p2 then none else some buffer
swap_ends (suc rounds) buffer p1 p2 =
    let swapped = set (set buffer p1 (get_or buffer p2 0)) p2 (get_or buffer p1 0) in
    let rest = swap_ends rounds swapped (p1 + 1) (p2 - 1) in if ltb p1 p2 then rest else some buffer

-- `uintToBase`: the number of digits, and what stands in the buffer.
unfoldable pub uint_to_base : ℕ → ℕ → Option (ℕ × List ℕ)
uint_to_base value base = store_digits 64 value base >>= λ stored.
    swap_ends (length stored) stored 0 (length stored - 1) >>= λ buffer.
    some (length stored, buffer)

-- `num * -1` of an `int`, and the conversion of an `int` to a uint64_t.
abbrev pub negate32 : ℕ → ℕ
negate32 n = (2 ^ 32 - n) % 2 ^ 32

abbrev pub is_negative : ℕ → Bool
is_negative n = leb (2 ^ 31) n

abbrev pub widen : ℕ → ℕ
widen n = if is_negative n then n + (2 ^ 64 - 2 ^ 32) else n

abbrev pub with_sign : ℕ → ℕ → Option (ℕ × List ℕ)
with_sign num base =
    if is_negative num
    then (uint_to_base (widen (negate32 num)) base >>= λ out. some (out.0, b'-' ∷ out.1))
    else uint_to_base (widen num) base

-- `numToString`, `decToHex`
unfoldable pub num_to_string : ℕ → Option (ℕ × List ℕ)
num_to_string num = with_sign num 10

unfoldable pub dec_to_hex : ℕ → Option (ℕ × List ℕ)
dec_to_hex num = with_sign num 16

-- `isCharNum`
abbrev pub is_char_num : ℕ → Bool
is_char_num c = leb b'0' c && leb c b'9'

-- `stringToInt` of lib.c: digits up to the first other character.
unfoldable pub read_digits : ℕ → List ℕ → ℕ
read_digits result [] = result
read_digits result (c ∷ cs) =
    if is_char_num c then read_digits ((result * 10 + (c - b'0')) % 2 ^ 32) cs else result

unfoldable pub string_to_int : List ℕ → ℕ
string_to_int [] = 0
string_to_int (c ∷ cs) = if c == b'-' then negate32 (read_digits 0 cs) else read_digits 0 (c ∷ cs)
