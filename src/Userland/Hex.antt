-- ===== src/Userland/Hex.antt =====
-- `isHex` and `stringHexToNum` of Userland/string.c: numbers in base 16 with 0x in front or with an h
-- behind. `none` is a read outside the string. The arithmetic is that of an `int`, which wraps.
use mathlib.Core.List.{reverse}
use tp_so.Base.{
  ℕ, zero, suc, ◌+◌, ◌-◌, ◌*◌, ◌%◌, ◌^◌, Bool, true, false, not, ◌&&◌, ◌||◌, Option, none, some,
  List, [], ◌∷◌, leb, ◌==◌, if◌then◌else◌, length, take, drop, get_or,
}
use tp_so.Base.Maybe.{◌>>=◌}
pub mod Trip

abbrev pub is_hex_digit : ℕ → Bool
is_hex_digit c = leb b'0' c && leb c b'9' || leb b'A' c && leb c b'F' || leb b'a' c && leb c b'f'

abbrev pub is_h : ℕ → Bool
is_h c = c == b'h' || c == b'H'

abbrev pub is_x : ℕ → Bool
is_x c = c == b'x' || c == b'X'

-- The characters up to the end or the first space are digits.
unfoldable pub hex_digits : List ℕ → Bool
hex_digits [] = true
hex_digits (c ∷ cs) = if c == b' ' then true else if is_hex_digit c then hex_digits cs else false

-- Where the first h stands, or the length of the string.
unfoldable pub find_h : List ℕ → ℕ
find_h [] = 0
find_h (c ∷ cs) = let rest = find_h cs in if is_h c then 0 else suc rest

abbrev pub has_prefix : List ℕ → Bool
has_prefix number = get_or number 0 0 == b'0' && is_x (get_or number 1 0)

-- `isHex`. The first character is stepped over also where it is not a zero.
unfoldable pub is_hex : List ℕ → Option Bool
is_hex [] = none
is_hex (c ∷ cs) =
    if has_prefix (c ∷ cs)
    then some (hex_digits (drop 1 cs))
    else some (not (find_h cs == length cs))

-- The value of a digit as `TO_NUM`, `TO_NUM_UPPER` and `TO_NUM_LOWER` make it, 0 for other characters.
abbrev pub hex_value : ℕ → ℕ
hex_value c =
    if leb b'0' c && leb c b'9'
    then c - 48
    else if leb b'A' c && leb c b'F'
    then c - 55
    else if leb b'a' c && leb c b'f'
    then c - 87
    else 0

-- The second loop of `stringHexToNum`, over the characters from the last one on.
unfoldable pub add_digits : List ℕ → ℕ → ℕ → ℕ
add_digits [] to_return base = to_return
add_digits (c ∷ cs) to_return base =
    add_digits cs ((to_return + hex_value c * base) % 2 ^ 32) ((base * 16) % 2 ^ 32)

-- `stringHexToNum`. The loop stops at `start`, which it leaves out; a number that begins with h puts its end
-- in front of `start`.
unfoldable pub string_hex_to_num : List ℕ → Option ℕ
string_hex_to_num number =
    let end = find_h number in
    let start = (if has_prefix number then 1 else 0) in
    is_hex number >>= λ hex.
    if not hex
    then some 0
    else if end == 0
    then none
    else some (add_digits (reverse (drop (start + 1) (take end number))) 0 1)
