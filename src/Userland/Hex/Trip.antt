-- ===== src/Userland/Hex/Trip.antt =====
-- `stringHexToNum` reads what `decToHex` writes, behind 0x.
use mathlib.Core.List.{reverse, reverse-cons, reverse-reverse}
use native.Mathlib.Nat.{add-mod-mod, add-mul-mod_self_right}
use tp_so.Base.{
  ℕ, suc, ◌+◌, ◌*◌, ◌/◌, ◌%◌, ◌^◌, ◌<◌, ◌≡◌, refl, ap, ◌∙◌, sym, true, false, some, List, [], ◌∷◌,
  ◌==◌, length, arith, take_of_le,
}
use tp_so.Base.Maybe.{Returns, Returns-map}
use tp_so.Userland.Numbers.{digit_char, uint_to_base, is_negative, dec_to_hex}
use tp_so.Userland.Numbers.Value.{
  char_value, number_of, number_of-append, Digits, Digits-append, IsDigit, uint_to_base-IsNumeral,
}
use tp_so.Userland.Hex.{
  is_hex_digit, is_h, hex_digits, find_h, is_hex, hex_value, add_digits, string_hex_to_num,
}

scale-mod : (a l r : ℕ) → ((a % 2 ^ 32) * l + r) % 2 ^ 32 ≡ (a * l + r) % 2 ^ 32
scale-mod a l r =
    let q = a / 2 ^ 32 in
    let s : a ≡ q * 2 ^ 32 + a % 2 ^ 32 = omega arith in
    let e : a * l + r ≡ ((a % 2 ^ 32) * l + r) + (q * l) * 2 ^ 32 =
      grind (arith, ap (λ (t : ℕ). t * l) s) in
    sym (rw e (add-mul-mod_self_right ((a % 2 ^ 32) * l + r) (q * l) (2 ^ 32)))

-- The number that digits stand for, from the last one on.
low_first : List ℕ → ℕ
low_first [] = 0
low_first (c ∷ cs) = hex_value c + 16 * low_first cs

collect : (base v l r : ℕ) → base * 16 * l + (r + v * base) ≡ base * (v + 16 * l) + r
collect base v l r = grind arith

add_digits-low_first :
    (cs : List ℕ) (r base : ℕ)
    → r < 2 ^ 32
    → add_digits cs r base ≡ (base * low_first cs + r) % 2 ^ 32
unfolding add_digits low_first
add_digits-low_first [] r base h = grind arith
add_digits-low_first (c ∷ cs) r base h =
    let r' = (r + hex_value c * base) % 2 ^ 32 in
    let b' = (base * 16) % 2 ^ 32 in
    add_digits-low_first cs r' b' (omega arith)
    ∙ scale-mod (base * 16) (low_first cs) r'
    ∙ add-mod-mod (base * 16 * low_first cs) (r + hex_value c * base) (2 ^ 32)
    ∙ ap (λ (t : ℕ). t % 2 ^ 32) (collect base (hex_value c) (low_first cs) r)

hex_value-IsDigit :
    (c : ℕ)
    → IsDigit 16 c
    → (hex_value c ≡ char_value c)
      × (is_hex_digit c ≡ true)
      × (is_h c ≡ false)
      × ((c == b' ') ≡ false)
unfolding digit_char
hex_value-IsDigit c d = ground arith

Digits-reverse : (cs : List ℕ) → Digits 16 cs → Digits 16 (reverse cs)
unfolding Digits
Digits-reverse [] d = tt
Digits-reverse (c ∷ cs) d =
    rw (reverse-cons c cs)
      (Digits-append 16 (reverse cs) (c ∷ []) (Digits-reverse cs d.1) (d.0, tt))

low_first-number_of : (cs : List ℕ) → Digits 16 cs → low_first cs ≡ number_of 16 0 (reverse cs)
unfolding low_first number_of Digits
low_first-number_of [] d = refl
low_first-number_of (c ∷ cs) d =
    let v = (hex_value-IsDigit c d.0).0 in
    let i = low_first-number_of cs d.1 in
    let n = number_of-append 16 0 (reverse cs) (c ∷ []) in
    rw (reverse-cons c cs, n) (omega (arith, v, i))

-- The digits, read from the last one on, make up the number in the arithmetic that wraps.
read-Digits :
    (ds : List ℕ) → Digits 16 ds → add_digits (reverse ds) 0 1 ≡ number_of 16 0 ds % 2 ^ 32
read-Digits ds d =
    let l = low_first-number_of (reverse ds) (Digits-reverse ds d) in
    let one : 1 * low_first (reverse ds) + 0 ≡ number_of 16 0 ds =
      omega (arith, l, ap (number_of 16 0) (reverse-reverse ds)) in
    add_digits-low_first (reverse ds) 0 1 (omega arith) ∙ ap (λ (t : ℕ). t % 2 ^ 32) one

Digits-only : (ds : List ℕ) → Digits 16 ds → (hex_digits ds ≡ true) × (find_h ds ≡ length ds)
unfolding hex_digits find_h Digits
Digits-only [] d = (refl, refl)
Digits-only (c ∷ cs) d =
    let v = hex_value-IsDigit c d.0 in
    let i = Digits-only cs d.1 in rw (v.1, v.2, v.3) (i.0, ap suc i.1)

prefixed :
    (ds : List ℕ)
    → Digits 16 ds
    → string_hex_to_num (b'0' ∷ (b'x' ∷ ds)) ≡ some (number_of 16 0 ds % 2 ^ 32)
unfolding string_hex_to_num is_hex find_h
prefixed ds d =
    let o = Digits-only ds d in
    let behind : (suc (suc (length ds)) == 0) ≡ false = ground arith in
    rw (o.0, o.1, take_of_le (length ds) ds (omega arith), read-Digits ds d, behind) refl

-- `stringHexToNum` gives back each `int` that is not negative and that `decToHex` has written, with 0x in
-- front; and `decToHex` ends.
pub string_hex_to_num-dec_to_hex :
    (num : ℕ)
    → num < 2 ^ 31
    → Returns (λ out. string_hex_to_num (b'0' ∷ (b'x' ∷ out.1)) ≡ some num) (dec_to_hex num)
unfolding dec_to_hex
string_hex_to_num-dec_to_hex num h =
    let positive : is_negative num ≡ false = ground arith in
    rw positive (
      Returns-map _ _ (uint_to_base num 16)
        (λ out t.
          prefixed out.1 t.0.digits
          ∙ ap some (ap (λ (n : ℕ). n % 2 ^ 32) t.0.stands_for ∙ small_word num h))
        (uint_to_base-IsNumeral num 16 (omega arith) (omega arith) (omega arith)))
  where
    small_word : (n : ℕ) → n < 2 ^ 31 → n % 2 ^ 32 ≡ n
    small_word n h = omega arith
