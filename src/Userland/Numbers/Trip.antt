-- ===== src/Userland/Numbers/Trip.antt =====
-- `stringToInt` reads what `numToString` writes.
use tp_so.Base.{
  ℕ, ◌+◌, ◌-◌, ◌*◌, ◌%◌, ◌^◌, ◌≤◌, ◌<◌, ◌≡◌, refl, ap, ◌∙◌, ◌≢◌, List, [], ◌∷◌, arith, ◌==◌,
  Bool-cases, inl, inr, ◌⊎◌, true, false,
}
use tp_so.Base.Maybe.{Returns, Returns-map, Returns-bind}
use tp_so.Userland.Numbers.{
  digit_char, uint_to_base, negate32, widen, is_negative, with_sign, num_to_string, dec_to_hex,
  is_char_num, read_digits, string_to_int,
}
use tp_so.Userland.Numbers.Value.{
  char_value, number_of, Digits, IsDigit, IsNumeral, uint_to_base-IsNumeral,
}

IsDigit-decimal :
    (c : ℕ) → IsDigit 10 c → (is_char_num c ≡ true) × (char_value c ≡ c - b'0') × (b'0' ≤ c)
unfolding digit_char
IsDigit-decimal c d = ground arith

read_digits-number_of :
    (r a : ℕ) (cs : List ℕ)
    → Digits 10 cs
    → r ≡ a % 2 ^ 32
    → read_digits r cs ≡ number_of 10 a cs % 2 ^ 32
unfolding read_digits number_of Digits
read_digits-number_of r a [] d e = e
read_digits-number_of r a (c ∷ cs) d e =
    let i = IsDigit-decimal c d.0 in
    rw (i.0) (
      read_digits-number_of ((r * 10 + (c - b'0')) % 2 ^ 32) (a * 10 + char_value c) cs d.1
        (omega (arith, i.1)))

string_to_int-Digits : (cs : List ℕ) → Digits 10 cs → string_to_int cs ≡ number_of 10 0 cs % 2 ^ 32
unfolding string_to_int Digits number_of
string_to_int-Digits [] d = omega arith
string_to_int-Digits (c ∷ cs) d =
    let i = IsDigit-decimal c d.0 in
    let e : (c == b'-') ≡ false = ground arith in
    rw e (read_digits-number_of 0 0 (c ∷ cs) d (omega arith))

string_to_int-minus :
    (cs : List ℕ) → Digits 10 cs → string_to_int (b'-' ∷ cs) ≡ negate32 (number_of 10 0 cs % 2 ^ 32)
unfolding string_to_int
string_to_int-minus cs d = ap negate32 (read_digits-number_of 0 0 cs d (omega arith))

-- `stringToInt` gives back each `int` that `numToString` has written as text, the least one included,
-- in the arithmetic that wraps; and `numToString` ends.
pub string_to_int-num_to_string :
    (num : ℕ) → num < 2 ^ 32 → Returns (λ out. string_to_int out.1 ≡ num) (num_to_string num)
unfolding num_to_string
string_to_int-num_to_string num h = elim (Bool-cases (is_negative num)) [
  | inl n ↦
      let v = widen (negate32 num) in
      let low : v < 2 ^ 64 = ground arith in
      let back : negate32 (v % 2 ^ 32) ≡ num = ground arith in
      rw n (
        Returns-bind _ _ (uint_to_base v 10) _
          (uint_to_base-IsNumeral v 10 (omega arith) (omega arith) low)
          (λ out t.
            string_to_int-minus out.1 t.0.digits
            ∙ ap (λ x. negate32 (x % 2 ^ 32)) t.0.stands_for
            ∙ back))
  | inr p ↦ rw p (
      Returns-map _ _ (uint_to_base num 10)
        (λ out t.
          string_to_int-Digits out.1 t.0.digits ∙ ap (λ x. x % 2 ^ 32) t.0.stands_for ∙ omega arith)
        (uint_to_base-IsNumeral num 10 (omega arith) (omega arith) (omega arith)))
]

-- The text of an `int` in a base: that of its absolute value, with a minus in front if it is negative.
abbrev pub IsText : ℕ → ℕ → List ℕ → Type 0
IsText base num text =
    ((is_negative num ≡ false) × IsNumeral base num text)
    ⊎ ((is_negative num ≡ true)
        × ((ds : List ℕ) × (text ≡ b'-' ∷ ds) × IsNumeral base (2 ^ 32 - num) ds))

with_sign-IsText :
    (num base : ℕ)
    → 2 ≤ base
    → base ≤ 36
    → num < 2 ^ 32
    → num ≢ 2 ^ 31
    → Returns (λ out. IsText base num out.1) (with_sign num base)
with_sign-IsText num base p b h ne = elim (Bool-cases (is_negative num)) [
  | inl n ↦
      let v = 2 ^ 32 - num in
      let e : widen (negate32 num) ≡ v = ground arith in
      rw (n, e)
        (Returns-bind _ _ (uint_to_base v base) _ (uint_to_base-IsNumeral v base p b (omega arith))
          (λ out t. inr (refl, (out.1, refl, t.0))))
  | inr q ↦ rw q (
      Returns-map _ _ (uint_to_base num base) (λ out t. inl (refl, t.0))
        (uint_to_base-IsNumeral num base p b (omega arith)))
]

-- For every `int` but the least one, `numToString` ends with its decimal text and `decToHex` with its
-- hexadecimal text: that of the absolute value, with no zero in front, behind a minus if it is negative.
pub num_to_string-IsText :
    (num : ℕ)
    → num < 2 ^ 32
    → num ≢ 2 ^ 31
    → Returns (λ out. IsText 10 num out.1) (num_to_string num)
      × Returns (λ out. IsText 16 num out.1) (dec_to_hex num)
unfolding num_to_string dec_to_hex
num_to_string-IsText num h ne = (
  with_sign-IsText num 10 (omega arith) (omega arith) h ne,
  with_sign-IsText num 16 (omega arith) (omega arith) h ne,
)
