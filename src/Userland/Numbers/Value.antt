-- ===== src/Userland/Numbers/Value.antt =====
-- The number that a text of digits stands for, and that `uintToBase` writes a text for its number.
use mathlib.Core.List.{reverse, reverse-cons, append-nil}
use native.Mathlib.Numerals.{unary_clauses}
use tp_so.Base.{
  ℕ, zero, suc, ◌+◌, ◌-◌, ◌*◌, ◌/◌, ◌%◌, ◌^◌, ◌≤◌, ◌<◌, ◌≡◌, refl, sym, ap, ◌∙◌, ◌≢◌, some, List,
  [], ◌∷◌, ◌++◌, arith, leb, ◌==◌, if◌then◌else◌, length, Bool-cases, inl, inr, ◌⊎◌, false,
  length-append,
}
use tp_so.Base.Maybe.{◌>>=◌, Returns, Returns-bind}
use tp_so.Userland.Numbers.{digit_char, store_digits, swap_ends, uint_to_base}
use tp_so.Userland.Numbers.Digits.{swap_ends-reverse}

-- The value of a digit, `0` to `9` and then `A` to `Z`.
abbrev pub char_value : ℕ → ℕ
char_value c = if leb c b'9' then c - b'0' else c + 10 - b'A'

-- The number that the digits stand for, read from the left.
unfoldable pub number_of : ℕ → ℕ → List ℕ → ℕ
number_of base acc [] = acc
number_of base acc (c ∷ cs) = number_of base (acc * base + char_value c) cs

-- The characters are digits of the base.
abbrev pub IsDigit : ℕ → ℕ → Type 0
IsDigit base c = (char_value c < base) × (digit_char (char_value c) ≡ c)

unfoldable pub Digits : ℕ → List ℕ → Type 0
Digits base [] = Unit
Digits base (c ∷ cs) = IsDigit base c × Digits base cs

pub digit_char-IsDigit :
    (base r : ℕ)
    → base ≤ 36
    → r < base
    → IsDigit base (digit_char r) × (char_value (digit_char r) ≡ r)
unfolding digit_char
digit_char-IsDigit base r b h = ground arith

pub number_of-append :
    (base acc : ℕ) (xs ys : List ℕ)
    → number_of base acc (xs ++ ys) ≡ number_of base (number_of base acc xs) ys
unfolding number_of
number_of-append base acc [] ys = refl
number_of-append base acc (x ∷ xs) ys = number_of-append base (acc * base + char_value x) xs ys

pub Digits-append :
    (base : ℕ) (xs ys : List ℕ) → Digits base xs → Digits base ys → Digits base (xs ++ ys)
unfolding Digits
Digits-append base [] ys d e = e
Digits-append base (x ∷ xs) ys d e = (d.0, Digits-append base xs ys d.1 e)

-- The text of a number: digits of the base that stand for it, with no zero in front but in `0`.
pub record IsNumeral (base value : ℕ) (text : List ℕ) : Type 0 where
  pub digits : Digits base text
  pub stands_for : number_of base 0 text ≡ value
  pub no_zero_in_front :
      (text ≡ b'0' ∷ []) ⊎ ((c : ℕ) × (cs : List ℕ) × (text ≡ c ∷ cs) × (c ≢ b'0'))

digit_zero : (r : ℕ) → r ≡ 0 → digit_char r ≡ b'0'
unfolding digit_char
digit_zero r h = ground arith

digit_nonzero : (r : ℕ) → r ≢ 0 → digit_char r ≢ b'0'
unfolding digit_char
digit_nonzero r h e = ground arith

single-IsNumeral :
    (base value : ℕ) → base ≤ 36 → value < base → IsNumeral base value (digit_char value ∷ [])
unfolding Digits number_of
single-IsNumeral base value b h = record {
  digits = ((digit_char-IsDigit base value b h).0, tt);
  stands_for = omega (arith, (digit_char-IsDigit base value b h).1);
  no_zero_in_front = elim (Bool-cases (value == 0)) [
    | inl z ↦ inl (ap (λ d. d ∷ []) (digit_zero value (ground arith)))
    | inr n ↦ inr (digit_char value, [], refl, digit_nonzero value (ground arith))
  ];
}

remainder_lt : (value base : ℕ) → 2 ≤ base → value % base < base
remainder_lt value base p = grind arith

quotient_remainder : (value base : ℕ) → 2 ≤ base → (value / base) * base + value % base ≡ value
quotient_remainder value base p = grind arith

zero_text : (base : ℕ) → number_of base 0 (b'0' ∷ []) ≡ 0
unfolding number_of
zero_text base = grind arith

snoc-IsNumeral :
    (base value : ℕ) (text : List ℕ)
    → 2 ≤ base
    → base ≤ 36
    → (value / base) ≢ 0
    → IsNumeral base (value / base) text
    → IsNumeral base value (text ++ digit_char (value % base) ∷ [])
unfolding Digits number_of
snoc-IsNumeral base value text p b ne t = record {
  digits =
      Digits-append base text (digit_char (value % base) ∷ []) t.digits
        ((digit_char-IsDigit base (value % base) b (remainder_lt value base p)).0, tt);
  stands_for =
      number_of-append base 0 text (digit_char (value % base) ∷ [])
      ∙ rw (t.stands_for, (digit_char-IsDigit base (value % base) b (remainder_lt value base p)).1)
          (quotient_remainder value base p);
  no_zero_in_front = elim t.no_zero_in_front [
    | inl z ↦ absurd (ne (sym t.stands_for ∙ ap (number_of base 0) z ∙ zero_text base))
    | inr (c, cs, e, n) ↦ inr (
      c,
      cs ++ digit_char (value % base) ∷ [],
      ap (λ l. l ++ digit_char (value % base) ∷ []) e,
      n,
    )
  ];
}

halves : (f value base : ℕ) → 2 ≤ base → value < 2 ^ suc f → value / base < 2 ^ f
halves f value base p h =
    let q : (value / base) * base ≤ value = grind arith in
    let two : 2 ^ suc f ≡ 2 * 2 ^ f = simp unary_clauses (omega arith) in grind arith

length-reverse : (cs : List ℕ) → length (reverse cs) ≡ length cs
length-reverse [] = refl
length-reverse (c ∷ cs) =
    let e = ap length (reverse-cons c cs) in
    omega (arith, e, length-append (reverse cs) (c ∷ []), length-reverse cs)

-- The second loop from the two ends of the text on.
reversed : (cs : List ℕ) → swap_ends (length cs) cs 0 (length cs - 1) ≡ some (reverse cs)
reversed cs =
    let e : 0 + length cs - 1 ≡ length cs - 1 = omega arith in
    rw (append-nil cs, append-nil (reverse cs), e) at
      (swap_ends-reverse (length cs) [] cs [] (omega arith))

-- What the first loop stores within its rounds, read from the end.
abbrev StoredFor : ℕ → ℕ → ℕ → List ℕ → Type 0
StoredFor rounds value base cs = IsNumeral base value (reverse cs) × (length cs ≤ rounds)

store_digits-last :
    (f value base : ℕ)
    → 2 ≤ base
    → value / base ≡ 0
    → store_digits (suc f) value base ≡ some (digit_char value ∷ [])
unfolding store_digits
store_digits-last f value base p e =
    let r : value % base ≡ value =
      omega (arith, quotient_remainder value base p, ap (λ (t : ℕ). t * base) e) in
    rw (e, r) refl

store_digits-more :
    (f value base : ℕ)
    → value / base ≢ 0
    → store_digits (suc f) value base
      ≡ (store_digits f (value / base) base >>= λ cs. some (digit_char (value % base) ∷ cs))
unfolding store_digits
store_digits-more f value base ne = let e : (value / base == 0) ≡ false = ground arith in rw e refl

small_of_quotient : (value base : ℕ) → 2 ≤ base → value / base ≡ 0 → value < base
small_of_quotient value base p e = grind arith

more-StoredFor :
    (f value base : ℕ)
    → 2 ≤ base
    → base ≤ 36
    → value / base ≢ 0
    → Returns (StoredFor f (value / base) base) (store_digits f (value / base) base)
    → Returns (StoredFor (suc f) value base) (store_digits (suc f) value base)
more-StoredFor f value base p b ne ih = rw (store_digits-more f value base ne) (
    Returns-bind (StoredFor f (value / base) base) (StoredFor (suc f) value base)
      (store_digits f (value / base) base) (λ cs. some (digit_char (value % base) ∷ cs)) ih
      (λ cs s. (
        rw (reverse-cons (digit_char (value % base)) cs)
            (snoc-IsNumeral base value (reverse cs) p b ne s.0),
        omega arith,
      )))

last-StoredFor :
    (f value base : ℕ)
    → 2 ≤ base
    → base ≤ 36
    → value / base ≡ 0
    → Returns (StoredFor (suc f) value base) (store_digits (suc f) value base)
last-StoredFor f value base p b e =
    rw (store_digits-last f value base p e)
      (single-IsNumeral base value b (small_of_quotient value base p e), omega arith)

quotient_zero : (value base : ℕ) → 2 ≤ base → value < 2 → value / base ≡ 0
quotient_zero value base p h = grind arith

store_digits-StoredFor :
    (f value base : ℕ)
    → 2 ≤ base
    → base ≤ 36
    → value < 2 ^ suc f
    → Returns (StoredFor (suc f) value base) (store_digits (suc f) value base)
store_digits-StoredFor zero value base p b h =
    last-StoredFor zero value base p b (quotient_zero value base p h)
store_digits-StoredFor (suc f) value base p b h = elim (Bool-cases (value / base == 0)) [
  | inl z ↦ last-StoredFor (suc f) value base p b (ground arith)
  | inr n ↦
      more-StoredFor (suc f) value base p b (λ e. ground arith)
        (store_digits-StoredFor f (value / base) base p b (halves (suc f) value base p h))
]

-- For a base from 2 to 36 and a uint64_t, both loops of `uintToBase` end within their rounds (64 for the
-- first). The buffer holds the text of the number in that base, in order: its digits, most
-- significant first, with no zero in front but in `0`; and the result is the number of digits, 64 at
-- most.
pub uint_to_base-IsNumeral :
    (value base : ℕ)
    → 2 ≤ base
    → base ≤ 36
    → value < 2 ^ 64
    → Returns
        (λ out. IsNumeral base value out.1 × (out.0 ≡ length out.1) × (out.0 ≤ 64))
        (uint_to_base value base)
unfolding uint_to_base
uint_to_base-IsNumeral value base p b h =
    Returns-bind (StoredFor 64 value base) _ (store_digits 64 value base) _
      (store_digits-StoredFor 63 value base p b h)
      (λ cs s.
        let e : swap_ends (length cs) cs 0 (length cs - 1) ≡ some (reverse cs) = reversed cs in
        rw e (s.0, sym (length-reverse cs), s.1))
