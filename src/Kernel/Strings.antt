-- ===== src/Kernel/Strings.antt =====
-- `stringCompare` of Kernel/string.c. A string is the list of its bytes before the zero byte.
use tp_so.Base.{
  zero, suc, ◌∙◌, ◌+◌, ◌-◌, leb, ◌&&◌, Option, none, some, ℕ, ◌≡◌, refl, ap, ◌↔◌, List, [], ◌∷◌,
  arith, Bool, true, false, Bool-cases, inl, inr, ltb, ◌==◌, if◌then◌else◌,
}
use tp_so.Base.Int.{ℤ, pos, negsuc}
pub mod Case
use mathlib.Core.Path.{ap₂}

unfoldable pub string_compare : List ℕ → List ℕ → ℤ
string_compare [] [] = pos 0
string_compare [] (d ∷ ds) = negsuc 0
string_compare (c ∷ cs) [] = pos 1
string_compare (c ∷ cs) (d ∷ ds) =
    let rest = string_compare cs ds in if c == d then rest else if ltb c d then negsuc 0 else pos 1

-- A result is zero.
abbrev pub is_zero : ℤ → Bool
is_zero (pos zero) = true
is_zero _ = false

same_of_zero : (xs ys : List ℕ) → is_zero (string_compare xs ys) ≡ true → xs ≡ ys
unfolding string_compare
same_of_zero [] [] h = refl
same_of_zero [] (d ∷ ds) h = absurd (no h)
  where
    no : false ≡ true → ⊥
    no e = cc
same_of_zero (c ∷ cs) [] h = absurd (no h)
  where
    no : false ≡ true → ⊥
    no e = cc
same_of_zero (c ∷ cs) (d ∷ ds) h = elim (Bool-cases (c == d)) [
  | inl e ↦ ap₂ ◌∷◌ (ground arith) (same_of_zero cs ds (rw e at h))
  | inr ne ↦ absurd (differ (ltb c d) (rw ne at h))
]
  where
    differ : (t : Bool) → is_zero (if t then negsuc 0 else pos 1) ≡ true → ⊥
    differ true e = cc
    differ false e = cc

compare_self : (xs : List ℕ) → is_zero (string_compare xs xs) ≡ true
unfolding string_compare
compare_self [] = refl
compare_self (c ∷ cs) = rw (self c) (compare_self cs)
  where
    self : (n : ℕ) → (n == n) ≡ true
    self n = ground arith

-- `stringCompare` returns 0 exactly for equal strings.
pub string_compare_lem : (xs ys : List ℕ) → (is_zero (string_compare xs ys) ≡ true) ↔ (xs ≡ ys)
string_compare_lem xs ys =
    (same_of_zero xs ys, λ e. ap (λ zs. is_zero (string_compare xs zs)) (symm e) ∙ compare_self xs)
  where
    symm : {ps qs : List ℕ} → ps ≡ qs → qs ≡ ps
    symm e = cc

-- `stringnCompare`
unfoldable pub stringn_compare : List ℕ → List ℕ → ℕ → ℤ
stringn_compare xs ys zero = pos 0
stringn_compare [] [] (suc n) = pos 0
stringn_compare [] (d ∷ ds) (suc n) = negsuc 0
stringn_compare (c ∷ cs) [] (suc n) = pos 1
stringn_compare (c ∷ cs) (d ∷ ds) (suc n) =
    let rest = stringn_compare cs ds n in
    if c == d then rest else if ltb c d then negsuc 0 else pos 1

-- `'a' <= c && c <= 'z'` and `'A' <= c && c <= 'Z'`
abbrev pub is_lower : ℕ → Bool
is_lower c = leb 97 c && leb c 122

abbrev pub is_upper : ℕ → Bool
is_upper c = leb 65 c && leb c 90

-- `DELTA`
abbrev pub delta : ℕ
delta = 32

pub to_upper : List ℕ → List ℕ
to_upper [] = []
to_upper (c ∷ cs) = (if is_lower c then c - delta else c) ∷ to_upper cs

pub to_lower : List ℕ → List ℕ
to_lower [] = []
to_lower (c ∷ cs) = (if is_upper c then c + delta else c) ∷ to_lower cs

-- `firstOcurrence`: the offset of the pointer that it returns, `none` for NULL.
pub first_ocurrence : List ℕ → ℕ → Option ℕ
first_ocurrence [] c = none
first_ocurrence (x ∷ xs) c = if x == c then some 0 else first_ocurrence xs c

-- `stringLength`; its counter is an int.
unfoldable pub string_length : List ℕ → ℕ
string_length [] = 0
string_length (c ∷ cs) = string_length cs + 1

-- `isCharNum`, `charToNum`
pub is_char_num : ℕ → Bool
is_char_num c = leb 48 c && leb c 57

pub char_to_num : ℕ → ℕ
char_to_num c = if is_char_num c then c - 48 else 0
