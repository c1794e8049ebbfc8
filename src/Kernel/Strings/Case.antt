-- ===== src/Kernel/Strings/Case.antt =====
-- Upper and lower case, and where a character is found.
use mathlib.Core.Path.{ap₂}
use tp_so.Base.{
  ℕ, ◌≡◌, refl, List, [], ◌∷◌, none, some, arith, ◌+◌, ◌-◌, ◌==◌, if◌then◌else◌, elem, Bool-cases,
  inl, inr,
}
use tp_so.Kernel.Strings.{is_lower, is_upper, to_upper, to_lower, first_ocurrence}

lower_upper_char :
    (c : ℕ)
    → (let d = (if is_lower c then c - 32 else c) in if is_upper d then d + 32 else d)
      ≡ (if is_upper c then c + 32 else c)
lower_upper_char c = ground arith

-- To put a string in upper case and then in lower case is to put it in lower case.
pub to_lower-to_upper : (cs : List ℕ) → to_lower (to_upper cs) ≡ to_lower cs
unfolding to_lower to_upper
to_lower-to_upper [] = refl
to_lower-to_upper (c ∷ cs) = ap₂ ◌∷◌ (lower_upper_char c) (to_lower-to_upper cs)

-- `firstOcurrence` returns the start of the string, wherever in it the character stands.
pub first_ocurrence_lem :
    (cs : List ℕ) (c : ℕ) → first_ocurrence cs c ≡ (if elem c cs then some 0 else none)
unfolding first_ocurrence elem
first_ocurrence_lem [] c = refl
first_ocurrence_lem (x ∷ xs) c = elim (Bool-cases (x == c)) [
  | inl e ↦ rw e
  | inr ne ↦ rw ne (first_ocurrence_lem xs c)
]
